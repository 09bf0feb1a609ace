-- ===== src/Dns/Setup.antt =====
-- `NewResolver` of dns/resolver.go, with `transform` of dns/util.go and `NewDomainFilter` of dns/filters.go.
use mathlib.Core.List.{foldl}
use clash_flt.Prelude.{Bool, true, Option, none, some, List, [], ◌∷◌, map, if◌then◌else◌}
use clash_flt.Prelude.Text.{Text, codes, text_eq}
use clash_flt.Lru
use clash_flt.Lru.{LruCache, CacheOption}
use clash_flt.Trie
use clash_flt.Trie.{Node, data_of}
use clash_flt.Metadata.{Ip}
use clash_flt.Rule.{IpNet}
use clash_flt.Dns.Resolver.{
  NameServer, Client, doh, dhcp, plain, IpFilter, geoip, ipnet, Resolver, Network, is_empty_list,
}

module _ (w : Network) where
  unfoldable pub transform : List NameServer → List Client
  transform [] = []
  transform (s ∷ servers) =
      let rest = transform servers in
      if text_eq s.net (codes "https")
      then doh s.addr s.interface ∷ rest
      else if text_eq s.net (codes "dhcp")
      then dhcp s.addr ∷ rest
      else let (host, port) = w.split_host_port s.addr in plain s.net host port s.interface ∷ rest

-- `NewDomainFilter`: domains that are not valid are left out.
unfoldable pub insert_domain : Node (Unit {0}) → Text → Node (Unit {0})
insert_domain n domain = elim (Trie.insert domain (some tt) n) [ none ↦ n | some m ↦ m ]

unfoldable pub new_domain_filter : List Text → Node (Unit {0})
new_domain_filter domains = foldl insert_domain Trie.new domains

pub record FallbackFilter : Type 0 where
  pub geo_ip : Bool
  pub geo_ip_code : Text
  pub ip_cidr : List IpNet
  pub domain : List Text

-- `Policy` is a map: its pairs are in the order in which the loop meets them.
pub record Config : Type 0 where
  pub main : List NameServer
  pub fallback : List NameServer
  pub ipv6 : Bool
  pub fallback_filter : FallbackFilter
  pub hosts : Option (Node Ip)
  pub policy : List (Text × NameServer)
  pub search_domains : List Text

unfoldable pub insert_policy : Network → Node (List Client) → Text × NameServer → Node (List Client)
insert_policy w n (domain, nameserver) =
    elim (Trie.insert domain (some (transform w (nameserver ∷ []))) n) [ none ↦ n | some m ↦ m ]

unfoldable pub ip_filters : FallbackFilter → List IpFilter
ip_filters f =
    let nets = map ipnet f.ip_cidr in if f.geo_ip then geoip f.geo_ip_code ∷ nets else nets

unfoldable pub new_resolver : Network → Config → Resolver
new_resolver w config = record {
  ipv6 = config.ipv6;
  hosts = config.hosts;
  main = transform w config.main;
  fallback = if is_empty_list config.fallback then none else some (transform w config.fallback);
  fallback_domain_filters =
      if is_empty_list config.fallback_filter.domain
      then []
      else new_domain_filter config.fallback_filter.domain ∷ [];
  fallback_ip_filters = ip_filters config.fallback_filter;
  lru_cache = Lru.new (CacheOption.with_size 4096 ∷ CacheOption.with_stale true ∷ []);
  policy =
      if is_empty_list config.policy
      then none
      else some (foldl (insert_policy w) Trie.new config.policy);
  search_domains = config.search_domains;
}
