-- ===== src/Config/Settings.antt =====
-- config/config.go, `parseDNS` and `parseGeneral`: the settings of the DNS component and of the
-- program.
use mathlib.Core.List.{foldl}
use clash_flt.Prelude.{
  ℕ, ◌+◌, ◌-◌, ◌*◌, ltb, Bool, ◌&&◌, ◌||◌, not, Option, none, some, List, [], ◌∷◌, ◌==◌,
  if◌then◌else◌, length,
}
use clash_flt.Prelude.Text.{Text, codes, contains, has_prefix, has_suffix}
use clash_flt.Picker.{ok, err}
use clash_flt.Metadata.{Ip, DnsMode, is_some}
use clash_flt.Trie
use clash_flt.Trie.{Node}
use clash_flt.Rule.{IpNet}
use clash_flt.FakeIp
use clash_flt.FakeIp.{Pool, MemoryStore, Ipv4}
use clash_flt.Enhancer.{is_fake_mode}
use clash_flt.Dns.Resolver.{NameServer, is_empty_list}
use clash_flt.Dns.Setup.{insert_domain}
use clash_flt.Config.Checked.{
  Checked, ConfigError, no_nameserver, no_default_nameserver, default_not_ip, bad_fake_ip_range,
  no_fake_ip, short_ip, search_domain_dot, search_domain_port, or_error, ◌>>=◌,
}
use clash_flt.Config.Servers.{
  Library, parse_name_server, parse_name_server_policy, parse_fallback_ip_cidr,
}

pub record RawFallbackFilter : Type 0 where
  pub geo_ip : Bool
  pub geo_ip_code : Text
  pub ip_cidr : List Text
  pub domain : List Text

pub record RawDns : Type 0 where
  pub enable : Bool
  pub ipv6 : Option Bool
  pub use_hosts : Bool
  pub name_server : List Text
  pub fallback : List Text
  pub fallback_filter : RawFallbackFilter
  pub listen : Text
  pub enhanced_mode : DnsMode
  pub fake_ip_range : Text
  pub fake_ip_filter : List Text
  pub default_nameserver : List Text
  pub name_server_policy : List (Text × Text)
  pub search_domains : List Text

pub record FallbackFilter : Type 0 where
  pub geo_ip : Bool
  pub geo_ip_code : Text
  pub ip_cidr : List IpNet
  pub domain : List Text

pub record Dns : Type 0 where
  pub enable : Bool
  pub ipv6 : Bool
  pub name_server : List NameServer
  pub fallback : List NameServer
  pub fallback_filter : FallbackFilter
  pub listen : Text
  pub enhanced_mode : DnsMode
  pub default_nameserver : List NameServer
  pub fake_ip_range : Option (Pool MemoryStore)
  pub hosts : Option (Node Ip)
  pub name_server_policy : List (Text × NameServer)
  pub search_domains : List Text

-- `Mask.Size`: the ones at the front of a mask and all its bits, byte by byte; a mask that a CIDR
-- text gives has no zero before a one.
unfoldable pub leading_ones : ℕ → ℕ
leading_ones b =
    if b == 255
    then 8
    else if b == 254
    then 7
    else if b == 252
    then 6
    else if b == 248
    then 5
    else if b == 240
    then 4
    else if b == 224
    then 3
    else if b == 192
    then 2
    else if b == 128
    then 1
    else 0

unfoldable pub mask_ones : List ℕ → ℕ
mask_ones [] = 0
mask_ones (b ∷ mask) = leading_ones b + mask_ones mask

-- The filter of the names that get no fake address.
unfoldable pub skip_host : List Text → Option (Node (Unit {0}))
skip_host filter = if is_empty_list filter then none else some (foldl insert_domain Trie.new filter)

-- The bytes that `ipToUint` reads: of an IPv6 net, its first four.
unfoldable pub first_four : Ip → Option Ipv4
first_four (a ∷ b ∷ c ∷ d ∷ ip) = some (record { a = a; b = b; c = c; d = d })
first_four _ = none

-- A shift of a 64-bit number by more than 63 is 0, which is no net.
unfoldable pub pool_of : IpNet → List Text → Checked (Pool MemoryStore)
pool_of net filter = do
  ip ← or_error (first_four net.ip) short_ip
  let ones = mask_ones net.mask
  let bits = 8 * length net.mask
  or_error (if ltb 63 (bits - ones) then none else FakeIp.new ip ones bits (skip_host filter) 1000)
      no_fake_ip

unfoldable pub check_default_nameserver : Library → List NameServer → Checked (Unit {0})
check_default_nameserver lib [] = ok tt
check_default_nameserver lib (ns ∷ servers) = elim (lib.split_host_port ns.addr) [
  | none ↦ err default_not_ip
  | some (host, port) ↦
      if is_some (lib.parse_ip host)
      then check_default_nameserver lib servers
      else err default_not_ip
]

unfoldable pub check_search_domains : List Text → Checked (Unit {0})
check_search_domains [] = ok tt
check_search_domains (domain ∷ domains) =
    if has_prefix domain (codes ".") || has_suffix domain (codes ".")
    then err search_domain_dot
    else if contains domain (codes ":")
    then err search_domain_port
    else check_search_domains domains

-- Without persistence, which keeps the pool in the cache file.
unfoldable pub fake_pool : Library → RawDns → Checked (Option (Pool MemoryStore))
fake_pool lib cfg =
    if is_fake_mode cfg.enhanced_mode
    then (do
      net ← or_error (lib.parse_cidr cfg.fake_ip_range) bad_fake_ip_range
      pool ← pool_of net cfg.fake_ip_filter
      ok (some pool))
    else ok none

-- A net that cannot be read leaves the list of the filter empty.
unfoldable pub nets_or_none : Checked (List IpNet) → List IpNet
nets_or_none (ok nets) = nets
nets_or_none (err e) = []

unfoldable pub ensure : Bool → ConfigError → Checked (Unit {0})
ensure b e = if b then ok tt else err e

unfoldable pub ptr_or : Option Bool → Bool → Bool
ptr_or none b = b
ptr_or (some a) b = a

unfoldable pub parse_dns : Library → RawDns → Bool → Node Ip → Checked Dns
parse_dns lib cfg ipv6 hosts = do
  some_server ← ensure (not (cfg.enable && is_empty_list cfg.name_server)) no_nameserver
  name_server ← parse_name_server lib cfg.name_server
  fallback ← parse_name_server lib cfg.fallback
  policy ← parse_name_server_policy lib cfg.name_server_policy
  some_default ← ensure (not (is_empty_list cfg.default_nameserver)) no_default_nameserver
  default_nameserver ← parse_name_server lib cfg.default_nameserver
  pure_ip ← check_default_nameserver lib default_nameserver
  pool ← fake_pool lib cfg
  domains ← check_search_domains cfg.search_domains
  ok (record {
    enable = cfg.enable;
    ipv6 = ptr_or cfg.ipv6 ipv6;
    name_server = name_server;
    fallback = fallback;
    fallback_filter = record {
      geo_ip = cfg.fallback_filter.geo_ip;
      geo_ip_code = cfg.fallback_filter.geo_ip_code;
      ip_cidr = nets_or_none (parse_fallback_ip_cidr lib cfg.fallback_filter.ip_cidr);
      domain = cfg.fallback_filter.domain;
    };
    listen = cfg.listen;
    enhanced_mode = cfg.enhanced_mode;
    default_nameserver = default_nameserver;
    fake_ip_range = pool;
    hosts = if cfg.use_hosts then some hosts else none;
    name_server_policy = policy;
    search_domains = cfg.search_domains;
  })
