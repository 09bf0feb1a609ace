-- ===== src/Tests/Configs.antt =====
-- Examples for the parsers of the configuration.
use mathlib.Core.List.{Mem, mem-cons_self, mem-cons_of_mem, eq-or-mem_of_mem-cons, not-mem-nil}
use mathlib.Core.Logic.Or
use native.Mathlib.Nat.{ℕ_set}
use clash_flt.Prelude.{
  ℕ, ◌≡◌, ◌≢◌, ◌≤◌, ◌+◌, ◌&&◌, refl, subst, inl, inr, true, false, none, some, List, [], ◌∷◌, All,
  arith, length, Bool-cases,
}
use clash_flt.Prelude.Text.{Text, codes, text_eq, text_eq_iff, to_lower}
use clash_flt.Picker.{ok, err}
use clash_flt.Metadata.{is_some, dns_fake_ip}
use clash_flt.Trie
use clash_flt.Rule.{adapter, domain_rule, match_rule}
use clash_flt.Tunnel.{lookup_proxy}
use clash_flt.FakeIp
use clash_flt.FakeIp.{Ipv4, ip_to_uint, u32, Pool, MemoryStore}
use clash_flt.FakeIp.Assign.{IsValid}
use clash_flt.Config.Sorted.{uses}
use clash_flt.Dns.Resolver.{NameServer, is_empty_list}
use clash_flt.Rule.Parse.{parse_rule, new_domain, new_match}
use clash_flt.Config.Graph.{count}
use clash_flt.Config.Dag.{
  build, place, find, link_all, link, assign, referenced, topological, first_queue, select,
  new_group, release, erase, done, proxy_groups_dag_sort,
}
use clash_flt.Config.Checked.{unknown_proxy}
use clash_flt.Config.Rules.{
  parse_rules, parse_line, line_of, rule_of, as_checked, split, trim_arr, trim_spaces, drop_spaces,
}
use clash_flt.Config.Servers.{
  Library, parse_name_server, parse_server, name_server, host_with_default_port,
  parse_name_server_policy, server_of, parse_fallback_ip_cidr,
}
use clash_flt.Config.Settings.{
  RawDns, Dns, parse_dns, ensure, check_default_nameserver, fake_pool, pool_of, first_four,
  mask_ones, leading_ones, check_search_domains, ptr_or, nets_or_none, skip_host,
}
use clash_flt.Config.Groups.{RawGroup, dag_option, Group, parse_groups, lookup}
use clash_flt.Config.Known.{parse_rules-known}
use clash_flt.Config.Loading.{Resolvable, parse_groups-proxy_groups_dag_sort}
use clash_flt.Config.Sound.{HasIp, Ipv4Net, parse_dns-IsValid}
use clash_flt.Tests.Routes.{oracle, state}
use clash_flt.Tests.Pools.{Key-discrete}

abbrev lines : List Text
lines = codes "DOMAIN, Example.com ,A" ∷ codes "MATCH,DIRECT" ∷ []

lines_parsed :
    parse_rules oracle state.proxies lines
    ≡ ok (domain_rule (codes "example.com") (codes "A") ∷ match_rule (codes "DIRECT") ∷ [])
unfolding parse_rules parse_line line_of trim_arr split rule_of lookup_proxy text_eq trim_spaces
    drop_spaces as_checked parse_rule new_domain new_match to_lower
lines_parsed = refl

parse_rules-known_example :
    (2 ≡ length lines)
    × All
        (λ r. is_some (lookup_proxy (adapter r) state.proxies) ≡ true)
        (domain_rule (codes "example.com") (codes "A") ∷ match_rule (codes "DIRECT") ∷ [])
parse_rules-known_example =
    parse_rules-known oracle state.proxies lines
      (domain_rule (codes "example.com") (codes "A") ∷ match_rule (codes "DIRECT") ∷ [])
      lines_parsed

-- The group "a" uses the group "b", which stands behind it.
abbrev group : Text → Text → RawGroup
group name proxy = record {
  name = some name;
  strategy = none;
  option = some (record {
    name = name;
    tp = codes "select";
    proxies = proxy ∷ [];
    use_providers = [];
    url = [];
    interval = 0;
    filter = [];
  });
}

abbrev groups : List RawGroup
groups = group (codes "a") (codes "b") ∷ group (codes "b") (codes "DIRECT") ∷ []

abbrev sorted : List RawGroup
sorted = group (codes "b") (codes "DIRECT") ∷ group (codes "a") (codes "b") ∷ []

abbrev proxies : List (Text × ℕ)
proxies = (codes "DIRECT", 0) ∷ []

sort_two : proxy_groups_dag_sort (λ i names. names) dag_option groups ≡ done sorted
unfolding proxy_groups_dag_sort build dag_option place find link_all link assign text_eq referenced
    topological first_queue select new_group release erase
sort_two = refl

-- The names that one of the groups uses.
used_names :
    (g : RawGroup) (n : Text)
    → Mem g groups
    → text_eq (codes "DIRECT") n ≡ false
    → text_eq (codes "b") n ≡ false
    → count n (uses dag_option g) ≡ 0
unfolding count dag_option
used_names g n there other differ =
    Or.elim (ℕ_set _ _) (eq-or-mem_of_mem-cons there) (λ e. rw e (rw differ refl))
      λ later.
        Or.elim (ℕ_set _ _) (eq-or-mem_of_mem-cons later) (λ e. rw e (rw other refl))
          λ none_left. absurd (not-mem-nil none_left)

groups-Resolvable : Resolvable (λ f. true) groups proxies
unfolding lookup dag_option
groups-Resolvable g there n used = elim (Bool-cases (text_eq (codes "DIRECT") n)) [
  | inl known ↦ inl (ground arith)
  | inr other ↦ elim (Bool-cases (text_eq (codes "b") n)) [
    | inl named ↦ inr (
        subst (λ k. Mem k (codes "a" ∷ codes "b" ∷ [])) ((text_eq_iff (codes "b") n).0 named)
          (mem-cons_of_mem (codes "a") mem-cons_self))
    | inr differ ↦ absurd (omega (arith, used_names g n there other differ))
  ]
]

parse_groups-proxy_groups_dag_sort_example :
    parse_groups (λ f. true) (λ (g : Group ℕ). 1) sorted proxies []
    ≢ err (unknown_proxy (codes "b"))
parse_groups-proxy_groups_dag_sort_example =
    parse_groups-proxy_groups_dag_sort (λ f. true) (λ i names. names) (λ i names m. refl)
      (λ (g : Group ℕ). 1) groups sorted proxies [] groups-Resolvable sort_two (codes "b")

abbrev library : Library
library = record {
  parse_ip = λ s. some (8 ∷ 8 ∷ 8 ∷ 8 ∷ []);
  parse_cidr = λ s. some (record { ip = 198 ∷ 18 ∷ 0 ∷ 0 ∷ []; mask = 255 ∷ 255 ∷ 0 ∷ 0 ∷ [] });
  split_host_port = λ s. some (codes "8.8.8.8", codes "53");
  join_host_port = λ host port. host;
  parse_url = λ s. some (record {
    scheme = codes "udp";
    host = codes "8.8.8.8";
    path = [];
    user = [];
    fragment = [];
  });
  https_url = λ host path user. host;
}

abbrev raw_dns : RawDns
raw_dns = record {
  enable = true;
  ipv6 = none;
  use_hosts = false;
  name_server = codes "8.8.8.8" ∷ [];
  fallback = [];
  fallback_filter = record { geo_ip = true; geo_ip_code = codes "CN"; ip_cidr = []; domain = [] };
  listen = [];
  enhanced_mode = dns_fake_ip;
  fake_ip_range = codes "198.18.0.1/16";
  fake_ip_filter = [];
  default_nameserver = codes "8.8.8.8" ∷ [];
  name_server_policy = [];
  search_domains = [];
}

abbrev server : NameServer
server = record { net = []; addr = codes "8.8.8.8"; interface = [] }

abbrev settings : Dns
settings = record {
  enable = true;
  ipv6 = false;
  name_server = server ∷ [];
  fallback = [];
  fallback_filter = record { geo_ip = true; geo_ip_code = codes "CN"; ip_cidr = []; domain = [] };
  listen = [];
  enhanced_mode = dns_fake_ip;
  default_nameserver = server ∷ [];
  fake_ip_range = FakeIp.new (record { a = 198; b = 18; c = 0; d = 0 }) 16 32 none 1000;
  hosts = none;
  name_server_policy = [];
  search_domains = [];
}

dns_parsed : parse_dns library raw_dns false Trie.new ≡ ok settings
unfolding parse_dns ensure is_empty_list parse_name_server parse_server name_server text_eq
    host_with_default_port parse_name_server_policy check_default_nameserver fake_pool pool_of
    first_four mask_ones leading_ones FakeIp.new check_search_domains ptr_or server_of nets_or_none
    skip_host parse_fallback_ip_cidr
dns_parsed = refl

net-Ipv4Net : Ipv4Net library (record { ip = 198 ∷ 18 ∷ 0 ∷ 0 ∷ []; mask = 255 ∷ 255 ∷ 0 ∷ 0 ∷ [] })
unfolding first_four mask_ones leading_ones ip_to_uint
net-Ipv4Net = (
  refl,
  λ ip e.
      let base : Ipv4 = record { a = 198; b = 18; c = 0; d = 0 } in
      let same : base ≡ ip = ground arith in
      subst (λ i. ip_to_uint i + 65536 ≤ u32) same (omega arith),
)

parse_dns-IsValid_example :
    ((p : Pool MemoryStore) × (settings.fake_ip_range ≡ some p) × IsValid Key-discrete 1000 p [])
    × All (HasIp library) settings.default_nameserver
    × (settings.enable && is_empty_list settings.name_server ≡ false)
parse_dns-IsValid_example =
    parse_dns-IsValid library Key-discrete raw_dns false Trie.new
      (record { ip = 198 ∷ 18 ∷ 0 ∷ 0 ∷ []; mask = 255 ∷ 255 ∷ 0 ∷ 0 ∷ [] }) settings refl refl
      net-Ipv4Net dns_parsed
