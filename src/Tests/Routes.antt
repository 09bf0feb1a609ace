-- ===== src/Tests/Routes.antt =====
-- Examples for the tunnel.
use mathlib.Core.List.{reverse}
use clash_flt.Prelude.{
  ◌≡◌, ◌≢◌, refl, inl, inr, true, false, none, some, List, [], ◌∷◌, arith, Option-cases,
}
use clash_flt.Prelude.Text.{Text, codes, text_eq}
use clash_flt.Metadata.{Metadata, Ip, tcp, http, dns_normal, dns_fake_ip, pure, valid}
use clash_flt.Trie
use clash_flt.Trie.{
  Node, search_labels, with_data, starts_empty, valid_and_split_domain, new_node, get_child,
  find_child, descend, or_else, data_of, split_from, ends_with_dot, has_empty, check_parts,
}
use clash_flt.Rule.{
  Oracle, domain_rule, match_rule, should_resolve_ip, should_find_process, matches, adapter,
}
use clash_flt.Tunnel.{
  rule, World, State, Proxy, Enhancer, relayed, nil_proxy, lookup_proxy, fake_ip_enabled,
  mapping_enabled, is_fake_ip, search_hosts, match_start, match, handle_tcp, pre_handle_metadata,
  host_to_ip, need_lookup_ip, find_host_by_ip, map_ip, map_host, handle_resolved, resolve_metadata,
  match_loop, prepare, resolve_step, process_step, should_resolve, choose, usable, dial,
}
use clash_flt.Tunnel.Handle.{real_address, handle_tcp-real}
use clash_flt.Tunnel.Mode.{handle_tcp-proxy}

abbrev pub oracle : Oracle
oracle = record {
  country = λ ip. codes "CN";
  ipset_test = λ s ip. none;
  ipset_verify = λ s. false;
  parse_cidr = λ s. none;
  net_string = λ n. [];
  port_string = λ p. [];
}

-- 198.18.0.7 is the fake address of "example.com".
abbrev pub fake : Ip
fake = 198 ∷ 18 ∷ 0 ∷ 7 ∷ []

abbrev pub real : Ip
real = 1 ∷ 2 ∷ 3 ∷ 4 ∷ []

abbrev mapper : Enhancer
mapper = record {
  fake_ip_enabled = true;
  mapping_enabled = true;
  is_fake_ip = λ ip. text_eq ip fake;
  is_exist_fake_ip = λ ip. text_eq ip fake;
  find_host_by_ip =
      λ ip. elim (text_eq ip fake) [ true ↦ some (codes "example.com") | false ↦ none ];
}

abbrev pub world : World
world = record {
  oracle = oracle;
  mapper = some mapper;
  hosts = Trie.new;
  parse_ip = λ s. none;
  resolve_ip = λ s. some real;
  find_process_path = λ n src port dst. none;
  udp_fallback_match = true;
}

abbrev proxy : Text → Proxy
proxy name = record { name = name; support_udp = true }

abbrev pub state : State
state = record {
  rules = domain_rule (codes "example.com") (codes "A") ∷ match_rule (codes "DIRECT") ∷ [];
  proxies =
      (codes "DIRECT", proxy (codes "DIRECT"))
      ∷ (codes "GLOBAL", proxy (codes "GLOBAL"))
      ∷ (codes "A", proxy (codes "A"))
      ∷ [];
  mode = rule;
}

abbrev pub metadata : Metadata
metadata = record {
  net_work = tcp;
  conn_type = http;
  src_ip = none;
  dst_ip = some fake;
  src_port = 1000;
  dst_port = 443;
  host = [];
  dns_mode = dns_normal;
  process_path = [];
  special_proxy = [];
  origin_dst = none;
}

direct_known : lookup_proxy (codes "DIRECT") state.proxies ≡ some (proxy (codes "DIRECT"))
unfolding lookup_proxy text_eq
direct_known = refl

handle_tcp-proxy_example : handle_tcp world (λ p m. true) state metadata ≢ nil_proxy
unfolding lookup_proxy text_eq
handle_tcp-proxy_example = handle_tcp-proxy world state (λ p m. true) metadata refl refl

empty_below : (labels : List Text) → with_data (search_labels labels (Trie.new {V = Ip})) ≡ none
unfolding with_data search_labels Trie.new new_node data_of get_child find_child descend or_else
empty_below [] = refl
empty_below (s ∷ labels) = refl

pub empty_hosts : (host : Text) → real_address world (search_hosts world host) ≡ true
unfolding search_hosts Trie.search real_address
empty_hosts host = elim (Option-cases (valid_and_split_domain host)) [
  | inl invalid ↦ ground arith
  | inr (parts, split) ↦ ground (arith, empty_below (reverse parts))
]

abbrev dialed : Metadata
dialed = record metadata { host = codes "example.com"; dst_ip = none; dns_mode = dns_fake_ip }

dialed_example :
    handle_tcp world (λ p m. true) state metadata
    ≡ relayed (proxy (codes "A")) (some (domain_rule (codes "example.com") (codes "A"))) dialed
unfolding handle_tcp handle_resolved resolve_metadata match match_start match_loop prepare
    resolve_step process_step should_resolve choose usable dial valid pre_handle_metadata host_to_ip
    need_lookup_ip mapping_enabled find_host_by_ip map_ip map_host fake_ip_enabled search_hosts
    lookup_proxy matches adapter should_resolve_ip should_find_process pure text_eq Trie.search
    Trie.new new_node valid_and_split_domain split_from ends_with_dot check_parts has_empty
    starts_empty search_labels with_data get_child find_child descend or_else data_of
dialed_example = refl

pub on : fake_ip_enabled world ≢ false
unfolding fake_ip_enabled
on off = ground arith

handle_tcp-real_example : real_address world dialed.dst_ip ≡ true
unfolding real_address mapping_enabled is_fake_ip text_eq
handle_tcp-real_example =
    handle_tcp-real world empty_hosts (λ host. refl) (λ p m. true) state metadata
      (proxy (codes "A")) (some (domain_rule (codes "example.com") (codes "A"))) dialed
      (λ off. absurd (on off)) refl refl dialed_example
