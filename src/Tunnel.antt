-- ===== src/Tunnel.antt =====
-- tunnel/tunnel.go and tunnel/mode.go: from a connection's metadata to the proxy that carries it.
--
-- `State` holds the package's variables that the routing reads. What the routing asks of the
-- network, the system and the DNS component is in `World`; the metadata that the source changes in
-- place is returned.
pub mod Match
pub mod Dns
pub mod Handle
pub mod Mode
pub mod Udp
pub mod Replies
pub mod Nat
use clash_flt.Prelude.{
  ℕ, zero, suc, ◌+◌, ◌≡◌, Bool, true, false, ◌&&◌, ◌||◌, not, Option, none, some, List, [], ◌∷◌,
  ◌++◌, if◌then◌else◌,
}
use clash_flt.Prelude.Text.{Text, codes, text_eq, to_lower}
use clash_flt.Metadata.{
  Metadata, Ip, NetWork, tcp, udp, DnsMode, dns_normal, dns_fake_ip, dns_mapping, is_some, is_udp,
  is_empty, valid, pure,
}
use clash_flt.Trie
use clash_flt.Trie.{Node, data_of}
use clash_flt.Rule.{
  Oracle, Rule, normal_ip, adapter, should_resolve_ip, should_find_process, matches,
}

pub data TunnelMode : Type 0 where
  global rule direct : TunnelMode

unfoldable pub mode_string : TunnelMode → Text
mode_string global = codes "global"
mode_string rule = codes "rule"
mode_string direct = codes "direct"

-- `ModeMapping` and `UnmarshalJSON`, `UnmarshalYAML`: `none` is the error "invalid mode".
unfoldable pub mode_mapping : Text → Option TunnelMode
mode_mapping tp =
    if text_eq tp (mode_string global)
    then some global
    else if text_eq tp (mode_string rule)
    then some rule
    else if text_eq tp (mode_string direct)
    then some direct
    else none

unfoldable pub unmarshal_mode : Text → Option TunnelMode
unmarshal_mode tp = mode_mapping (to_lower tp)

-- A proxy as the routing sees it.
pub record Proxy : Type 0 where
  pub name : Text
  pub support_udp : Bool

-- component/resolver/enhancer.go: the host mapper, if there is one.
pub record Enhancer : Type 0 where
  pub fake_ip_enabled : Bool
  pub mapping_enabled : Bool
  pub is_fake_ip : Ip → Bool
  pub is_exist_fake_ip : Ip → Bool
  pub find_host_by_ip : Ip → Option Text

pub record World : Type 0 where
  pub oracle : Oracle
  pub mapper : Option Enhancer
  pub hosts : Node Ip
  pub parse_ip : Text → Option Ip
  pub resolve_ip : Text → Option Ip
  pub find_process_path : NetWork → Ip → ℕ → Ip × ℕ → Option Text
  pub udp_fallback_match : Bool

pub record State : Type 0 where
  pub rules : List Rule
  pub proxies : List (Text × Proxy)
  pub mode : TunnelMode

unfoldable pub update_rules : List Rule → State → State
update_rules new_rules s = record s { rules = new_rules }

unfoldable pub update_proxies : List (Text × Proxy) → State → State
update_proxies new_proxies s = record s { proxies = new_proxies }

unfoldable pub set_mode : TunnelMode → State → State
set_mode m s = record s { mode = m }

unfoldable pub lookup_proxy : Text → List (Text × Proxy) → Option Proxy
lookup_proxy k [] = none
lookup_proxy k ((j, p) ∷ m) = if text_eq j k then some p else lookup_proxy k m

unfoldable pub fake_ip_enabled : World → Bool
fake_ip_enabled w = elim w.mapper [ none ↦ false | some e ↦ e.fake_ip_enabled ]

unfoldable pub mapping_enabled : World → Bool
mapping_enabled w = elim w.mapper [ none ↦ false | some e ↦ e.mapping_enabled ]

unfoldable pub is_fake_ip : World → Ip → Bool
is_fake_ip w ip = elim w.mapper [ none ↦ false | some e ↦ e.is_fake_ip ip ]

unfoldable pub find_host_by_ip : World → Ip → Option Text
find_host_by_ip w ip = elim w.mapper [ none ↦ none | some e ↦ e.find_host_by_ip ip ]

-- `DefaultHosts.Search(host)`, and the address that a found node holds.
unfoldable pub search_hosts : World → Text → Option Ip
search_hosts w host = elim (Trie.search host w.hosts) [ none ↦ none | some n ↦ data_of n ]

unfoldable pub need_lookup_ip : World → Metadata → Bool
need_lookup_ip w m = mapping_enabled w && is_empty m.host && is_some m.dst_ip

-- An IP address given as the host becomes the destination.
unfoldable pub host_to_ip : World → Metadata → Metadata
host_to_ip w m = elim (w.parse_ip m.host) [
  | none ↦ m
  | some ip ↦ record m { dst_ip = some ip; host = [] }
]

-- The branch of `preHandleMetadata` for an address whose host is known.
unfoldable pub map_host : World → Text → Metadata → Metadata
map_host w host m =
    if fake_ip_enabled w
    then record m { host = host; dst_ip = none; dns_mode = dns_fake_ip }
    else elim (search_hosts w host) [
      | none ↦ record m { host = host; dns_mode = dns_mapping }
      | some ip ↦ record m { host = host; dns_mode = dns_mapping; dst_ip = some ip }
    ]

-- `none` is the error "fake DNS record missing".
unfoldable pub map_ip : World → Ip → Metadata → Option Metadata
map_ip w ip m = elim (find_host_by_ip w ip) [
  | some host ↦ some (map_host w host m)
  | none ↦ if is_fake_ip w ip then none else some m
]

unfoldable pub pre_handle_metadata : World → Metadata → Option Metadata
pre_handle_metadata w m =
    let m' = host_to_ip w m in
    if need_lookup_ip w m'
    then elim m'.dst_ip [ none ↦ some m' | some ip ↦ map_ip w ip m' ]
    else some m'

unfoldable pub should_resolve : Rule → Metadata → Bool
should_resolve r m = should_resolve_ip r && not (is_empty m.host) && not (is_some m.dst_ip)

-- The metadata and the flags `resolved` and `processFound` of the loop of `match`.
pub record Progress : Type 0 where
  pub metadata : Metadata
  pub resolved : Bool
  pub process_found : Bool

unfoldable pub with_ip : Metadata → Option Ip → Metadata
with_ip m none = m
with_ip m (some ip) = record m { dst_ip = some ip }

unfoldable pub resolve_step : World → Rule → Progress → Progress
resolve_step w r s =
    if not s.resolved && should_resolve r s.metadata
    then record s { metadata = with_ip s.metadata (w.resolve_ip s.metadata.host); resolved = true }
    else s

-- `FindProcessPath`, which is asked only with a source address and an original destination.
unfoldable pub process_path_of : World → Metadata → Option Text
process_path_of w m = elim m.src_ip [
  | none ↦ none
  | some src ↦ elim m.origin_dst [
    | none ↦ none
    | some dst ↦ w.find_process_path m.net_work (normal_ip src) m.src_port dst
  ]
]

unfoldable pub with_process : Metadata → Option Text → Metadata
with_process m none = m
with_process m (some path) = record m { process_path = path }

unfoldable pub process_step : World → Rule → Progress → Progress
process_step w r s =
    if not s.process_found && should_find_process r
    then record s {
      metadata = with_process s.metadata (process_path_of w s.metadata);
      process_found = true;
    }
    else s

unfoldable pub prepare : World → Rule → Progress → Progress
prepare w r s = process_step w r (resolve_step w r s)

-- The adapter of a rule that matches, unless the loop goes on to the next rule.
unfoldable pub usable : World → Metadata → Option Proxy → Option Proxy
usable w m none = none
usable w m (some p) =
    if is_udp m.net_work && not p.support_udp && w.udp_fallback_match then none else some p

unfoldable pub choose : World → State → Rule → Metadata → Option Proxy
choose w st r m =
    if matches w.oracle r m then usable w m (lookup_proxy (adapter r) st.proxies) else none

-- The proxy and the rule that `match` returns; no rule goes with the fallback "DIRECT".
pub record Route : Type 0 where
  pub metadata : Metadata
  pub proxy : Option Proxy
  pub rule : Option Rule

unfoldable pub match_loop : World → State → List Rule → Progress → Route
match_loop w st [] s = record {
  metadata = s.metadata;
  proxy = lookup_proxy (codes "DIRECT") st.proxies;
  rule = none;
}
match_loop w st (r ∷ rules) s =
    let s' = prepare w r s in
    let rest = match_loop w st rules s' in
    elim (choose w st r s'.metadata) [
      | some p ↦ record { metadata = s'.metadata; proxy = some p; rule = some r }
      | none ↦ rest
    ]

unfoldable pub match_start : World → Metadata → Progress
match_start w m = elim (search_hosts w m.host) [
  | none ↦ record { metadata = m; resolved = false; process_found = false }
  | some ip ↦ record {
    metadata = record m { dst_ip = some ip };
    resolved = true;
    process_found = false;
  }
]

unfoldable pub match : World → State → Metadata → Route
match w st m = match_loop w st st.rules (match_start w m)

-- `none` is the error "proxy not found".
unfoldable pub resolve_metadata : World → State → Metadata → Option Route
resolve_metadata w st m =
    let matched = match w st m in
    if is_empty m.special_proxy
    then elim st.mode [
      | direct ↦
          some
            (record { metadata = m; proxy = lookup_proxy (codes "DIRECT") st.proxies; rule = none })
      | global ↦
          some
            (record { metadata = m; proxy = lookup_proxy (codes "GLOBAL") st.proxies; rule = none })
      | rule ↦ some matched
    ]
    else elim (lookup_proxy m.special_proxy st.proxies) [
      | none ↦ none
      | some p ↦ some (record { metadata = m; proxy = some p; rule = none })
    ]

-- How `handleTCPConn` ends. A nil proxy is a panic in the source.
pub data Outcome : Type 0 where
  invalid pre_handle_error resolve_error nil_proxy : Outcome
  dial_error relayed : Proxy → Option Rule → Metadata → Outcome

unfoldable pub dial : (Proxy → Metadata → Bool) → Route → Outcome
dial connects route = elim route.proxy [
  | none ↦ nil_proxy
  | some p ↦
      if connects p (pure route.metadata)
      then relayed p route.rule (pure route.metadata)
      else dial_error p route.rule (pure route.metadata)
]

unfoldable pub handle_resolved : World → (Proxy → Metadata → Bool) → State → Metadata → Outcome
handle_resolved w connects st m = elim (resolve_metadata w st m) [
  | none ↦ resolve_error
  | some route ↦ dial connects route
]

unfoldable pub handle_tcp : World → (Proxy → Metadata → Bool) → State → Metadata → Outcome
handle_tcp w connects st m = if not (valid m) then invalid else elim (pre_handle_metadata w m) [
  | none ↦ pre_handle_error
  | some m' ↦ handle_resolved w connects st m'
]
