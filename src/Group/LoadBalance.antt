-- ===== src/Group/LoadBalance.antt =====
-- adapter/outboundgroup/loadbalance.go: the group that spreads its connections.
--
-- The hash of a key and `jumpHash`, which computes in floating point, are arguments.
use clash_flt.Prelude.{
  ℕ, zero, suc, ◌+◌, ◌%◌, ◌^◌, Bool, true, false, Option, none, some, List, [], if◌then◌else◌,
  length, get_elem?,
}
use clash_flt.Prelude.Text.{Text, codes, text_eq}
use clash_flt.Metadata.{Metadata, Ip, is_empty}
use clash_flt.Adapter.{Ref, Heap}
use clash_flt.Single.{Single, do_single, new_single}
use clash_flt.Group.{Provider, get_providers_proxies, first_proxy}
use clash_flt.Group.Fallback.{alive_or_first}

-- What the hashing asks of code outside the repository.
pub record Hashing : Type 0 where
  pub is_ip : Text → Bool
  pub ip_string : Ip → Text
  pub effective_tld_plus_one : Text → Option Text
  pub sum32 : Text → ℕ
  pub jump_hash : ℕ → ℕ → ℕ

pub data Strategy : Type 0 where
  consistent_hashing : Strategy
  round_robin : ℕ → Strategy

pub record LoadBalance : Type 0 where
  pub disable_udp : Bool
  pub single : Single (List Ref)
  pub providers : List Provider
  pub strategy : Strategy

unfoldable pub ip_key : Hashing → Option Ip → Text
ip_key g none = []
ip_key g (some ip) = g.ip_string ip

unfoldable pub get_key : Hashing → Metadata → Text
get_key g m =
    if is_empty m.host
    then ip_key g m.dst_ip
    else if g.is_ip m.host
    then m.host
    else elim (g.effective_tld_plus_one m.host) [ some etld ↦ etld | none ↦ ip_key g m.dst_ip ]

-- The loop of the round-robin strategy: the tries left, and the index.
unfoldable pub round_robin_loop : Heap → List Ref → ℕ → ℕ → Option Ref × ℕ
round_robin_loop h refs zero idx = (first_proxy refs, idx)
round_robin_loop h refs (suc tries) idx =
    let idx' = (idx + 1) % length refs in
    let rest = round_robin_loop h refs tries idx' in
    elim (get_elem? refs idx') [
      | none ↦ (none, idx')
      | some r ↦ if (h r).alive then (some r, idx') else rest
    ]

unfoldable pub strategy_round_robin : Heap → List Ref → ℕ → Option Ref × ℕ
strategy_round_robin h refs idx = round_robin_loop h refs (length refs) idx

-- The retries of the hashing strategy; after them the list is searched from its start.
unfoldable pub hashing_loop : Hashing → Heap → List Ref → ℕ → ℕ → Option Ref
hashing_loop g h refs zero key = alive_or_first h refs
hashing_loop g h refs (suc tries) key =
    let rest = hashing_loop g h refs tries ((key + 1) % 2 ^ 64) in
    elim (get_elem? refs (g.jump_hash key (length refs))) [
      | none ↦ none
      | some r ↦ if (h r).alive then some r else rest
    ]

abbrev pub max_retry : ℕ
max_retry = 5

unfoldable pub strategy_consistent_hashing : Hashing → Heap → List Ref → Metadata → Option Ref
strategy_consistent_hashing g h refs m = hashing_loop g h refs max_retry (g.sum32 (get_key g m))

unfoldable pub strategy_fn : Hashing → Heap → Strategy → List Ref → Metadata → Option Ref × Strategy
strategy_fn g h consistent_hashing refs m =
    (strategy_consistent_hashing g h refs m, consistent_hashing)
strategy_fn g h (round_robin idx) refs m =
    let r = strategy_round_robin h refs idx in (r.0, round_robin r.1)

unfoldable pub proxies : ℕ → Bool → LoadBalance → Option (List Ref × LoadBalance)
proxies now touched lb =
    elim (do_single now (some (get_providers_proxies now touched lb.providers)) lb.providers
      lb.single) [
        | none ↦ none
        | some r ↦ some (r.0.0, record lb { providers = r.1.0; single = r.1.1 })
      ]

unfoldable pub unwrap : Hashing → Heap → ℕ → Metadata → LoadBalance → Option (Ref × LoadBalance)
unwrap g h now m lb = elim (proxies now true lb) [
  | none ↦ none
  | some r ↦
      let chosen = strategy_fn g h r.1.strategy r.0 m in
      elim chosen.0 [ none ↦ none | some p ↦ some (p, record r.1 { strategy = chosen.1 }) ]
]

unfoldable pub support_udp : LoadBalance → Bool
support_udp lb = if lb.disable_udp then false else true

-- `parseStrategy`, over the string in the configuration if there is one.
unfoldable pub parse_strategy : Option Text → Text
parse_strategy (some strategy) = strategy
parse_strategy none = codes "consistent-hashing"

-- `none` is the error "unsupported strategy".
unfoldable pub new_strategy : Text → Option Strategy
new_strategy strategy =
    if text_eq strategy (codes "consistent-hashing")
    then some consistent_hashing
    else if text_eq strategy (codes "round-robin")
    then some (round_robin 0)
    else none

unfoldable pub new_load_balance : ℕ → Bool → List Provider → Text → Option LoadBalance
new_load_balance wait disable_udp providers strategy = elim (new_strategy strategy) [
  | none ↦ none
  | some s ↦ some (record {
    disable_udp = disable_udp;
    single = new_single wait;
    providers = providers;
    strategy = s;
  })
]
