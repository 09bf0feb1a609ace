-- ===== src/Group/Fallback.antt =====
-- adapter/outboundgroup/fallback.go: the group that uses the first proxy that is alive.
use clash_flt.Prelude.{ℕ, Bool, true, false, Option, none, some, List, [], ◌∷◌, if◌then◌else◌}
use clash_flt.Prelude.Text.{Text}
use clash_flt.Adapter.{Ref, Heap}
use clash_flt.Single.{Single, do_single, new_single}
use clash_flt.Group.{Provider, get_providers_proxies, first_proxy}

pub record Fallback : Type 0 where
  pub disable_udp : Bool
  pub single : Single (List Ref)
  pub providers : List Provider

unfoldable pub proxies : ℕ → Bool → Fallback → Option (List Ref × Fallback)
proxies now touched f =
    elim (do_single now (some (get_providers_proxies now touched f.providers)) f.providers
      f.single) [
        | none ↦ none
        | some r ↦ some (r.0.0, record f { providers = r.1.0; single = r.1.1 })
      ]

unfoldable pub first_alive : Heap → List Ref → Option Ref
first_alive h [] = none
first_alive h (r ∷ refs) = if (h r).alive then some r else first_alive h refs

unfoldable pub alive_or_first : Heap → List Ref → Option Ref
alive_or_first h refs = elim (first_alive h refs) [ some r ↦ some r | none ↦ first_proxy refs ]

unfoldable pub find_alive_proxy : Heap → ℕ → Bool → Fallback → Option (Ref × Fallback)
find_alive_proxy h now touched f = elim (proxies now touched f) [
  | none ↦ none
  | some r ↦ elim (alive_or_first h r.0) [ none ↦ none | some p ↦ some (p, r.1) ]
]

unfoldable pub now_name : Heap → ℕ → Fallback → Option (Text × Fallback)
now_name h now f = elim (find_alive_proxy h now false f) [
  | none ↦ none
  | some r ↦ some ((h r.0).name, r.1)
]

unfoldable pub support_udp : Heap → ℕ → Fallback → Option (Bool × Fallback)
support_udp h now f =
    if f.disable_udp then some (false, f) else elim (find_alive_proxy h now false f) [
      | none ↦ none
      | some r ↦ some ((h r.0).support_udp, r.1)
    ]

unfoldable pub unwrap : Heap → ℕ → Fallback → Option (Ref × Fallback)
unwrap h now f = find_alive_proxy h now true f

unfoldable pub new_fallback : ℕ → Bool → List Provider → Fallback
new_fallback wait disable_udp providers = record {
  disable_udp = disable_udp;
  single = new_single wait;
  providers = providers;
}
