-- ===== src/Group/Selector.antt =====
-- adapter/outboundgroup/selector.go: the group whose proxy a user selects.
use clash_flt.Prelude.{ℕ, Bool, true, false, Option, none, some, List, [], ◌∷◌, if◌then◌else◌}
use clash_flt.Prelude.Text.{Text, text_eq}
use clash_flt.Adapter.{Ref, Heap}
use clash_flt.Single.{Single, do_single, reset, new_single}
use clash_flt.Group.{Provider, get_providers_proxies, first_proxy}

pub record Selector : Type 0 where
  pub disable_udp : Bool
  pub single : Single Ref
  pub selected : Text
  pub providers : List Provider

-- The loops over the proxies that look for a name.
unfoldable pub find_name : Heap → Text → List Ref → Option Ref
find_name h name [] = none
find_name h name (r ∷ refs) = if text_eq (h r).name name then some r else find_name h name refs

unfoldable pub or_first : Option Ref → List Ref → Option Ref
or_first (some r) refs = some r
or_first none refs = first_proxy refs

-- The function that `selectedProxy` hands to `single.Do`.
unfoldable pub select_from : Heap → ℕ → Bool → Selector → Option (Ref × List Provider)
select_from h now touched s =
    let found = get_providers_proxies now touched s.providers in
    elim (or_first (find_name h s.selected found.0) found.0) [
      | none ↦ none
      | some r ↦ some (r, found.1)
    ]

unfoldable pub selected_proxy : Heap → ℕ → Bool → Selector → Option (Ref × Selector)
selected_proxy h now touched s =
    elim (do_single now (select_from h now touched s) s.providers s.single) [
      | none ↦ none
      | some r ↦ some (r.0.0, record s { providers = r.1.0; single = r.1.1 })
    ]

-- `Set`: whether there is such a proxy, and the selector after the call.
unfoldable pub set : Heap → ℕ → Text → Selector → Bool × Selector
set h now name s = elim (find_name h name (get_providers_proxies now false s.providers).0) [
  | none ↦ (false, s)
  | some r ↦ (true, record s { selected = name; single = reset s.single })
]

unfoldable pub now_name : Heap → ℕ → Selector → Option (Text × Selector)
now_name h now s = elim (selected_proxy h now false s) [
  | none ↦ none
  | some r ↦ some ((h r.0).name, r.1)
]

unfoldable pub support_udp : Heap → ℕ → Selector → Option (Bool × Selector)
support_udp h now s =
    if s.disable_udp then some (false, s) else elim (selected_proxy h now false s) [
      | none ↦ none
      | some r ↦ some ((h r.0).support_udp, r.1)
    ]

-- `Unwrap`, and the proxy that `DialContext` and `ListenPacketContext` use.
unfoldable pub unwrap : Heap → ℕ → Selector → Option (Ref × Selector)
unwrap h now s = selected_proxy h now true s

unfoldable pub new_selector : Heap → ℕ → Bool → List Provider → Option Selector
new_selector h wait disable_udp [] = none
new_selector h wait disable_udp (p ∷ providers) = elim (first_proxy p.proxies) [
  | none ↦ none
  | some r ↦ some (record {
    disable_udp = disable_udp;
    single = new_single wait;
    selected = (h r).name;
    providers = p ∷ providers;
  })
]
