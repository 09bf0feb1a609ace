-- ===== src/Group.antt =====
-- adapter/outboundgroup/common.go: the proxies of a group's providers.
--
-- A provider is what the groups see of it: references to its proxies, and when it was last touched.
pub mod Selector
pub mod Fallback
pub mod UrlTest
pub mod LoadBalance
pub mod Selecting
pub mod Liveness
pub mod Delays
pub mod RoundRobin
use clash_flt.Prelude.{ℕ, Bool, true, false, Option, none, some, List, [], ◌∷◌, ◌++◌, if◌then◌else◌}
use clash_flt.Adapter.{Ref, Heap, Proxy}

pub record Provider : Type 0 where
  pub proxies : List Ref
  pub last_touch : ℕ

unfoldable pub touch : ℕ → Provider → Provider
touch now p = record p { last_touch = now }

unfoldable pub touch_providers : ℕ → List Provider → List Provider
touch_providers now [] = []
touch_providers now (p ∷ providers) = touch now p ∷ touch_providers now providers

-- The proxies of all the providers, in order, and the providers after the call.
unfoldable pub get_providers_proxies : ℕ → Bool → List Provider → List Ref × List Provider
get_providers_proxies now touched [] = ([], [])
get_providers_proxies now touched (p ∷ providers) =
    let rest = get_providers_proxies now touched providers in
    (p.proxies ++ rest.0, (if touched then touch now p else p) ∷ rest.1)

-- `proxies[0]`; `none` is a panic.
unfoldable pub first_proxy : List Ref → Option Ref
first_proxy [] = none
first_proxy (r ∷ _) = some r

unfoldable pub all_refs : List Provider → List Ref
all_refs [] = []
all_refs (p ∷ providers) = p.proxies ++ all_refs providers
