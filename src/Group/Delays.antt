-- ===== src/Group/Delays.antt =====
-- The delay of the proxy that a URL-test group uses, against the other proxies' delays.
use clash_flt.Prelude.{ℕ, ◌≤◌}
use clash_flt.Adapter.{Ref, Heap, last_delay, max_delay}
use clash_flt.Group.UrlTest.{UrlTest}

module _ (h : Heap) (in_range : (r : Ref) → last_delay (h r) ≤ max_delay) where
  abbrev AtMost : ℕ → Ref → Type 0
  AtMost d r = d ≤ last_delay (h r)
