-- ===== src/Listener/Recreate.antt =====
-- Which inbounds have a listener after a change.
use clash_flt.Prelude.{◌≡◌, ap, Bool, ◌&&◌, ◌||◌, not, List, [], ◌∷◌, arith}
use clash_flt.Metadata.{is_some}
use clash_flt.Listener.{
  Inbound, bool_eq, Platform, Listeners, contains, find, port_is_zero, with_flag,
}
use clash_flt.Listener.Split.{inbound_eq_iff}

module _ {L : Type 0} where
  -- An inbound has a listener.
  unfoldable pub has : Inbound → Listeners L → Bool
  has i s = is_some (find i s.tcp_listeners) || is_some (find i s.udp_listeners)

module _ {L : Type 0} (w : Platform L) where
  -- The creation of an inbound registers it: its port is not zero, and the address can be bound.
  unfoldable pub registers : Inbound → Bool
  registers i =
      not (port_is_zero w i.bind_address) && is_some (w.new_tcp i.inbound_type i.bind_address)

  -- The order of a loop over a map has the same keys.
  abbrev pub IsOrder : Type 0
  IsOrder = (i : Inbound) (l : List Inbound) → contains i (w.order l) ≡ contains i l

  module _ (shuffles : IsOrder) where
    contains-with_flag :
        (b : Bool) (i : Inbound) (l : List Inbound)
        → contains i (with_flag w b l) ≡ (bool_eq b i.is_from_port_cfg && contains i l)
    unfolding contains with_flag
    contains-with_flag b i [] = ground arith
    contains-with_flag b i (j ∷ l) = ground (
      arith,
      contains-with_flag b i l,
      inbound_eq_iff j i,
      λ (e : j ≡ i). ap (λ k. bool_eq b k.is_from_port_cfg) e,
    )
