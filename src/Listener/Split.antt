-- ===== src/Listener/Split.antt =====
-- The inbounds that a change closes and creates.
use clash_flt.Prelude.{
  ◌≡◌, refl, ap, subst, inl, inr, ◌↔◌, true, false, ◌&&◌, ◌||◌, not, List, [], ◌∷◌, ◌++◌,
  Bool-cases, arith,
}
use clash_flt.Prelude.Text.{text_eq_iff, text_eq_refl}
use clash_flt.Listener.{
  InboundType, socks_type, redir_type, tproxy_type, http_type, mixed_type, type_eq, Inbound,
  inbound_eq, contains, remove, split_new,
}

type_eq_sound : (s t : InboundType) → type_eq s t ≡ true → s ≡ t
unfolding type_eq
type_eq_sound socks_type t h = ground arith
type_eq_sound redir_type t h = ground arith
type_eq_sound tproxy_type t h = ground arith
type_eq_sound http_type t h = ground arith
type_eq_sound mixed_type t h = ground arith

type_eq_refl : (s : InboundType) → type_eq s s ≡ true
unfolding type_eq
type_eq_refl socks_type = refl
type_eq_refl redir_type = refl
type_eq_refl tproxy_type = refl
type_eq_refl http_type = refl
type_eq_refl mixed_type = refl

pub inbound_eq_iff : (i j : Inbound) → (inbound_eq i j ≡ true) ↔ (i ≡ j)
unfolding inbound_eq
inbound_eq_iff i j = (
  λ h. ground (
    arith,
    type_eq_sound i.inbound_type j.inbound_type,
    text_eq_iff i.bind_address j.bind_address,
  ),
  λ e.
      subst (λ k. inbound_eq i k ≡ true) e
        (ground (arith, type_eq_refl i.inbound_type, text_eq_refl i.bind_address)),
)

pub contains-append :
    (i : Inbound) (xs ys : List Inbound) → contains i (xs ++ ys) ≡ (contains i xs || contains i ys)
unfolding contains
contains-append i [] ys = refl
contains-append i (x ∷ xs) ys = ground (arith, contains-append i xs ys)

pub contains-remove :
    (i j : Inbound) (l : List Inbound)
    → contains i (remove j l) ≡ (not (inbound_eq j i) && contains i l)
unfolding contains remove
contains-remove i j [] = ground arith
contains-remove i j (k ∷ l) =
    ground
      (arith, inbound_eq_iff k j, inbound_eq_iff k i, inbound_eq_iff j i, contains-remove i j l)

-- What is closed are the old inbounds that are not among the new ones.
pub contains-need_close :
    (i : Inbound) (old inbounds : List Inbound)
    → contains i (split_new old inbounds).0 ≡ (contains i old && not (contains i inbounds))
unfolding contains split_new
contains-need_close i old [] = ground arith
contains-need_close i old (j ∷ inbounds) = elim (Bool-cases (contains j old)) [
  | inl known ↦
      rw (known, split_new)
        (ground (arith, contains-need_close i (remove j old) inbounds, contains-remove i j old))
  | inr fresh ↦
      rw (fresh, split_new)
        (ground (
          arith,
          contains-need_close i old inbounds,
          inbound_eq_iff j i,
          λ (e : j ≡ i). ap (λ k. contains k old) e,
        ))
]

-- A new inbound that was not there is created.
pub contains-need_create :
    (i : Inbound) (old inbounds : List Inbound)
    → contains i old ≡ false
    → contains i (split_new old inbounds).1 ≡ contains i inbounds
unfolding contains split_new
contains-need_create i old [] h = refl
contains-need_create i old (j ∷ inbounds) h = elim (Bool-cases (contains j old)) [
  | inl known ↦
      rw (known, split_new)
        (ground (
          arith,
          contains-need_create i (remove j old) inbounds,
          contains-remove i j old,
          inbound_eq_iff j i,
          λ (e : j ≡ i). ap (λ k. contains k old) e,
        ))
  | inr fresh ↦ rw (fresh, split_new) (ground (arith, contains-need_create i old inbounds))
]

-- Nothing else is created.
pub need_create-new :
    (i : Inbound) (old inbounds : List Inbound)
    → contains i inbounds ≡ false
    → contains i (split_new old inbounds).1 ≡ false
unfolding contains split_new
need_create-new i old [] h = refl
need_create-new i old (j ∷ inbounds) h = elim (Bool-cases (contains j old)) [
  | inl known ↦ rw (known, split_new) (ground (arith, need_create-new i (remove j old) inbounds))
  | inr fresh ↦ rw (fresh, split_new) (ground (arith, need_create-new i old inbounds))
]
