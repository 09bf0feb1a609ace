-- ===== src/FakeIp/Trimming.antt =====
-- Pairs of entries under the size limit of the memory store: what one insertion of a pair drops.
use mathlib.Core.List.{tail}
use clash_flt.Prelude.{
  ℕ, zero, suc, ◌+◌, ◌*◌, ◌≤◌, ◌<◌, ◌≡◌, refl, ap, ◌∙◌, ◌⊎◌, inl, inr, true, false, some, List, [],
  ◌∷◌, ◌++◌, append_assoc, arith, length, length-append, Bool-cases,
}
use clash_flt.Lru.{is_over}
use clash_flt.Lru.Spec.{lookup, trim}
use clash_flt.FakeIp.{Key}
use clash_flt.FakeIp.Pairs.{Item, Paired, Paired-even, remove_pair}

-- Room for two entries: no limit, or an even limit of `size * 2` that is not exceeded.
abbrev pub Bounded : ℕ → List Item → Type 0
Bounded size l = (size ≡ 0) ⊎ (length l ≤ size * 2)

trim_fits : (s : ℕ) (l : List Item) → is_over s (length l) ≡ false → trim s l ≡ l
unfolding trim
trim_fits s l h = rw h

trim_over : (s : ℕ) (l : List Item) → is_over s (length l) ≡ true → trim s l ≡ tail l
unfolding trim
trim_over s l h = rw h

fits : (s n : ℕ) → (s ≡ 0) ⊎ (n ≤ s) → is_over s n ≡ false
unfolding is_over
fits s n h = ground arith

over : (s n : ℕ) → 0 < s → s < n → is_over s n ≡ true
unfolding is_over
over s n p h = ground arith

length-two : (l : List Item) (e f : Item) → length (l ++ e ∷ f ∷ []) ≡ length l + 2
length-two l e f = omega (arith, length-append l (e ∷ f ∷ []))

trim_full :
    (size : ℕ) (l : List Item) (e f : Item)
    → Paired l
    → Bounded size l
    → is_over (size * 2) (length l + 1) ≡ true
    → (l' : List Item) × ((l' ≡ l) ⊎ (l' ≡ tail (tail l)))
      × (trim (size * 2) (trim (size * 2) (l ++ e ∷ []) ++ f ∷ []) ≡ l' ++ e ∷ f ∷ [])
      × Bounded size (l' ++ e ∷ f ∷ [])
trim_full size [] e f p b full = absurd (unfold is_over in ground arith)
trim_full size (x ∷ []) e f p b full = absurd p
trim_full size (x ∷ y ∷ l) e f p b full =
    let pos : (0 < size) × (length l + 2 ≡ size * 2) = unfold is_over in ground arith in
    let over1 : trim (size * 2) (x ∷ y ∷ (l ++ e ∷ [])) ≡ y ∷ (l ++ e ∷ []) =
      trim_over (size * 2) (x ∷ y ∷ (l ++ e ∷ []))
        (over (size * 2) _ (omega arith) (omega (arith, length-append l (e ∷ [])))) in
    let over2 : trim (size * 2) (y ∷ (l ++ e ∷ f ∷ [])) ≡ l ++ e ∷ f ∷ [] =
      trim_over (size * 2) (y ∷ (l ++ e ∷ f ∷ []))
        (over (size * 2) _ (omega arith) (omega (arith, length-two l e f))) in
    (
      l,
      inr refl,
      ap (λ z. trim (size * 2) (z ++ f ∷ [])) over1
          ∙ (ap (λ z. trim (size * 2) (y ∷ z)) (append_assoc l (e ∷ []) (f ∷ [])) ∙ over2),
      ground (arith, length-two l e f),
    )

scale : (size n : ℕ) {k : ℕ} → (size ≡ 0) ⊎ (k ≤ size * 2) → n ≤ k → (size * 2 ≡ 0) ⊎ (n ≤ size * 2)
scale size n (inl e) h = inl (omega arith)
scale size n (inr b) h = inr (omega arith)

bound : (size n : ℕ) {k : ℕ} → (size ≡ 0) ⊎ (k ≤ size * 2) → n ≤ k → (size ≡ 0) ⊎ (n ≤ size * 2)
bound size n (inl e) h = inl e
bound size n (inr b) h = inr (omega arith)

-- An even list below an even limit leaves room for two.
room_for_two :
    (size n k : ℕ)
    → k ≡ n * 2
    → is_over (size * 2) (k + 1) ≡ false
    → (size ≡ 0) ⊎ (k + 2 ≤ size * 2)
unfolding is_over
room_for_two zero n k e h = inl refl
room_for_two (suc s) n k e h = inr (ground arith)

-- Two insertions under an even limit either keep all that was there or drop the oldest pair.
pub trim_pair :
    (size : ℕ) (l : List Item) (e f : Item)
    → Paired l
    → Bounded size l
    → (l' : List Item) × ((l' ≡ l) ⊎ (l' ≡ tail (tail l)))
      × (trim (size * 2) (trim (size * 2) (l ++ e ∷ []) ++ f ∷ []) ≡ l' ++ e ∷ f ∷ [])
      × Bounded size (l' ++ e ∷ f ∷ [])
trim_pair size l e f p b = elim (Bool-cases (is_over (size * 2) (length l + 1))) [
  | inr small ↦
      let (n, even) = Paired-even l p in
      let room = room_for_two size n (length l) even small in
      let l1 = length-append l (e ∷ []) in
      let fits1 : trim (size * 2) (l ++ e ∷ []) ≡ l ++ e ∷ [] =
        trim_fits (size * 2) (l ++ e ∷ [])
          (fits (size * 2) (length (l ++ e ∷ [])) (scale size _ room (omega (arith, l1)))) in
      let fits2 : trim (size * 2) (l ++ e ∷ f ∷ []) ≡ l ++ e ∷ f ∷ [] =
        trim_fits (size * 2) (l ++ e ∷ f ∷ []) (
          fits (size * 2) (length (l ++ e ∷ f ∷ []))
            (scale size _ room (omega (arith, length-two l e f)))) in
      (
        l,
        inl refl,
        rw (fits1, append_assoc) fits2,
        bound size _ room (omega (arith, length-two l e f)),
      )
  | inl full ↦ trim_full size l e f p b full
]

pub length-remove_pair :
    (dec : Discrete Key) (k : Key) (l : List Item) (e : Item)
    → Paired l
    → lookup dec k l ≡ some e
    → length (remove_pair dec k l) + 2 ≡ length l
unfolding remove_pair lookup
length-remove_pair dec k [] e p h = absurd (ground arith)
length-remove_pair dec k (x ∷ []) e p h = absurd p
length-remove_pair dec k (x ∷ y ∷ l) e p h = ground (arith, length-remove_pair dec k l e p.1)

pub Bounded-touch :
    (dec : Discrete Key) (size : ℕ) (k : Key) (l : List Item) (e f : Item)
    → Paired l
    → lookup dec k l ≡ some e
    → Bounded size l
    → Bounded size (remove_pair dec k l ++ e ∷ f ∷ [])
Bounded-touch dec size k l e f p h b =
    bound size _ b
      (omega (arith, length-two (remove_pair dec k l) e f, length-remove_pair dec k l e p h))

pub Bounded-remove :
    (dec : Discrete Key) (size : ℕ) (k : Key) (l : List Item) (e : Item)
    → Paired l
    → lookup dec k l ≡ some e
    → Bounded size l
    → Bounded size (remove_pair dec k l)
Bounded-remove dec size k l e p h b =
    bound size _ b (omega (arith, length-remove_pair dec k l e p h))
