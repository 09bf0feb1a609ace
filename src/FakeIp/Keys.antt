-- ===== src/FakeIp/Keys.antt =====
-- Keys in a list of pairs: what the removals, the trimming and the insertion of a pair leave of a
-- lookup.
use clash_flt.Prelude.{
  ℕ, ◌≡◌, refl, sym, ap, subst, ◌≢◌, inl, inr, none, some, List, [], ◌∷◌, ◌++◌, append_assoc, arith,
  length, Bool-cases,
}
use clash_flt.Lru.{is_over}
use clash_flt.Lru.Spec.{lookup, remove, trim}
use clash_flt.Lru.Reads.{Distinct}
use clash_flt.FakeIp.{Key}
use clash_flt.FakeIp.Pairs.{Item, Paired, remove_pair, absent-remove, find_mate, absent-tail}

module _ (dec : Discrete Key) where
  pub lookup-remove_self :
      (k : Key) (l : List Item) → Distinct dec l → lookup dec k (remove dec k l) ≡ none
  unfolding lookup remove
  lookup-remove_self k [] d = refl
  lookup-remove_self k (x ∷ l) d = elim (dec x.key k) [
    | yes p ↦ ground (arith, ap (λ z. lookup dec z l) p, d.0)
    | no p ↦ ground (arith, lookup-remove_self k l d.1)
  ]

  pub remove-absent_back :
      (k : Key) (l : List Item) (e : Item)
      → lookup dec k l ≡ none
      → e.key ≡ k
      → remove dec k (l ++ e ∷ []) ≡ l
  unfolding lookup remove
  remove-absent_back k [] e h p = ground arith
  remove-absent_back k (x ∷ l) e h p = ground (arith, remove-absent_back k l e)

  pub remove-absent : (k : Key) (l : List Item) → lookup dec k l ≡ none → remove dec k l ≡ l
  unfolding lookup remove
  remove-absent k [] h = refl
  remove-absent k (x ∷ l) h = ground (arith, remove-absent k l)

  pub absent-trim :
      (k : Key) (s : ℕ) (l : List Item) → lookup dec k l ≡ none → lookup dec k (trim s l) ≡ none
  unfolding trim
  absent-trim k s l h = elim (Bool-cases (is_over s (length l))) [
    | inl full ↦ rw full (absent-tail dec k l h)
    | inr small ↦ rw small h
  ]

  pub absent-append :
      (k : Key) (l : List Item) (e : Item)
      → lookup dec k l ≡ none
      → e.key ≢ k
      → lookup dec k (l ++ e ∷ []) ≡ none
  unfolding lookup
  absent-append k [] e h ne = ground arith
  absent-append k (x ∷ l) e h ne = ground (arith, absent-append k l e)

  pub absent-remove_pair :
      (j k : Key) (l : List Item)
      → lookup dec j l ≡ none
      → lookup dec j (remove_pair dec k l) ≡ none
  unfolding lookup remove_pair
  absent-remove_pair j k [] h = refl
  absent-remove_pair j k (x ∷ []) h = refl
  absent-remove_pair j k (x ∷ y ∷ l) h = ground (arith, absent-remove_pair j k l)

  -- Without its pair, a key has no entry.
  pub lookup-remove_pair_self :
      (k : Key) (l : List Item) (e : Item)
      → Paired l
      → Distinct dec l
      → lookup dec k l ≡ some e
      → lookup dec k (remove_pair dec k l) ≡ none
  lookup-remove_pair_self k l e p d h =
      let (f, _, _, _, gone, _) = find_mate dec k l e p d h in
      subst (λ z. lookup dec k z ≡ none) gone
        (absent-remove dec f.key k (remove dec k l) (lookup-remove_self k l d))

  -- An entry is found by its key wherever it stands.
  pub lookup_at :
      (m l : List Item) (e : Item)
      → Distinct dec (m ++ e ∷ l)
      → lookup dec e.key (m ++ e ∷ l) ≡ some e
  unfolding lookup
  lookup_at [] l e d = ground arith
  lookup_at (x ∷ m) l e d = elim (dec x.key e.key) [
    | yes p ↦ absurd (ground (arith, ap (λ q. lookup dec q (m ++ e ∷ l)) p, lookup_at m l e d.1))
    | no p ↦ ground (arith, lookup_at m l e d.1)
  ]

  -- The last two entries are found by their keys.
  pub lookup_last_two :
      (m : List Item) (e f : Item)
      → Distinct dec (m ++ e ∷ f ∷ [])
      → (lookup dec e.key (m ++ e ∷ f ∷ []) ≡ some e)
        × (lookup dec f.key (m ++ e ∷ f ∷ []) ≡ some f)
  lookup_last_two m e f d =
      let again = append_assoc m (e ∷ []) (f ∷ []) in
      (
        lookup_at m (f ∷ []) e d,
        subst (λ l. lookup dec f.key l ≡ some f) again
            (lookup_at (m ++ e ∷ []) [] f (subst (Distinct dec) (sym again) d)),
      )

  pub lookup-remove_ne :
      (k j : Key) (l : List Item) → j ≢ k → lookup dec j (remove dec k l) ≡ lookup dec j l
  unfolding lookup remove
  lookup-remove_ne k j [] h = refl
  lookup-remove_ne k j (x ∷ l) h = ground (arith, lookup-remove_ne k j l)
