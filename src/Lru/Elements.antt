-- ===== src/Lru/Elements.antt =====
-- The list of elements, looked up by key and by identity.
use clash_flt.Prelude.{
  ℕ, suc, ◌≡◌, refl, ap, ◌≢◌, Option, none, some, List, [], ◌∷◌, ◌++◌, arith, length,
}
use clash_flt.Lru.{Entry, Element, remove_element, find_element}
use clash_flt.Lru.Spec.{lookup, remove}

module _ {ℓ} {K V : Type ℓ} where
  abbrev pub entries : List (Element K V) → List (Entry K V)
  entries [] = []
  entries (x ∷ xs) = x.entry ∷ entries xs

  -- No identity occurs twice.
  abbrev pub DistinctIds : List (Element K V) → Type ℓ
  DistinctIds [] = Unit
  DistinctIds (x ∷ xs) = (find_element x.id xs ≡ none) × DistinctIds xs

  pub entries-append : (xs ys : List (Element K V)) → entries (xs ++ ys) ≡ entries xs ++ entries ys
  entries-append [] ys = refl
  entries-append (x ∷ xs) ys = ap (◌∷◌ x.entry) (entries-append xs ys)

  pub length-entries : (xs : List (Element K V)) → length (entries xs) ≡ length xs
  length-entries [] = refl
  length-entries (x ∷ xs) = ap suc (length-entries xs)

  pub find-remove :
      (i j : ℕ) (xs : List (Element K V))
      → find_element j xs ≡ none
      → find_element j (remove_element i xs) ≡ none
  unfolding find_element remove_element
  find-remove i j [] h = refl
  find-remove i j (x ∷ xs) h = ground (arith, find-remove i j xs)

  pub find-append :
      (j : ℕ) (xs : List (Element K V)) (x : Element K V)
      → find_element j xs ≡ none
      → j ≢ x.id
      → find_element j (xs ++ x ∷ []) ≡ none
  unfolding find_element
  find-append j [] x h ne = ground arith
  find-append j (y ∷ xs) x h ne = ground (arith, find-append j xs x)

  pub remove-DistinctIds :
      (i : ℕ) (xs : List (Element K V)) → DistinctIds xs → DistinctIds (remove_element i xs)
  unfolding remove_element
  remove-DistinctIds i [] d = d
  remove-DistinctIds i (x ∷ xs) d =
      ground (arith, find-remove i x.id xs, remove-DistinctIds i xs d.1)

  pub append-DistinctIds :
      (xs : List (Element K V)) (x : Element K V)
      → DistinctIds xs
      → find_element x.id xs ≡ none
      → DistinctIds (xs ++ x ∷ [])
  unfolding find_element
  append-DistinctIds [] x d h = (refl, tt)
  append-DistinctIds (y ∷ xs) x d h =
      (find-append y.id xs x d.0 (ground arith), append-DistinctIds xs x d.1 (ground arith))

  pub find-remove_self :
      (i : ℕ) (xs : List (Element K V))
      → DistinctIds xs
      → find_element i (remove_element i xs) ≡ none
  unfolding find_element remove_element
  find-remove_self i [] d = refl
  find-remove_self i (x ∷ xs) d = ground (arith, find-remove_self i xs d.1, d.0)

module _ {ℓ} {K V : Type ℓ} (dec : Discrete K) where
  -- The identity of the first element with a key: what the map has to hold for it.
  unfoldable pub index : K → List (Element K V) → Option ℕ
  index k [] = none
  index k (x ∷ xs) = elim (dec x.entry.key k) [ yes _ ↦ some x.id | no _ ↦ index k xs ]

  abbrev pub DistinctKeys : List (Element K V) → Type ℓ
  DistinctKeys [] = Unit
  DistinctKeys (x ∷ xs) = (index x.entry.key xs ≡ none) × DistinctKeys xs

  pub index-none :
      (k : K) (xs : List (Element K V)) → index k xs ≡ none → lookup dec k (entries xs) ≡ none
  unfolding index lookup
  index-none k [] h = refl
  index-none k (x ∷ xs) h = ground (arith, index-none k xs)

  pub find-index :
      (i : ℕ) (k : K) (xs : List (Element K V)) → find_element i xs ≡ none → index k xs ≢ some i
  unfolding find_element index
  find-index i k [] h = λ e. ground arith
  find-index i k (x ∷ xs) h = λ e. ground (arith, find-index i k xs)

  pub index-some :
      (k : K) (i : ℕ) (xs : List (Element K V))
      → DistinctIds xs
      → index k xs ≡ some i
      → (e : Entry K V) × (find_element i xs ≡ some e)
        × (lookup dec k (entries xs) ≡ some e)
        × (e.key ≡ k)
        × (entries (remove_element i xs) ≡ remove dec k (entries xs))
  unfolding index find_element remove_element lookup remove
  index-some k i [] d h = absurd (ground arith)
  index-some k i (x ∷ xs) d h = elim (dec x.entry.key k) [
    | yes p ↦ (x.entry, ground arith, ground arith, p, ground arith)
    | no p ↦
        let (e, found, looked, key, rest) = index-some k i xs d.1 (ground arith) in
        let ne = find-index x.id k xs d.0 in (e, ground arith, ground arith, key, ground arith)
  ]

  pub index-remove_ne :
      (k j : K) (i : ℕ) (xs : List (Element K V))
      → DistinctIds xs
      → index k xs ≡ some i
      → k ≢ j
      → index j (remove_element i xs) ≡ index j xs
  unfolding index remove_element
  index-remove_ne k j i [] d h ne = refl
  index-remove_ne k j i (x ∷ xs) d h ne =
      ground (arith, find-index x.id k xs d.0, index-remove_ne k j i xs d.1)

  pub index-remove_none :
      (j : K) (i : ℕ) (xs : List (Element K V))
      → index j xs ≡ none
      → index j (remove_element i xs) ≡ none
  unfolding index remove_element
  index-remove_none j i [] h = refl
  index-remove_none j i (x ∷ xs) h = ground (arith, index-remove_none j i xs)

  pub index-remove_self :
      (k : K) (i : ℕ) (xs : List (Element K V))
      → DistinctIds xs
      → DistinctKeys xs
      → index k xs ≡ some i
      → index k (remove_element i xs) ≡ none
  unfolding index remove_element
  index-remove_self k i [] d u h = refl
  index-remove_self k i (x ∷ xs) d u h = elim (dec x.entry.key k) [
    | yes p ↦ ground (arith, (ap (λ q. index q xs) p))
    | no p ↦ ground (arith, find-index x.id k xs d.0, index-remove_self k i xs d.1 u.1)
  ]

  pub remove-DistinctKeys :
      (i : ℕ) (xs : List (Element K V)) → DistinctKeys xs → DistinctKeys (remove_element i xs)
  unfolding remove_element
  remove-DistinctKeys i [] d = d
  remove-DistinctKeys i (x ∷ xs) d =
      ground (arith, index-remove_none x.entry.key i xs, remove-DistinctKeys i xs d.1)

  pub index-append :
      (k : K) (xs : List (Element K V)) (x : Element K V)
      → index k (xs ++ x ∷ []) ≡ elim (index k xs) [ some i ↦ some i | none ↦ index k (x ∷ []) ]
  unfolding index
  index-append k [] x = refl
  index-append k (y ∷ xs) x = ground (arith, index-append k xs x)

  pub append-DistinctKeys :
      (xs : List (Element K V)) (x : Element K V)
      → DistinctKeys xs
      → index x.entry.key xs ≡ none
      → DistinctKeys (xs ++ x ∷ [])
  unfolding index
  append-DistinctKeys [] x d h = (refl, tt)
  append-DistinctKeys (y ∷ xs) x d h =
      ground (arith, index-append y.entry.key xs x, append-DistinctKeys xs x d.1, d.0)
