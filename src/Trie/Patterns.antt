-- ===== src/Trie/Patterns.antt =====
-- What a search means: the patterns that a domain matches, in their order of priority.
use clash_flt.Prelude.{
  ◌≡◌, refl, sym, ap, subst, ◌∙◌, ◌⊎◌, Option, none, some, List, [], ◌∷◌, ◌++◌, map, arith,
  Option-cases, inl, inr,
}
use clash_flt.Prelude.Text.{Text}
use clash_flt.Trie.{
  Node, wildcard, dot_wildcard, data_of, get_child, with_data, or_else, descend, search_labels,
}
use clash_flt.Trie.Paths.{data_at}

-- A pattern matches the labels of a domain, from the last label: label by label, with a star for
-- any one label, and with the dot wildcard for any one label or more.
pub data Matches : List Text → List Text → Type 0 where
  end : Matches [] []
  label : {s : Text} {p l : List Text} → Matches p l → Matches (s ∷ p) (s ∷ l)
  star : {s : Text} {p l : List Text} → Matches p l → Matches (wildcard ∷ p) (s ∷ l)
  dot : {s : Text} {l : List Text} → Matches (dot_wildcard ∷ []) (s ∷ l)

-- The patterns that match, the static ones first and the dot wildcard last, at every label.
unfoldable pub patterns : List Text → List (List Text)
patterns [] = [] ∷ []
patterns (s ∷ l) =
    let below = patterns l in
    map (◌∷◌ s) below ++ (map (◌∷◌ wildcard) below ++ (dot_wildcard ∷ []) ∷ [])

-- The static pattern comes first.
patterns_head : (l : List Text) → (rest : List (List Text)) × (patterns l ≡ l ∷ rest)
unfolding patterns
patterns_head [] = ([], refl)
patterns_head (s ∷ l) =
    let (rest, e) = patterns_head l in
    (
      map (◌∷◌ s) rest ++ (map (◌∷◌ wildcard) (patterns l) ++ (dot_wildcard ∷ []) ∷ []),
      ap (λ ps. map (◌∷◌ s) ps ++ (map (◌∷◌ wildcard) (patterns l) ++ (dot_wildcard ∷ []) ∷ [])) e,
    )

module _ {ℓ} {V : Type ℓ} where
  -- The data of a search result, if there is any.
  unfoldable pub found : Option (Node V) → Option V
  found none = none
  found (some n) = data_of n

  unfoldable pub first : Option V → Option V → Option V
  first (some v) o = some v
  first none o = o

  -- The data under the first of the paths that has data.
  unfoldable pub first_data : List (List Text) → Node V → Option V
  first_data [] n = none
  first_data (p ∷ ps) n = first (data_at p n) (first_data ps n)

  first_data-append :
      (ps qs : List (List Text)) (n : Node V)
      → first_data (ps ++ qs) n ≡ first (first_data ps n) (first_data qs n)
  unfolding first_data first
  first_data-append [] qs n = refl
  first_data-append (p ∷ ps) qs n = ground (arith, first_data-append ps qs n)

  below : Option (Node V) → List (List Text) → Option V
  below none ps = none
  below (some c) ps = first_data ps c

  first_data-map :
      (s : Text) (ps : List (List Text)) (n : Node V)
      → first_data (map (◌∷◌ s) ps) n ≡ below (get_child s n) ps
  unfolding first_data below first data_at
  first_data-map s [] n = ground arith
  first_data-map s (p ∷ ps) n = ground (arith, first_data-map s ps n)

  pub found-with_data : (o : Option (Node V)) → found (with_data o) ≡ found o
  unfolding found with_data
  found-with_data none = refl
  found-with_data (some n) = ground arith

  found-descend :
      (o : Option (Node V)) (k : Node V → Option (Node V))
      → found (descend o k) ≡ elim o [ none ↦ none | some c ↦ found (k c) ]
  unfolding found descend
  found-descend none k = refl
  found-descend (some c) k = found-with_data (k c)

  found-or_else :
      (o m : Option (Node V)) (k : Node V → Option (Node V))
      → found (or_else (descend o k) m) ≡ first (found (descend o k)) (found m)
  unfolding found or_else descend with_data first
  found-or_else none m k = refl
  found-or_else (some n) m k = ground arith

  found-child :
      (s : Text) (l : List Text) (n : Node V)
      → ((c : Node V) → found (search_labels l c) ≡ first_data (patterns l) c)
      → found (descend (get_child s n) (search_labels l)) ≡ first_data (map (◌∷◌ s) (patterns l)) n
  found-child s l n ih =
      rw (found-descend (get_child s n) (search_labels l), first_data-map s (patterns l) n)
        (go (get_child s n))
    where
      go :
          (o : Option (Node V))
          → ◌≡◌ {A = Option V}
              (elim o [ none ↦ none | some c ↦ found (search_labels l c) ])
              (below o (patterns l))
      go none = unfold below in refl
      go (some c) = unfold below in ih c

  found_dot :
      (n : Node V) → found (get_child dot_wildcard n) ≡ first_data ((dot_wildcard ∷ []) ∷ []) n
  unfolding first_data data_at first found
  found_dot n = ground arith

  -- The recursive search finds the data of the first pattern, in the order static, star, dot at
  -- each label, that matches the labels and has data.
  pub found-search :
      (l : List Text) (n : Node V) → found (search_labels l n) ≡ first_data (patterns l) n
  unfolding search_labels patterns
  found-search [] n = unfold found first_data data_at first in ground arith
  found-search (s ∷ l) n =
      rw (found-or_else, found-or_else, first_data-append, first_data-append)
        (cc (
          found-child s l n (found-search l),
          found-child wildcard l n (found-search l),
          found_dot n,
        ))

abbrev pub In : List Text → List (List Text) → Type 0
In p [] = ⊥
In p (q ∷ qs) = (p ≡ q) ⊎ In p qs

In-append_left : (p : List Text) (ps qs : List (List Text)) → In p ps → In p (ps ++ qs)
In-append_left p (q ∷ ps) qs (inl e) = inl e
In-append_left p (q ∷ ps) qs (inr i) = inr (In-append_left p ps qs i)
In-append_left p [] qs i = elim i [ ]

In-append_right : (p : List Text) (ps qs : List (List Text)) → In p qs → In p (ps ++ qs)
In-append_right p [] qs i = i
In-append_right p (q ∷ ps) qs i = inr (In-append_right p ps qs i)

In-append_inv : (p : List Text) (ps qs : List (List Text)) → In p (ps ++ qs) → In p ps ⊎ In p qs
In-append_inv p [] qs i = inr i
In-append_inv p (q ∷ ps) qs (inl e) = inl (inl e)
In-append_inv p (q ∷ ps) qs (inr i) = elim (In-append_inv p ps qs i) [
  | inl j ↦ inl (inr j)
  | inr j ↦ inr j
]

In-map : (s : Text) (p : List Text) (ps : List (List Text)) → In p ps → In (s ∷ p) (map (◌∷◌ s) ps)
In-map s p (q ∷ ps) (inl e) = inl (ap (◌∷◌ s) e)
In-map s p (q ∷ ps) (inr i) = inr (In-map s p ps i)
In-map s p [] i = elim i [ ]

In-map_inv :
    (s : Text) (p : List Text) (ps : List (List Text))
    → In p (map (◌∷◌ s) ps)
    → (q : List Text) × In q ps × (p ≡ s ∷ q)
In-map_inv s p (q ∷ ps) (inl e) = (q, inl refl, e)
In-map_inv s p (q ∷ ps) (inr i) = let (r, j, e) = In-map_inv s p ps i in (r, inr j, e)
In-map_inv s p [] i = elim i [ ]

Matches-In : {p l : List Text} → Matches p l → In p (patterns l)
unfolding patterns
Matches-In end = inl refl
Matches-In (label {s} {p} {l} m) =
    In-append_left (s ∷ p) _ _ (In-map s p (patterns l) (Matches-In m))
Matches-In (star {s} {p} {l} m) =
    In-append_right (wildcard ∷ p) (map (◌∷◌ s) (patterns l)) _
      (In-append_left (wildcard ∷ p) _ _ (In-map wildcard p (patterns l) (Matches-In m)))
Matches-In (dot {s} {l}) =
    In-append_right (dot_wildcard ∷ []) (map (◌∷◌ s) (patterns l)) _
      (In-append_right (dot_wildcard ∷ []) (map (◌∷◌ wildcard) (patterns l)) _ (inl refl))

In-Matches : (p l : List Text) → In p (patterns l) → Matches p l
unfolding patterns
In-Matches p [] (inl e) = subst (λ q. Matches q []) (sym e) end
In-Matches p [] (inr i) = elim i [ ]
In-Matches p (s ∷ l) i = elim (In-append_inv p (map (◌∷◌ s) (patterns l)) _ i) [
  | inl j ↦
      let (q, k, e) = In-map_inv s p (patterns l) j in
      subst (λ r. Matches r (s ∷ l)) (sym e) (label (In-Matches q l k))
  | inr j ↦ elim (In-append_inv p (map (◌∷◌ wildcard) (patterns l)) _ j) [
    | inl k ↦
        let (q, h, e) = In-map_inv wildcard p (patterns l) k in
        subst (λ r. Matches r (s ∷ l)) (sym e) (star (In-Matches q l h))
    | inr (inl e) ↦ subst (λ r. Matches r (s ∷ l)) (sym e) dot
    | inr (inr k) ↦ elim k [ ]
  ]
]

module _ {ℓ} {V : Type ℓ} where
  first_data-some :
      (ps : List (List Text)) (n : Node V) (v : V)
      → first_data ps n ≡ some v
      → (p : List Text) × In p ps × (data_at p n ≡ some v)
  unfolding first_data
  first_data-some [] n v h = absurd (ground arith)
  first_data-some (p ∷ ps) n v h = elim (Option-cases (data_at p n)) [
    | inl miss ↦
        let (q, i, e) = first_data-some ps n v (unfold first in ground arith) in (q, inr i, e)
    | inr (w, hit) ↦ (p, inl refl, unfold first in ground arith)
  ]

  first_data-none :
      (ps : List (List Text)) (n : Node V) (p : List Text)
      → first_data ps n ≡ none
      → In p ps
      → data_at p n ≡ none
  unfolding first_data first
  first_data-none [] n p h i = elim i [ ]
  first_data-none (q ∷ ps) n p h (inl e) = ap (λ r. data_at r n) e ∙ ground arith
  first_data-none (q ∷ ps) n p h (inr i) = first_data-none ps n p (ground arith) i

  -- The search has data exactly if some matching pattern has; what it finds is such a pattern's data.
  pub search_labels_sound :
      (l : List Text) (n : Node V) (v : V)
      → found (search_labels l n) ≡ some v
      → (p : List Text) × Matches p l × (data_at p n ≡ some v)
  search_labels_sound l n v h =
      let (p, i, e) = first_data-some (patterns l) n v (sym (found-search l n) ∙ h) in
      (p, In-Matches p l i, e)

  pub search_labels_complete :
      (l : List Text) (n : Node V) (p : List Text)
      → found (search_labels l n) ≡ none
      → Matches p l
      → data_at p n ≡ none
  search_labels_complete l n p h m =
      first_data-none (patterns l) n p (sym (found-search l n) ∙ h) (Matches-In m)

  pub first_static :
      (l : List Text) (t : Node V) (v : V)
      → data_at l t ≡ some v
      → first_data (patterns l) t ≡ some v
  unfolding first_data first
  first_static l t v h =
      let (rest, e) = patterns_head l in
      ap (λ ps. first_data ps t) e ∙ ap (λ o. first o (first_data rest t)) h
