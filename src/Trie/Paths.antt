-- ===== src/Trie/Paths.antt =====
-- The trie as a map from paths of labels to data: what an insertion changes, and that it changes
-- nothing else.
use clash_flt.Prelude.{
  ◌≡◌, refl, ap, Bool, true, false, ◌&&◌, Option, none, some, List, [], ◌∷◌, arith, if◌then◌else◌,
}
use clash_flt.Prelude.Text.{Text, text_eq, text_eq_iff, text_eq_refl}
use clash_flt.Trie.{
  Node, Children, node, nil, child, data_of, new_node, find_child, get_child, put_child,
  child_or_new, insert_labels,
}

-- Equality of paths.
unfoldable pub path_eq : List Text → List Text → Bool
path_eq [] [] = true
path_eq (s ∷ p) (t ∷ q) = text_eq s t && path_eq p q
path_eq _ _ = false

pub path_eq_refl : (p : List Text) → path_eq p p ≡ true
unfolding path_eq
path_eq_refl [] = refl
path_eq_refl (s ∷ p) = ground (arith, text_eq_refl s, path_eq_refl p)

module _ {ℓ} {V : Type ℓ} where
  -- The data stored under exactly this path.
  unfoldable pub data_at : List Text → Node V → Option V
  data_at [] n = data_of n
  data_at (s ∷ p) n = elim (get_child s n) [ none ↦ none | some c ↦ data_at p c ]

  find-put :
      (s t : Text) (n : Node V) (cs : Children V)
      → find_child t (put_child s n cs) ≡ (if text_eq s t then some n else find_child t cs)
  unfolding find_child put_child
  find-put s t n nil = refl
  find-put s t n (child u m cs) =
      ground (arith, text_eq_iff u s, text_eq_iff u t, text_eq_iff s t, find-put s t n cs)

  data_at-new : (q : List Text) → data_at q (new_node {V = V} none) ≡ none
  unfolding data_at new_node data_of get_child find_child
  data_at-new [] = refl
  data_at-new (s ∷ q) = refl

  -- A missing child has no data below it, as a new node has none.
  data_at-child :
      (q : List Text) (c : Option (Node V))
      → data_at q (child_or_new c) ≡ elim c [ none ↦ none | some n ↦ data_at q n ]
  unfolding child_or_new
  data_at-child q none = data_at-new q
  data_at-child q (some n) = refl

  -- After an insertion, the data under the inserted path is the new data, and the data under every
  -- other path is what it was.
  pub data_at-insert :
      (p q : List Text) (d : Option V) (n : Node V)
      → data_at q (insert_labels p d n) ≡ (if path_eq p q then d else data_at q n)
  unfolding data_at insert_labels path_eq data_of get_child
  data_at-insert [] [] d (node x cs) = refl
  data_at-insert [] (t ∷ q) d (node x cs) = refl
  data_at-insert (s ∷ p) [] d (node x cs) = refl
  data_at-insert (s ∷ p) (t ∷ q) d (node x cs) = ground (
    arith,
    text_eq_iff s t,
    find-put s t (insert_labels p d (child_or_new (find_child s cs))) cs,
    data_at-insert p q d (child_or_new (find_child s cs)),
    data_at-child q (find_child s cs),
    λ (e : s ≡ t). ap (λ u. find_child u cs) e,
  )
