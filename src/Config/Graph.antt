-- ===== src/Config/Graph.antt =====
-- The graph of `proxyGroupsDagSort` as a map from keys to nodes, with its edges counted.
use clash_flt.Prelude.{
  ℕ, ◌≡◌, ◌+◌, refl, inl, inr, Bool, true, false, Option, none, some, List, [], ◌∷◌, ◌++◌,
  if◌then◌else◌, Bool-cases, arith, length,
}
use clash_flt.Prelude.Text.{Text, text_eq, text_eq_iff}
use clash_flt.Config.Dag.{GraphNode, Graph, find, assign, erase, keys, proxies_of}

abbrev pub one_if : Bool → ℕ
one_if true = 1
one_if false = 0

-- How often a name stands in a list.
unfoldable pub count : Text → List Text → ℕ
count k [] = 0
count k (j ∷ names) = one_if (text_eq j k) + count k names

pub count-append : (k : Text) (xs ys : List Text) → count k (xs ++ ys) ≡ count k xs + count k ys
unfolding count
count-append k [] ys = omega arith
count-append k (x ∷ xs) ys = omega (arith, count-append k xs ys)

-- A key is itself, and two keys that pass the test are one.
pub text_eq_sym : (j k : Text) → text_eq j k ≡ text_eq k j
text_eq_sym j k = ground (arith, text_eq_iff j k, text_eq_iff k j)

module _ {D : Type 0} where
  -- How many edges of groups in the graph lead to a name.
  unfoldable pub edges : Text → Graph D → ℕ
  edges m [] = 0
  edges m ((j, n) ∷ g) = count m (proxies_of n.option) + edges m g

  abbrev pub names_of : Option (GraphNode D) → List Text
  names_of none = []
  names_of (some n) = proxies_of n.option

  pub find-assign :
      (m k : Text) (n : GraphNode D) (g : Graph D)
      → find m (assign k n g) ≡ (if text_eq k m then some n else find m g)
  unfolding find assign
  find-assign m k n [] = refl
  find-assign m k n ((j, v) ∷ g) =
      ground (arith, text_eq_iff j k, text_eq_iff j m, text_eq_iff k m, find-assign m k n g)

  pub edges-assign :
      (m k : Text) (n : GraphNode D) (g : Graph D)
      → edges m (assign k n g) + count m (names_of (find k g))
        ≡ edges m g + count m (proxies_of n.option)
  unfolding edges assign find count
  edges-assign m k n [] = omega arith
  edges-assign m k n ((j, v) ∷ g) = elim (Bool-cases (text_eq j k)) [
    | inl here ↦ rw (here, assign, find) (omega arith)
    | inr there ↦ rw (there, assign, find) (omega (arith, edges-assign m k n g))
  ]

  pub count-keys-assign :
      (m k : Text) (n v : GraphNode D) (g : Graph D)
      → find k g ≡ some v
      → count m (keys (assign k n g)) ≡ count m (keys g)
  unfolding count assign find
  count-keys-assign m k n v [] h = absurd (ground arith)
  count-keys-assign m k n v ((j, u) ∷ g) h = elim (Bool-cases (text_eq j k)) [
    | inl here ↦ rw (here, assign) (ground (arith, text_eq_iff j k))
    | inr there ↦ rw (there, assign) (ground (arith, count-keys-assign m k n v g))
  ]

  pub count-keys-assign_new :
      (m k : Text) (n : GraphNode D) (g : Graph D)
      → find k g ≡ none
      → count m (keys (assign k n g)) ≡ count m (keys g) + one_if (text_eq k m)
  unfolding count assign find
  count-keys-assign_new m k n [] h = omega arith
  count-keys-assign_new m k n ((j, u) ∷ g) h = elim (Bool-cases (text_eq j k)) [
    | inl here ↦ absurd (ground arith)
    | inr there ↦ rw (there, assign) (ground (arith, count-keys-assign_new m k n g))
  ]

  pub find-none : (k : Text) (g : Graph D) → count k (keys g) ≡ 0 → find k g ≡ none
  unfolding count find
  find-none k [] h = refl
  find-none k ((j, v) ∷ g) h = ground (arith, find-none k g)

  pub count-none : (k : Text) (g : Graph D) → find k g ≡ none → count k (keys g) ≡ 0
  unfolding count find
  count-none k [] h = refl
  count-none k ((j, v) ∷ g) h = ground (arith, count-none k g)

  pub count-keys-erase :
      (m k : Text) (v : GraphNode D) (g : Graph D)
      → find k g ≡ some v
      → count m (keys (erase k g)) + one_if (text_eq k m) ≡ count m (keys g)
  unfolding count erase find
  count-keys-erase m k v [] h = absurd (ground arith)
  count-keys-erase m k v ((j, u) ∷ g) h = elim (Bool-cases (text_eq j k)) [
    | inl here ↦ rw (here, erase) (ground (arith, text_eq_iff j k))
    | inr there ↦ rw (there, erase) (ground (arith, count-keys-erase m k v g))
  ]

  pub edges-erase :
      (m k : Text) (v : GraphNode D) (g : Graph D)
      → find k g ≡ some v
      → edges m (erase k g) + count m (proxies_of v.option) ≡ edges m g
  unfolding edges erase find
  edges-erase m k v [] h = absurd (ground arith)
  edges-erase m k v ((j, u) ∷ g) h = elim (Bool-cases (text_eq j k)) [
    | inl here ↦ rw (here, erase) (ground arith)
    | inr there ↦ rw (there, erase) (ground (arith, edges-erase m k v g))
  ]

  pub find-erase_ne :
      (m k : Text) (g : Graph D) → text_eq k m ≡ false → find m (erase k g) ≡ find m g
  unfolding erase find
  find-erase_ne m k [] h = refl
  find-erase_ne m k ((j, u) ∷ g) h =
      ground (arith, text_eq_iff j k, text_eq_iff j m, find-erase_ne m k g)

  pub length-erase :
      (k : Text) (v : GraphNode D) (g : Graph D)
      → find k g ≡ some v
      → length (erase k g) + 1 ≡ length g
  unfolding erase find
  length-erase k v [] h = absurd (ground arith)
  length-erase k v ((j, u) ∷ g) h = ground (arith, length-erase k v g)

  pub length-assign :
      (k : Text) (n v : GraphNode D) (g : Graph D)
      → find k g ≡ some v
      → length (assign k n g) ≡ length g
  unfolding assign find
  length-assign k n v [] h = absurd (ground arith)
  length-assign k n v ((j, u) ∷ g) h = ground (arith, length-assign k n v g)
