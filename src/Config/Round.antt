-- ===== src/Config/Round.antt =====
-- One round of the sort keeps the invariant.
use clash_flt.Prelude.{
  ℕ, ◌≡◌, ◌≤◌, ◌<◌, refl, sym, ap, subst, ◌∙◌, inl, inr, Option, none, some, List, ◌∷◌, All,
  All-map, Bool-cases, arith,
}
use clash_flt.Prelude.Text.{Text, text_eq, text_eq_refl, text_eq_iff}
use clash_flt.Config.Dag.{GroupOption, GraphNode, Graph, find, erase, keys, proxies_of}
use clash_flt.Config.Graph.{
  one_if, count, edges, find-none, count-none, count-keys-erase, edges-erase, find-erase_ne,
}
use clash_flt.Config.Keeps.{Fits, ready, IsQueue, SameGroup, Keeps}
use clash_flt.Config.Sorted.{name_of, uses, NamedGroup, Named, IsGraph}

module _ {D : Type 0} where
  pub Fits-none : (o : Option (GraphNode D)) (n : ℕ) → o ≡ none → Fits o n → n ≡ 0
  Fits-none o n e fits = subst (λ p. Fits p n) e fits

  pub ready-found :
      (o : Option (GraphNode D)) → 0 < ready o → (v : GraphNode D) × (o ≡ some v) × (v.indegree ≡ 0)
  ready-found none p = absurd (omega arith)
  ready-found (some v) p = (v, refl, ground arith)

  pub SameGroup-found :
      (o p : Option (GraphNode D)) (v : GraphNode D)
      → o ≡ some v
      → SameGroup o p
      → (u : GraphNode D) × (p ≡ some u) × (u.option ≡ v.option) × (u.content ≡ v.content)
  SameGroup-found none p v e s = absurd (ground arith)
  SameGroup-found (some w) none v e s = absurd s
  SameGroup-found (some w) (some u) v e s = (u, refl, s.0 ∙ ground arith, s.1 ∙ ground arith)

  pub find-erase_self :
      (k : Text) (v : GraphNode D) (h : Graph D)
      → find k h ≡ some v
      → count k (keys h) ≤ 1
      → find k (erase k h) ≡ none
  find-erase_self k v h found once =
      find-none k (erase k h)
        (omega (arith, count-keys-erase k k v h found, ap one_if (text_eq_refl k)))

  find-erase-none :
      (m k : Text) (v : GraphNode D) (h : Graph D)
      → find k h ≡ some v
      → find m h ≡ none
      → find m (erase k h) ≡ none
  find-erase-none m k v h found missing =
      find-none m (erase k h)
        (omega (arith, count-keys-erase m k v h found, count-none m h missing))

  pub IsQueue-erase :
      (k : Text) (v : GraphNode D) (h : Graph D) (r : List Text)
      → find k h ≡ some v
      → count k (keys h) ≤ 1
      → IsQueue h (k ∷ r)
      → IsQueue (erase k h) r
  unfolding count
  IsQueue-erase k v h r found once queued m = elim (Bool-cases (text_eq k m)) [
    | inl here ↦
        let e : k ≡ m = (text_eq_iff k m).0 here in
        subst (λ z. count z r ≡ ready (find z (erase k h))) e
          (none_left (queued k) ∙ sym (ap ready (find-erase_self k v h found once)))
    | inr there ↦
        let q : count m (k ∷ r) ≡ ready (find m h) = queued m in
        ground (arith, find-erase_ne m k h there)
  ]
    where
      at_most : (o : Option (GraphNode D)) → ready o ≤ 1
      at_most none = omega arith
      at_most (some u) = ground arith

      none_left : count k (k ∷ r) ≡ ready (find k h) → count k r ≡ 0
      none_left q = omega (arith, at_most (find k h), ap one_if (text_eq_refl k))

module _ {D : Type 0} (decode : D → Option GroupOption) (name : Text) (g h : Graph D)
    (v u : GraphNode D) (found : find name g ≡ some v) (found' : find name h ≡ some u)
    (same : u.option ≡ v.option) (alone : edges name g ≡ 0) (graph : IsGraph decode g)
    (keeps : Keeps g h) (fits : (m : Text) → Fits (find m h) (edges m (erase name g))) where
  pub once : (m : Text) → count m (keys h) ≤ 1
  once m = omega (arith, keeps.same_keys m, graph.distinct m)

  edges-left : (m : Text) → edges m (erase name h) ≡ edges m (erase name g)
  edges-left m = omega (
    arith,
    edges-erase m name u h found',
    edges-erase m name v g found,
    keeps.same_edges m,
    ap (λ o. count m (proxies_of o)) same,
  )

  Fits-left : (m : Text) → Fits (find m (erase name h)) (edges m (erase name h))
  Fits-left m = elim (Bool-cases (text_eq name m)) [
    | inl here ↦
        let e : name ≡ m = (text_eq_iff name m).0 here in
        subst (λ z. Fits (find z (erase name h)) (edges z (erase name h))) e
          (subst (λ o. Fits o (edges name (erase name h)))
            (sym (find-erase_self name u h found' (once name)))
            (omega (arith, edges-erase name name u h found', keeps.same_edges name)))
    | inr there ↦
        subst (Fits (find m (erase name h))) (sym (edges-left m)) (
          subst (λ o. Fits o (edges m (erase name g))) (sym (find-erase_ne m name h there))
            (fits m))
  ]

  Named-same :
      (m : Text) (o p : Option (GraphNode D)) → SameGroup o p → Named decode m o → Named decode m p
  Named-same m none none s n = tt
  Named-same m (some a) none s n = absurd s
  Named-same m none (some b) s n = absurd s
  Named-same m (some a) (some b) s n =
      subst (λ q. NamedGroup decode m q b.content) (sym s.0)
        (subst (NamedGroup decode m a.option) (sym s.1) n)

  named-left : (m : Text) → Named decode m (find m (erase name h))
  named-left m = elim (Bool-cases (text_eq name m)) [
    | inl here ↦
        subst (λ z. Named decode z (find z (erase name h))) ((text_eq_iff name m).0 here)
          (subst (Named decode name) (sym (find-erase_self name u h found' (once name))) tt)
    | inr there ↦
        subst (Named decode m) (sym (find-erase_ne m name h there))
          (Named-same m (find m g) (find m h) (keeps.same_groups m) (graph.named m))
  ]

  pub IsGraph-erase : IsGraph decode (erase name h)
  IsGraph-erase = record {
    distinct = λ m. omega (arith, count-keys-erase m name u h found', once m);
    fits = Fits-left;
    named = named-left;
  }

  -- What stands behind a group that leaves is not used by it.
  pub unused :
      (d : D) (sorted : List D)
      → All (λ e. find (name_of decode e) g ≡ none) sorted
      → decode d ≡ v.option
      → All (λ e. count (name_of decode e) (uses decode d) ≡ 0) sorted
  unused d sorted gone e =
      All-map
        (λ z missing.
          let n = name_of decode z in
          let none_lead : edges n g ≡ 0 = Fits-none (find n g) (edges n g) missing (graph.fits n) in
          omega (arith, edges-erase n name v g found, ap (λ o. count n (proxies_of o)) e))
        sorted gone

  pub still_gone :
      (sorted : List D)
      → All (λ e. find (name_of decode e) g ≡ none) sorted
      → All (λ e. find (name_of decode e) (erase name h) ≡ none) sorted
  still_gone sorted gone =
      All-map
        (λ z missing.
          let n = name_of decode z in
          find-erase-none n name u h found'
            (find-none n h (keeps.same_keys n ∙ count-none n g missing)))
        sorted gone
