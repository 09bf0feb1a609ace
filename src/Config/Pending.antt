-- ===== src/Config/Pending.antt =====
-- The graph while a group is linked to what it uses.
use mathlib.Core.List.{Perm}
use mathlib.Core.List.Perm
use clash_flt.Prelude.{
  ℕ, ◌≡◌, ◌≤◌, ◌+◌, refl, sym, ap, subst, ◌∙◌, inl, inr, false, Option, List, [], ◌∷◌, Bool-cases,
  Option-cases, arith, length,
}
use clash_flt.Prelude.Text.{Text, text_eq, text_eq_refl, text_eq_iff}
use clash_flt.Config.Dag.{
  GroupOption, GraphNode, Graph, find, assign, keys, proxies_of, referenced, link, link_all,
}
use clash_flt.Config.Graph.{
  one_if, count, edges, names_of, find-assign, edges-assign, count-keys-assign,
  count-keys-assign_new, count-none,
}
use clash_flt.Config.Keeps.{Fits, contents, contents-assign}
use clash_flt.Config.Sorted.{NamedGroup, Named}
use clash_flt.Config.Fill.{group_of, contents-fill, length-fill}

abbrev more : (Text → ℕ) → Text → Text → ℕ
more deg k m = deg m + one_if (text_eq k m)

module _ {D : Type 0} where
  pub distinct-assign :
      (k m : Text) (n : GraphNode D) (g : Graph D)
      → count m (keys g) ≤ 1
      → count m (keys (assign k n g)) ≤ 1
  distinct-assign k m n g once = elim (Option-cases (find k g)) [
    | inl missing ↦ elim (Bool-cases (text_eq k m)) [
      | inl same ↦ omega (
        arith,
        count-keys-assign_new m k n g missing,
        count-none k g missing,
        ap one_if same,
        ap (λ z. count z (keys g)) ((text_eq_iff k m).0 same),
      )
      | inr differ ↦ omega (arith, count-keys-assign_new m k n g missing, ap one_if differ)
    ]
    | inr (v, found) ↦ omega (arith, count-keys-assign m k n v g found)
  ]

  pub Fits-assign :
      (k m : Text) (n : GraphNode D) (g : Graph D) (deg : Text → ℕ)
      → n.indegree ≡ deg k
      → (text_eq k m ≡ false → Fits (find m g) (deg m))
      → Fits (find m (assign k n g)) (deg m)
  Fits-assign k m n g deg here other =
      subst (λ o. Fits o (deg m)) (sym (find-assign m k n g))
        (elim (Bool-cases (text_eq k m)) [
          | inl same ↦ rw same (here ∙ ap deg ((text_eq_iff k m).0 same))
          | inr differ ↦ rw differ (other differ)
        ])

  abbrev pub SameContents : Graph D → Graph D → Type 0
  SameContents g h = Perm (contents h) (contents g) × (length (contents h) ≡ length (contents g))

module _ {D : Type 0} (decode : D → Option GroupOption) where
  -- The graph while the edges to `ps` are missing from the degrees.
  pub record Pending (ps : List Text) (g : Graph D) : Type 0 where
    pub distinct : (m : Text) → count m (keys g) ≤ 1
    pub named : (m : Text) → Named decode m (find m g)
    pub have : Text → ℕ
    pub fits : (m : Text) → Fits (find m g) (have m)
    pub balance : (m : Text) → have m + count m ps ≡ edges m g

  -- A node that is assigned keeps the names right if it is named right itself.
  pub Named-assign :
      (k m : Text) (n : GraphNode D) (g : Graph D)
      → NamedGroup decode k n.option n.content
      → Named decode m (find m g)
      → Named decode m (find m (assign k n g))
  Named-assign k m n g here other =
      subst (Named decode m) (sym (find-assign m k n g)) (elim (Bool-cases (text_eq k m)) [
        | inl same ↦
            rw same
              (subst (λ z. NamedGroup decode z n.option n.content) ((text_eq_iff k m).0 same) here)
        | inr differ ↦ rw differ other
      ])

  -- An assignment that adds an edge to `k`, and no group.
  Pending-assign :
      (k : Text) (ps : List Text) (g : Graph D) (n : GraphNode D) (p : Pending (k ∷ ps) g)
      → NamedGroup decode k n.option n.content
      → n.indegree ≡ p.have k + 1
      → ((m : Text) → count m (names_of (find k g)) ≡ count m (proxies_of n.option))
      → Pending ps (assign k n g)
  unfolding count
  Pending-assign k ps g n p named degree same = record {
    distinct = λ m. distinct-assign k m n g (p.distinct m);
    named = λ m. Named-assign k m n g named (p.named m);
    have = more p.have k;
    fits = λ m.
        Fits-assign k m n g (more p.have k) (degree ∙ omega (arith, ap one_if (text_eq_refl k)))
          (λ differ. subst (Fits (find m g)) (omega (arith, ap one_if differ)) (p.fits m));
    balance = λ m. omega (arith, edges-assign m k n g, same m, p.balance m);
  }

  Pending-link :
      (k : Text) (ps : List Text) (g : Graph D)
      → Pending (k ∷ ps) g
      → Pending ps (link k g) × SameContents g (link k g)
  unfolding link referenced
  Pending-link k ps g p = elim (Option-cases (find k g)) [
    | inl missing ↦
        let zero_yet : p.have k ≡ 0 = subst (λ o. Fits o (p.have k)) missing (p.fits k) in
        rw (missing, link)
          (
            Pending-assign k ps g referenced p refl (omega arith)
                (λ m. ap (λ o. count m (names_of o)) missing),
            (
              contents-fill k referenced g (ap group_of missing),
              omega (arith, length-fill k referenced g (ap group_of missing)),
            ),
          )
    | inr (v, found) ↦
        let n : GraphNode D = record v { indegree = v.indegree + 1 } in
        let degree : v.indegree ≡ p.have k = subst (λ o. Fits o (p.have k)) found (p.fits k) in
        let same : contents (assign k n g) ≡ contents g = contents-assign k v n g found refl refl in
        rw (found, link)
          (
            Pending-assign k ps g n p (subst (Named decode k) found (p.named k)) (omega arith)
                (λ m. ap (λ o. count m (names_of o)) found),
            (subst (λ z. Perm z (contents g)) (sym same) (Perm.refl _), ap length same),
          )
  ]

  pub Pending-link_all :
      (ps : List Text) (g : Graph D)
      → Pending ps g
      → Pending [] (link_all ps g) × SameContents g (link_all ps g)
  unfolding link_all
  Pending-link_all [] g p = (p, (Perm.refl _, refl))
  Pending-link_all (k ∷ ps) g p =
      let (p', (perm, size)) = Pending-link k ps g p in
      let (final, (perm', size')) = Pending-link_all ps (link k g) p' in
      (final, (Perm.trans perm' perm, size' ∙ size))
