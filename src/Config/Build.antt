-- ===== src/Config/Build.antt =====
-- The graph that the first step builds has its edges counted.
use mathlib.Core.List.{Perm, perm_middle}
use mathlib.Core.List.Perm
use clash_flt.Prelude.{
  ◌≡◌, ◌+◌, refl, sym, ap, ap₂, subst, ◌∙◌, ◌⊎◌, inl, inr, Option, none, some, List, [], ◌∷◌, ◌++◌,
  append-nil, Option-cases, arith, length,
}
use clash_flt.Prelude.Text.{Text}
use clash_flt.Config.Dag.{
  GroupOption, GraphNode, Graph, Outcome, SortError, done, fail, find, assign, proxies_of,
  new_group, link_all, place, build,
}
use clash_flt.Config.Graph.{count, edges, names_of, edges-assign}
use clash_flt.Config.Keeps.{Fits, content_list, contents}
use clash_flt.Config.Sorted.{NamedGroup, Named, IsGraph}
use clash_flt.Config.Fill.{group_of, contents-fill, length-fill}
use clash_flt.Config.Pending.{Pending, Named-assign, distinct-assign, Fits-assign, Pending-link_all}

module _ {D : Type 0} (decode : D → Option GroupOption) where
  abbrev Placed : D → GroupOption → Graph D → Graph D → Type 0
  Placed mapping o g h =
      Pending decode o.proxies h
      × Perm (contents h) (mapping ∷ contents g)
      × (length (contents h) ≡ length (contents g) + 1)

  -- A node that gets its group.
  Pending-group :
      (mapping : D) (o : GroupOption) (g : Graph D) (n : GraphNode D) (p : Pending decode [] g)
      → decode mapping ≡ some o
      → group_of (find o.name g) ≡ []
      → ((m : Text) → count m (names_of (find o.name g)) ≡ 0)
      → n.option ≡ some o
      → n.content ≡ some mapping
      → n.indegree ≡ p.have o.name
      → Placed mapping o g (assign o.name n g)
  unfolding count
  Pending-group mapping o g n p decoded empty none_used is_o is_mapping degree = (
    record {
      distinct = λ m. distinct-assign o.name m n g (p.distinct m);
      named = λ m. Named-assign decode o.name m n g named (p.named m);
      have = p.have;
      fits = λ m. Fits-assign o.name m n g p.have degree (λ _. p.fits m);
      balance = λ m. omega (
        arith,
        edges-assign m o.name n g,
        none_used m,
        p.balance m,
        ap (λ q. count m (proxies_of q)) is_o,
      );
    },
    subst (λ l. Perm (contents (assign o.name n g)) (l ++ contents g)) filled
        (contents-fill o.name n g empty),
    omega (arith, length-fill o.name n g empty, ap length filled),
  )
    where
      filled : content_list n.option n.content ≡ mapping ∷ []
      filled = ap₂ content_list is_o is_mapping

      named : NamedGroup decode o.name n.option n.content
      named =
          subst (λ q. NamedGroup decode o.name q n.content) (sym is_o)
            (mapping, is_mapping, decoded, refl)

  no_option :
      (k : Text) (v : GraphNode D)
      → NamedGroup decode k v.option v.content
      → v.content ≡ none
      → v.option ≡ none
  no_option k v named empty = elim (Option-cases v.option) [
    | inl without ↦ without
    | inr (o, is) ↦
        let (d, has, _, _) : NamedGroup decode k (some o) v.content =
          subst (λ q. NamedGroup decode k q v.content) is named in
        absurd (cc (has, empty))
  ]

  Pending-place :
      (mapping : D) (o : GroupOption) (g h : Graph D)
      → Pending decode [] g
      → decode mapping ≡ some o
      → place mapping o g ≡ done h
      → Placed mapping o g h
  unfolding place new_group count
  Pending-place mapping o g h p decoded placed = elim (Option-cases (find o.name g)) [
    | inl missing ↦
        let e : assign o.name (new_group mapping o) g ≡ h = ground arith in
        subst (Placed mapping o g) e (
          Pending-group mapping o g (new_group mapping o) p decoded (ap group_of missing)
            (λ m. ap (λ q. count m (names_of q)) missing) refl refl
            (sym (subst (λ q. Fits q (p.have o.name)) missing (p.fits o.name))))
    | inr (v, found) ↦ elim (Option-cases v.content) [
      | inr (d, full) ↦ absurd (ground arith)
      | inl empty ↦
          let n : GraphNode D = record v { content = some mapping; option = some o } in
          let e : assign o.name n g ≡ h = ground arith in
          let idle : v.option ≡ none =
            no_option o.name v (subst (Named decode o.name) found (p.named o.name)) empty in
          subst (Placed mapping o g) e (
            Pending-group mapping o g n p decoded
              (ap group_of found ∙ ap (λ q. content_list q v.content) idle)
              (λ m. ap (λ q. count m (names_of q)) found ∙ ap (λ q. count m (proxies_of q)) idle)
              refl refl (subst (λ q. Fits q (p.have o.name)) found (p.fits o.name)))
    ]
  ]

  Pending-IsGraph : (g : Graph D) → IsGraph decode g → Pending decode [] g
  unfolding count
  Pending-IsGraph g graph = record {
    distinct = graph.distinct;
    named = graph.named;
    have = λ m. edges m g;
    fits = graph.fits;
    balance = λ m. omega arith;
  }

  IsGraph-Pending : (g : Graph D) → Pending decode [] g → IsGraph decode g
  unfolding count
  IsGraph-Pending g p = record {
    distinct = p.distinct;
    named = p.named;
    fits = λ m. subst (Fits (find m g)) (omega (arith, p.balance m)) (p.fits m);
  }

  pub Outcome-cases :
      {A : Type 0} (o : Outcome A) → ((a : A) × (o ≡ done a)) ⊎ ((e : SortError) × (o ≡ fail e))
  Outcome-cases (done a) = inl (a, refl)
  Outcome-cases (fail e) = inr (e, refl)

  perm_step :
      (mapping : D) (rest groups : List D) (g g' h : Graph D)
      → Perm (contents g') (mapping ∷ contents g)
      → Perm (contents h) (contents g')
      → Perm (contents g ++ mapping ∷ rest) groups
      → Perm (contents h ++ rest) groups
  perm_step mapping rest groups g g' h placed linked perm =
      Perm.trans (Perm.append_right rest (Perm.trans linked placed))
        (Perm.trans (Perm.symm (perm_middle (contents g) rest)) perm)

  -- What is built of `groups`, from a graph that has the first of them.
  pub build_lem :
      (rest : List D) (g h : Graph D) (groups : List D)
      → IsGraph decode g
      → Perm (contents g ++ rest) groups
      → length (contents g) + length rest ≡ length groups
      → build decode rest g ≡ done h
      → IsGraph decode h × Perm (contents h) groups × (length (contents h) ≡ length groups)
  unfolding build
  build_lem [] g h groups graph perm size built =
      let e : g ≡ h = ground arith in
      subst
        (λ z. IsGraph decode z × Perm (contents z) groups × (length (contents z) ≡ length groups)) e
        (graph, subst (λ l. Perm l groups) (append-nil (contents g)) perm, omega arith)
  build_lem (mapping ∷ rest) g h groups graph perm size built =
      elim (Option-cases (decode mapping)) [
        | inl undecoded ↦ absurd (ground arith)
        | inr (o, decoded) ↦ elim (Outcome-cases (place mapping o g)) [
          | inr (e, failed) ↦ absurd (ground arith)
          | inl (g', placed) ↦
              let (pending, perm', size') =
                Pending-place mapping o g g' (Pending-IsGraph g graph) decoded placed in
              let (linked, (perm'', size'')) = Pending-link_all decode o.proxies g' pending in
              build_lem rest (link_all o.proxies g') h groups
                (IsGraph-Pending (link_all o.proxies g') linked)
                (perm_step mapping rest groups g g' (link_all o.proxies g') perm' perm'' perm)
                (omega arith) (ground arith)
        ]
      ]
