-- ===== src/Config/Keeps.antt =====
-- What a change of the degrees leaves, and the contents of a graph.
use clash_flt.Prelude.{
  ℕ, ◌≡◌, ◌-◌, refl, sym, ap, subst, ◌∙◌, inl, inr, Option, none, some, List, [], ◌∷◌, ◌++◌, ◌==◌,
  Bool-cases, arith, length,
}
use clash_flt.Prelude.Text.{Text, text_eq, text_eq_iff}
use clash_flt.Config.Dag.{GroupOption, GraphNode, Graph, find, assign, keys}
use clash_flt.Config.Graph.{
  one_if, count, edges, names_of, find-assign, edges-assign, count-keys-assign, length-assign,
}

module _ {D : Type 0} where
  -- A node's degree is a number; a name without a node has none.
  abbrev pub Fits : Option (GraphNode D) → ℕ → Type 0
  Fits none k = k ≡ 0
  Fits (some v) k = v.indegree ≡ k

  -- A node is ready when nothing leads to it.
  abbrev pub ready : Option (GraphNode D) → ℕ
  ready none = 0
  ready (some v) = one_if (v.indegree == 0)

  -- The queue holds the nodes that are ready, each once.
  abbrev pub IsQueue : Graph D → List Text → Type 0
  IsQueue g q = (m : Text) → count m q ≡ ready (find m g)

  -- The contents of the groups, in the graph's order.
  abbrev pub content_list : Option GroupOption → Option D → List D
  content_list none d = []
  content_list (some option) none = []
  content_list (some option) (some d) = d ∷ []

  unfoldable pub contents : Graph D → List D
  contents [] = []
  contents ((j, v) ∷ g) = content_list v.option v.content ++ contents g

  abbrev pub SameGroup : Option (GraphNode D) → Option (GraphNode D) → Type 0
  SameGroup none none = Unit
  SameGroup none (some v) = ⊥
  SameGroup (some u) none = ⊥
  SameGroup (some u) (some v) = (v.option ≡ u.option) × (v.content ≡ u.content)

  -- What a change of degrees alone leaves.
  pub record Keeps (g h : Graph D) : Type 0 where
    pub same_edges : (m : Text) → edges m h ≡ edges m g
    pub same_keys : (m : Text) → count m (keys h) ≡ count m (keys g)
    pub same_length : length h ≡ length g
    pub same_contents : contents h ≡ contents g
    pub same_groups : (m : Text) → SameGroup (find m g) (find m h)

  pub contents-assign :
      (k : Text) (v n : GraphNode D) (g : Graph D)
      → find k g ≡ some v
      → n.option ≡ v.option
      → n.content ≡ v.content
      → contents (assign k n g) ≡ contents g
  unfolding contents assign find
  contents-assign k v n [] h o c = absurd (ground arith)
  contents-assign k v n ((j, u) ∷ g) h o c = elim (Bool-cases (text_eq j k)) [
    | inl here ↦ let same : u ≡ v = ground arith in rw (here, assign, o, c, same) refl
    | inr there ↦
        rw (there, assign)
          (ap (λ l. content_list u.option u.content ++ l)
            (contents-assign k v n g (rw (there, find) at h) o c))
  ]

  SameGroup-refl : (o : Option (GraphNode D)) → SameGroup o o
  SameGroup-refl none = tt
  SameGroup-refl (some v) = (refl, refl)

  SameGroup-trans : (o p q : Option (GraphNode D)) → SameGroup o p → SameGroup p q → SameGroup o q
  SameGroup-trans none none none a b = tt
  SameGroup-trans (some u) (some v) (some w) a b = (b.0 ∙ a.0, b.1 ∙ a.1)
  SameGroup-trans none (some v) q a b = absurd a
  SameGroup-trans (some u) none q a b = absurd a
  SameGroup-trans none none (some w) a b = absurd b
  SameGroup-trans (some u) (some v) none a b = absurd b

  pub Keeps-refl : (g : Graph D) → Keeps g g
  Keeps-refl g = record {
    same_edges = λ m. refl;
    same_keys = λ m. refl;
    same_length = refl;
    same_contents = refl;
    same_groups = λ m. SameGroup-refl (find m g);
  }

  pub Keeps-trans : (f g h : Graph D) → Keeps f g → Keeps g h → Keeps f h
  Keeps-trans f g h a b = record {
    same_edges = λ m. b.same_edges m ∙ a.same_edges m;
    same_keys = λ m. b.same_keys m ∙ a.same_keys m;
    same_length = b.same_length ∙ a.same_length;
    same_contents = b.same_contents ∙ a.same_contents;
    same_groups =
        λ m. SameGroup-trans (find m f) (find m g) (find m h) (a.same_groups m) (b.same_groups m);
  }

  abbrev pub lowered : GraphNode D → GraphNode D
  lowered v = record v { indegree = v.indegree - 1 }

  pub Keeps-lowered :
      (k : Text) (v : GraphNode D) (g : Graph D)
      → find k g ≡ some v
      → Keeps g (assign k (lowered v) g)
  Keeps-lowered k v g h = record {
    same_edges = λ m.
        let e = edges-assign m k (lowered v) g in omega (arith, ap (λ o. count m (names_of o)) h);
    same_keys = λ m. count-keys-assign m k (lowered v) v g h;
    same_length = length-assign k (lowered v) v g h;
    same_contents = contents-assign k v (lowered v) g h refl refl;
    same_groups = λ m. same m;
  }
    where
      same : (m : Text) → SameGroup (find m g) (find m (assign k (lowered v) g))
      same m =
          subst (SameGroup (find m g)) (sym (find-assign m k (lowered v) g))
            (elim (Bool-cases (text_eq k m)) [
              | inl here ↦ rw here (
                  subst (λ o. SameGroup o (some (lowered v)))
                    (sym (ap (λ q. find q g) (sym ((text_eq_iff k m).0 here)) ∙ h)) (refl, refl))
              | inr there ↦ rw there (SameGroup-refl (find m g))
            ])
