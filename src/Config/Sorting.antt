-- ===== src/Config/Sorting.antt =====
-- What a call of `proxyGroupsDagSort` returns.
use mathlib.Core.List.{Perm}
use mathlib.Core.List.Perm
use clash_flt.Prelude.{
  ℕ, ◌≡◌, ◌≤◌, ◌<◌, ◌-◌, refl, sym, ap, subst, ◌∙◌, inl, inr, Bool, false, Option, none, some, List,
  [], ◌∷◌, ◌++◌, append-nil, All, ◌==◌, if◌then◌else◌, Bool-cases, Option-cases, arith, length,
  take,
}
use clash_flt.Prelude.Text.{Text, text_eq, text_eq_refl, text_eq_iff}
use clash_flt.Config.Dag.{
  GroupOption, GraphNode, Graph, done, find, keys, build, topological, select, first_queue,
  unless_left, locate_loop, proxy_groups_dag_sort,
}
use clash_flt.Config.Graph.{one_if, count, edges, find-none, count-none}
use clash_flt.Config.Keeps.{Fits, ready, IsQueue, contents}
use clash_flt.Config.Sorted.{Ordered, IsGraph, Inv}
use clash_flt.Config.Loop.{topological_lem}
use clash_flt.Config.Build.{build_lem, Outcome-cases}

-- The order of a loop over a map: the same keys, as often.
abbrev pub IsOrder : (ℕ → List Text → List Text) → Type 0
IsOrder order = (i : ℕ) (names : List Text) (m : Text) → count m (order i names) ≡ count m names

module _ {D : Type 0} where
  abbrev passes : (GraphNode D → Bool) → Option (GraphNode D) → Bool
  passes test none = false
  passes test (some v) = test v

  count-select :
      (test : GraphNode D → Bool) (g : Graph D) (ks : List Text) (m : Text)
      → count m (select test g ks) ≡ (if passes test (find m g) then count m ks else 0)
  unfolding count select
  count-select test g [] m = ground arith
  count-select test g (k ∷ ks) m = elim (Bool-cases (text_eq k m)) [
    | inl same ↦
        let e : find k g ≡ find m g = ap (λ z. find z g) ((text_eq_iff k m).0 same) in
        ground (arith, count-select test g ks m)
    | inr differ ↦ ground (arith, count-select test g ks m)
  ]

module _ {D : Type 0} (order : ℕ → List Text → List Text) (shuffles : IsOrder order)
    (decode : D → Option GroupOption) where
  found-counted :
      (m : Text) (v : GraphNode D) (g : Graph D) → find m g ≡ some v → 0 < count m (keys g)
  found-counted m v g found = ground (arith, find-none m g)

  first_queue-IsQueue : (g : Graph D) → IsGraph decode g → IsQueue g (first_queue order g)
  unfolding first_queue
  first_queue-IsQueue g graph m = elim (Option-cases (find m g)) [
    | inl missing ↦ count-select (λ n. n.indegree == 0) g (order 0 (keys g)) m ∙ rw missing refl
    | inr (v, found) ↦
        count-select (λ n. n.indegree == 0) g (order 0 (keys g)) m
        ∙ rw found
            (ground (arith, shuffles 0 (keys g) m, found-counted m v g found, graph.distinct m))
  ]

  start :
      (groups : List D) (g : Graph D)
      → build decode groups [] ≡ done g
      → Inv decode groups g (first_queue order g) []
  unfolding contents count find edges
  start groups g built =
      let (graph, perm, size) =
        build_lem decode groups [] g groups
          (record { distinct = λ m. omega arith; fits = λ m. refl; named = λ m. tt })
          (Perm.refl groups) (omega arith) built in
      record {
        graph = graph;
        queued = first_queue-IsQueue g graph;
        perm = subst (λ l. Perm l groups) (sym (append-nil (contents g))) perm;
        size = omega arith;
        gone = tt;
        ordered = tt;
      }

  -- The second step reports an error, if it ends.
  not-located : (left : Graph D) (l : List D) → locate_loop order left ≡ done l → ⊥
  unfolding locate_loop
  not-located left l e = ground arith

  All-keys :
      (g h : Graph D) (P : Text → Type 0)
      → ((m : Text) → 0 < count m (keys h) → P m)
      → ((m : Text) → count m (keys g) ≤ count m (keys h))
      → All P (keys g)
  unfolding count
  All-keys [] h P each within = tt
  All-keys ((k, v) ∷ g) h P each within = (
    each k (omega (arith, within k, ap one_if (text_eq_refl k))),
    All-keys g h P each (λ m. omega (arith, within m)),
  )

  -- A node that waits in no queue has an edge that leads to it.
  busy :
      (left : Graph D) (m : Text)
      → IsGraph decode left
      → IsQueue left []
      → 0 < count m (keys left)
      → 0 < edges m left
  unfolding count
  busy left m graph queued there = elim (Option-cases (find m left)) [
    | inl missing ↦ absurd (omega (arith, count-none m left missing))
    | inr (v, found) ↦
        let degree : v.indegree ≡ edges m left =
          subst (λ o. Fits o (edges m left)) found (graph.fits m) in
        let idle : 0 ≡ ready (some v) = queued m ∙ ap ready found in ground arith
  ]

  -- On the graph of a configuration, if each loop over the map meets each key once, the loop of the
  -- topological sort ends within as many rounds as there are nodes, without a nil node; and each
  -- node that is then left has an edge that leads to it from a node that is left.
  pub topological_ends :
      (groups : List D) (g : Graph D)
      → build decode groups [] ≡ done g
      → (left : Graph D) × (written : List D) × (topological (length g) g (first_queue order g) []
          ≡ done (left, written))
        × All (λ m. 0 < edges m left) (keys left)
  topological_ends groups g built =
      let (left, written, ends, inv) =
        topological_lem decode groups (length g) g (first_queue order g) [] (omega arith)
          (start groups g built) in
      (
        left,
        written,
        ends,
        All-keys left left (λ m. 0 < edges m left) (λ m. busy left m inv.graph inv.queued)
            (λ m. omega arith),
      )

  sorted_result :
      (groups result written : List D) (left : Graph D)
      → Inv decode groups left [] written
      → unless_left order left (take (length groups - length written) groups ++ written)
        ≡ done result
      → Perm result groups × Ordered decode result
  unfolding contents
  sorted_result groups result written [] inv returned =
      let all : length groups - length written ≡ 0 = omega (arith, inv.size) in
      let e : written ≡ result = sym (ap (λ n. take n groups ++ written) all) ∙ ground arith in
      subst (λ l. Perm l groups × Ordered decode l) e (inv.perm, inv.ordered)
  sorted_result groups result written (x ∷ left) inv returned =
      absurd (not-located (x ∷ left) result returned)

  -- If each loop over the map of nodes meets each key once, then what a call of
  -- `proxyGroupsDagSort` without an error leaves in the configuration is a permutation of the
  -- groups, in which no group uses one that stands behind it, or itself.
  pub proxy_groups_dag_sort-Ordered :
      (groups result : List D)
      → proxy_groups_dag_sort order decode groups ≡ done result
      → Perm result groups × Ordered decode result
  unfolding proxy_groups_dag_sort
  proxy_groups_dag_sort-Ordered groups result returned =
      elim (Outcome-cases decode (build decode groups [])) [
        | inr (e, failed) ↦ absurd (ground arith)
        | inl (g, built) ↦
            let (left, written, ends, inv) =
              topological_lem decode groups (length g) g (first_queue order g) [] (omega arith)
                (start groups g built) in
            sorted_result groups result written left inv (ground arith)
      ]
