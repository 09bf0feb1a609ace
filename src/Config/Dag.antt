-- ===== src/Config/Dag.antt =====
-- config/utils.go, `proxyGroupsDagSort`: the groups of proxies in an order in which each group comes
-- behind the groups that it uses.
--
-- The decoder of a mapping is a parameter. The graph is a list of keys and nodes; the order in which
-- a loop over the Go map meets the keys is a parameter too. `topo` is never read.
use mathlib.Core.List.{tail}
use clash_flt.Prelude.{
  ℕ, zero, suc, ◌+◌, ◌-◌, Bool, Option, none, some, List, [], ◌∷◌, ◌++◌, map, ◌==◌, if◌then◌else◌,
  length, take,
}
use clash_flt.Prelude.Text.{Text, text_eq}

pub record GroupOption : Type 0 where
  pub name : Text
  pub proxies : List Text

pub record GraphNode (D : Type 0) : Type 0 where
  pub indegree : ℕ
  pub content : Option D
  pub outdegree : ℕ
  pub option : Option GroupOption
  pub from : List Text

abbrev pub Graph : Type 0 → Type 0
Graph D = List (Text × GraphNode D)

pub data SortError : Type 0 where
  bad_group : SortError
  duplicate : Text → SortError
  loop_detected : List Text → SortError
  nil_node out_of_fuel : SortError

pub data Outcome (A : Type 0) : Type 0 where
  done : A → Outcome A
  fail : SortError → Outcome A

infixl 5 ◌>>=◌
abbrev pub ◌>>=◌ : {A B : Type 0} → Outcome A → (A → Outcome B) → Outcome B
done a >>= f = f a
fail e >>= f = fail e

abbrev pub proxies_of : Option GroupOption → List Text
proxies_of none = []
proxies_of (some option) = option.proxies

module _ {D : Type 0} where
  unfoldable pub find : Text → Graph D → Option (GraphNode D)
  find k [] = none
  find k ((j, n) ∷ g) = if text_eq j k then some n else find k g

  -- `graph[k] = n`
  unfoldable pub assign : Text → GraphNode D → Graph D → Graph D
  assign k n [] = (k, n) ∷ []
  assign k n ((j, m) ∷ g) = if text_eq j k then (j, n) ∷ g else (j, m) ∷ assign k n g

  unfoldable pub erase : Text → Graph D → Graph D
  erase k [] = []
  erase k ((j, m) ∷ g) = if text_eq j k then g else (j, m) ∷ erase k g

  abbrev pub keys : Graph D → List Text
  keys g = map (λ e. e.0) g

  unfoldable pub new_group : D → GroupOption → GraphNode D
  new_group mapping option = record {
    indegree = 0;
    content = some mapping;
    outdegree = 0;
    option = some option;
    from = [];
  }

  unfoldable pub referenced : GraphNode D
  referenced = record { indegree = 1; content = none; outdegree = 0; option = none; from = [] }

  unfoldable pub link : Text → Graph D → Graph D
  link proxy g = elim (find proxy g) [
    | some node ↦ assign proxy (record node { indegree = node.indegree + 1 }) g
    | none ↦ assign proxy referenced g
  ]

  unfoldable pub link_all : List Text → Graph D → Graph D
  link_all [] g = g
  link_all (proxy ∷ proxies) g = link_all proxies (link proxy g)

  unfoldable pub place : D → GroupOption → Graph D → Outcome (Graph D)
  place mapping option g = elim (find option.name g) [
    | none ↦ done (assign option.name (new_group mapping option) g)
    | some node ↦ elim node.content [
      | some _ ↦ fail (duplicate option.name)
      | none ↦
          done (assign option.name (record node { content = some mapping; option = some option }) g)
    ]
  ]

  -- Step 1.1: the graph of the dependencies.
  unfoldable pub build : (D → Option GroupOption) → List D → Graph D → Outcome (Graph D)
  build decode [] g = done g
  build decode (mapping ∷ groups) g = elim (decode mapping) [
    | none ↦ fail bad_group
    | some option ↦ do g' ← place mapping option g; build decode groups (link_all option.proxies g')
  ]

  -- The loop over a group's proxies: each loses an edge, and is queued with its last.
  unfoldable pub release : List Text → Graph D → List Text → Outcome (Graph D × List Text)
  release [] g queue = done (g, queue)
  release (proxy ∷ proxies) g queue = elim (find proxy g) [
    | none ↦ fail nil_node
    | some child ↦
        release proxies (assign proxy (record child { indegree = child.indegree - 1 }) g)
          (if child.indegree == 1 then queue ++ proxy ∷ [] else queue)
  ]

  -- `groupsConfig` is written from its end. `data` is set whenever `option` is.
  abbrev pub written_before : Option GroupOption → Option D → List D → List D
  written_before none d sorted = sorted
  written_before (some option) none sorted = sorted
  written_before (some option) (some d) sorted = d ∷ sorted

  -- Step 1.2, with fuel: the graph that is left, and what was written.
  unfoldable pub topological : ℕ → Graph D → List Text → List D → Outcome (Graph D × List D)
  topological fuel g [] sorted = done (g, sorted)
  topological zero g (name ∷ queue) sorted = fail out_of_fuel
  topological (suc fuel) g (name ∷ queue) sorted = elim (find name g) [
    | none ↦ fail nil_node
    | some node ↦ do
      (g', queue') ← release (proxies_of node.option) g (name ∷ queue)
      topological fuel (erase name g') (tail queue')
          (written_before node.option node.content sorted)
  ]

  -- The keys whose node passes a test, in the order of a loop over the map.
  unfoldable pub select : (GraphNode D → Bool) → Graph D → List Text → List Text
  select test g [] = []
  select test g (k ∷ ks) = elim (find k g) [
    | none ↦ select test g ks
    | some n ↦ if test n then k ∷ select test g ks else select test g ks
  ]

  -- Step 2.1: one more edge out of `name`, and `name` among those that lead to `proxy`.
  unfoldable pub record_edge : Text → Text → Graph D → Outcome (Graph D)
  record_edge name proxy g = elim (find name g) [
    | none ↦ fail nil_node
    | some node ↦
        let g' = assign name (record node { outdegree = node.outdegree + 1 }) g in
        elim (find proxy g') [
          | none ↦ fail nil_node
          | some child ↦ done (assign proxy (record child { from = child.from ++ name ∷ [] }) g')
        ]
  ]

  unfoldable pub record_edges : Text → List Text → Graph D → Outcome (Graph D)
  record_edges name [] g = done g
  record_edges name (proxy ∷ proxies) g = do
    g' ← record_edge name proxy g
    record_edges name proxies g'

  unfoldable pub record_all : List Text → Graph D → Outcome (Graph D)
  record_all [] g = done g
  record_all (name ∷ names) g = elim (find name g) [
    | none ↦ record_all names g
    | some node ↦ do g' ← record_edges name (proxies_of node.option) g; record_all names g'
  ]

  -- Step 2.2: the nodes that lead out of the loops are removed, with fuel.
  unfoldable pub retreat : List Text → Graph D → List Text → Outcome (Graph D × List Text)
  retreat [] g queue = done (g, queue)
  retreat (f ∷ from) g queue = elim (find f g) [
    | none ↦ fail nil_node
    | some node ↦
        retreat from (assign f (record node { outdegree = node.outdegree - 1 }) g)
          (if node.outdegree == 1 then queue ++ f ∷ [] else queue)
  ]

  unfoldable pub only_loops : ℕ → Graph D → List Text → Outcome (Graph D)
  only_loops fuel g [] = done g
  only_loops zero g (name ∷ queue) = fail out_of_fuel
  only_loops (suc fuel) g (name ∷ queue) = elim (find name g) [
    | none ↦ fail nil_node
    | some node ↦ do
      (g', queue') ← retreat node.from g (name ∷ queue)
      only_loops fuel (erase name g') (tail queue')
  ]

  module _ (order : ℕ → List Text → List Text) where
    -- Steps 2.1 to 2.3, for the graph that step 1.2 leaves.
    unfoldable pub locate_loop : Graph D → Outcome (List D)
    locate_loop left = do
      g ← record_all (order 1 (keys left)) left
      let queue = select (λ n. n.outdegree == 0) g (order 2 (keys g))
      loops ← only_loops (length g) g queue
      fail (loop_detected (order 3 (keys loops)))

    abbrev pub unless_left : Graph D → List D → Outcome (List D)
    unless_left [] sorted = done sorted
    unless_left (e ∷ left) sorted = locate_loop (e ∷ left)

    unfoldable pub first_queue : Graph D → List Text
    first_queue g = select (λ n. n.indegree == 0) g (order 0 (keys g))

    -- The result is `groupsConfig` after a call that returns nil.
    unfoldable pub proxy_groups_dag_sort : (D → Option GroupOption) → List D → Outcome (List D)
    proxy_groups_dag_sort decode groups = do
      g ← build decode groups []
      (left, sorted) ← topological (length g) g (first_queue g) []
      unless_left left (take (length groups - length sorted) groups ++ sorted)
