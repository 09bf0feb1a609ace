-- ===== src/Tests/Sorts.antt =====
-- Examples for config/utils.go.
use mathlib.Core.List.{Perm}
use clash_flt.Prelude.{ℕ, ◌≡◌, ◌<◌, refl, some, List, [], ◌∷◌, All, length}
use Prim.Native.String.{String}
use clash_flt.Prelude.Text.{Text, text_eq, codes}
use clash_flt.Config.Dag.{
  GroupOption, Graph, done, fail, loop_detected, find, assign, keys, build, place, link_all, link,
  topological, release, erase, select, first_queue, proxy_groups_dag_sort, new_group, referenced,
  locate_loop, record_all, record_edges, record_edge, only_loops, retreat,
}
use clash_flt.Config.Graph.{edges}
use clash_flt.Config.Sorted.{Ordered}
use clash_flt.Config.Sorting.{IsOrder, topological_ends, proxy_groups_dag_sort-Ordered}

-- The decoder takes a group as it is.
abbrev group : String → List Text → GroupOption
group name proxies = record { name = codes name; proxies = proxies }

abbrev groups : List GroupOption
groups =
    group "A" (codes "B" ∷ codes "DIRECT" ∷ [])
    ∷ group "C" (codes "A" ∷ codes "B" ∷ [])
    ∷ group "B" (codes "DIRECT" ∷ [])
    ∷ []

abbrev order : ℕ → List Text → List Text
order i names = names

order-IsOrder : IsOrder order
order-IsOrder i names m = refl

abbrev sorted : List GroupOption
sorted =
    group "B" (codes "DIRECT" ∷ [])
    ∷ group "A" (codes "B" ∷ codes "DIRECT" ∷ [])
    ∷ group "C" (codes "A" ∷ codes "B" ∷ [])
    ∷ []

sort_run : proxy_groups_dag_sort order some groups ≡ done sorted
unfolding proxy_groups_dag_sort build place link_all link find assign erase topological release
    select first_queue new_group referenced text_eq
sort_run = refl

proxy_groups_dag_sort-Ordered_example : Perm sorted groups × Ordered some sorted
proxy_groups_dag_sort-Ordered_example =
    proxy_groups_dag_sort-Ordered order order-IsOrder some groups sorted sort_run

-- Two groups that use each other.
abbrev loop : List GroupOption
loop = group "A" (codes "B" ∷ []) ∷ group "B" (codes "A" ∷ []) ∷ []

loop_found :
    proxy_groups_dag_sort order some loop ≡ fail (loop_detected (codes "A" ∷ codes "B" ∷ []))
unfolding proxy_groups_dag_sort build place link_all link find assign erase topological release
    select first_queue new_group referenced text_eq locate_loop record_all record_edges record_edge
    only_loops retreat
loop_found = refl

abbrev loop_graph : Graph GroupOption
loop_graph =
    (
      codes "A",
      record (new_group (group "A" (codes "B" ∷ [])) (group "A" (codes "B" ∷ []))) { indegree = 1 },
    )
    ∷ (
      codes "B",
      record (new_group (group "B" (codes "A" ∷ [])) (group "B" (codes "A" ∷ []))) { indegree = 1 },
    )
    ∷ []

loop_built : build some loop [] ≡ done loop_graph
unfolding build place link_all link find assign new_group referenced text_eq
loop_built = refl

topological_ends_example :
    (left : Graph GroupOption) × (written : List GroupOption) × (topological
        (length loop_graph)
        loop_graph
        (first_queue order loop_graph)
        []
      ≡ done (left, written))
    × All (λ m. 0 < edges m left) (keys left)
topological_ends_example = topological_ends order order-IsOrder some loop loop_graph loop_built
