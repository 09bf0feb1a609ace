-- ===== src/Config/Loading.antt =====
-- The order that the sort gives lets every group find the proxies that it names.
use mathlib.Core.List.{
  Perm, Mem, eq-or-mem_of_mem-cons, mem-cons_of_mem, mem-cons_self, not-mem-nil, Mem-prop,
}
use native.Mathlib.Nat.{ℕ_set}
use mathlib.Core.Logic.Or
use mathlib.Core.List.Perm
use clash_flt.Prelude.{
  ℕ, ◌≡◌, ◌≢◌, ◌<◌, ◌∙◌, ◌⊎◌, refl, sym, ap, subst, inl, inr, Bool, true, ◌||◌, List, [], ◌∷◌, map,
  arith, All, Bool-cases,
}
use clash_flt.Prelude.Text.{Text, text_eq, text_eq_refl, text_eq_iff}
use clash_flt.Picker.{err}
use clash_flt.Metadata.{is_some}
use clash_flt.Config.Dag.{done, proxy_groups_dag_sort}
use clash_flt.Config.Graph.{one_if, count}
use clash_flt.Config.Sorted.{name_of, uses, Ordered}
use clash_flt.Config.Sorting.{IsOrder, proxy_groups_dag_sort-Ordered}
use clash_flt.Config.Checked.{unknown_proxy}
use clash_flt.Config.Blame.{
  blames, Blameless, Blameless-ok, Blameless-bind, Blameless-ensure, Blameless-parse_proxy_group,
  parse_proxy_group-name,
}
use clash_flt.Config.Groups.{RawGroup, dag_option, Providers, Group, lookup, insert, parse_groups}

not_behind :
    (n : Text) (names : List Text) (groups : List RawGroup)
    → All (λ e. count (name_of dag_option e) names ≡ 0) groups
    → Mem n (map (name_of dag_option) groups)
    → count n names ≡ 0
not_behind n names [] all m = absurd (not-mem-nil m)
not_behind n names (e ∷ groups) all m =
    Or.elim (ℕ_set _ _) (eq-or-mem_of_mem-cons m) (λ same. ap (λ k. count k names) same ∙ all.0)
      (not_behind n names groups all.1)

All-counted :
    (Q : Text → Type 0) (names : List Text) → ((n : Text) → 0 < count n names → Q n) → All Q names
unfolding count
All-counted Q [] each = tt
All-counted Q (n ∷ names) each = (
  each n (omega (arith, ap one_if (text_eq_refl n))),
  All-counted Q names (λ m p. each m (omega arith)),
)

module _ {P : Type 0} (compiles : Text → Bool) where
  insert-known :
      (k n : Text) (p : P) (m : List (Text × P))
      → is_some (lookup n (insert k p m)) ≡ (text_eq k n || is_some (lookup n m))
  unfolding lookup insert
  insert-known k n p [] = ground arith
  insert-known k n p ((j, q) ∷ m) =
      ground (arith, text_eq_iff j k, text_eq_iff j n, text_eq_iff k n, insert-known k n p m)

  -- Each name that a group uses is a proxy already, or one of the groups.
  abbrev pub Resolvable : List RawGroup → List (Text × P) → Type 0
  Resolvable groups mapping =
      (g : RawGroup)
      → Mem g groups
      → (n : Text) → 0 < count n (uses dag_option g)
      → (is_some (lookup n mapping) ≡ true) ⊎ Mem n (map (name_of dag_option) groups)

  uses-known :
      (g : RawGroup) (groups : List RawGroup) (mapping : List (Text × P))
      → Ordered dag_option (g ∷ groups)
      → Resolvable (g ∷ groups) mapping
      → All (λ n. is_some (lookup n mapping) ≡ true) (uses dag_option g)
  uses-known g groups mapping ordered resolvable =
      All-counted (λ n. is_some (lookup n mapping) ≡ true) (uses dag_option g)
        λ n p. elim (resolvable g mem-cons_self n p) [
          | inl known ↦ known
          | inr named ↦
              let unused = not_behind n (uses dag_option g) (g ∷ groups) ordered.0 named in
              absurd (omega arith)
        ]

  Resolvable-tail :
      (g : RawGroup) (p : P) (groups : List RawGroup) (mapping : List (Text × P))
      → Resolvable (g ∷ groups) mapping
      → Resolvable groups (insert (name_of dag_option g) p mapping)
  Resolvable-tail g p groups mapping resolvable e there n used =
      elim (Bool-cases (text_eq (name_of dag_option g) n)) [
        | inl here ↦ inl (ground (arith, insert-known (name_of dag_option g) n p mapping))
        | inr differ ↦ elim (resolvable e (mem-cons_of_mem g there) n used) [
          | inl known ↦ inl (ground (arith, insert-known (name_of dag_option g) n p mapping))
          | inr named ↦ inr (
              Or.elim Mem-prop (eq-or-mem_of_mem-cons named)
                (λ same. absurd (ground (arith, text_eq_iff (name_of dag_option g) n))) (λ m. m))
        ]
      ]

  Blameless-parse_groups :
      (of_group : Group P → P) (groups : List RawGroup) (mapping : List (Text × P))
      (providers : Providers P)
      → Ordered dag_option groups
      → Resolvable groups mapping
      → Blameless (parse_groups compiles of_group groups mapping providers)
  unfolding parse_groups blames
  Blameless-parse_groups of_group [] mapping providers ordered resolvable =
      Blameless-ok (mapping, providers)
  Blameless-parse_groups of_group (g ∷ groups) mapping providers ordered resolvable =
      Blameless-bind _ _
        (Blameless-parse_proxy_group compiles g mapping providers
          (uses-known g groups mapping ordered resolvable))
        λ r e. Blameless-bind _ _ (Blameless-ensure _ _ refl) λ fresh h.
          Blameless-parse_groups of_group groups (insert r.0.name (of_group r.0) mapping) r.1
            ordered.1
            (subst (λ k. Resolvable groups (insert k (of_group r.0) mapping))
              (sym (parse_proxy_group-name compiles g mapping providers r e))
              (Resolvable-tail g (of_group r.0) groups mapping resolvable))

  Resolvable-Perm :
      (groups sorted : List RawGroup) (mapping : List (Text × P))
      → Perm sorted groups
      → Resolvable groups mapping
      → Resolvable sorted mapping
  Resolvable-Perm groups sorted mapping perm resolvable g there n used =
      elim (resolvable g ((Perm.mem_iff perm).0 there) n used) [
        | inl known ↦ inl known
        | inr named ↦ inr ((Perm.mem_iff (Perm.map (name_of dag_option) perm)).1 named)
      ]

  -- If each proxy that a group names is in the map of the proxies or is one of the groups, and each
  -- loop over the map of nodes meets each key once, then building the groups in the order that
  -- `proxyGroupsDagSort` returns never fails because a proxy is not found.
  pub parse_groups-proxy_groups_dag_sort :
      (order : ℕ → List Text → List Text)
      → IsOrder order
      → (of_group : Group P → P) (groups sorted : List RawGroup) (mapping : List (Text × P))
        (providers : Providers P)
      → Resolvable groups mapping
      → proxy_groups_dag_sort order dag_option groups ≡ done sorted
      → (n : Text) → parse_groups compiles of_group sorted mapping providers ≢ err (unknown_proxy n)
  unfolding blames
  parse_groups-proxy_groups_dag_sort order shuffles of_group groups sorted mapping providers
        resolvable sorts n e =
      let (perm, ordered) =
        proxy_groups_dag_sort-Ordered order shuffles dag_option groups sorted sorts in
      absurd (
        ground (
          arith,
          Blameless-parse_groups of_group sorted mapping providers ordered
              (Resolvable-Perm groups sorted mapping perm resolvable) (unknown_proxy n) e,
        ))
