-- ===== src/Config/Sorted.antt =====
-- The loop of the sort: it ends, and what it writes is in order.
use mathlib.Core.List.{Perm}
use mathlib.Core.List.Perm
use clash_flt.Prelude.{
  ◌≡◌, ◌≤◌, ◌+◌, inl, inr, Option, none, some, List, [], ◌∷◌, ◌++◌, All, Bool-cases, arith, length,
}
use clash_flt.Prelude.Text.{Text, text_eq}
use clash_flt.Config.Dag.{GroupOption, GraphNode, Graph, find, erase, keys, proxies_of}
use clash_flt.Config.Graph.{count, edges}
use clash_flt.Config.Fill.{swap_front}
use clash_flt.Config.Keeps.{Fits, IsQueue, content_list, contents}

module _ {D : Type 0} (decode : D → Option GroupOption) where
  abbrev pub name_of : D → Text
  name_of d = elim (decode d) [ none ↦ [] | some o ↦ o.name ]

  abbrev pub uses : D → List Text
  uses d = proxies_of (decode d)

  -- No group uses one that stands behind it, or itself.
  abbrev pub Ordered : List D → Type 0
  Ordered [] = Unit
  Ordered (d ∷ l) = All (λ e. count (name_of e) (uses d) ≡ 0) (d ∷ l) × Ordered l

  abbrev pub NamedGroup : Text → Option GroupOption → Option D → Type 0
  NamedGroup m none c = c ≡ none
  NamedGroup m (some o) c = (d : D) × (c ≡ some d) × (decode d ≡ some o) × (o.name ≡ m)

  abbrev pub Named : Text → Option (GraphNode D) → Type 0
  Named m none = Unit
  Named m (some v) = NamedGroup m v.option v.content

  -- The graph with its edges counted.
  pub record IsGraph (g : Graph D) : Type 0 where
    pub distinct : (m : Text) → count m (keys g) ≤ 1
    pub fits : (m : Text) → Fits (find m g) (edges m g)
    pub named : (m : Text) → Named m (find m g)

  pub record Inv (groups : List D) (g : Graph D) (q : List Text) (sorted : List D) : Type 0 where
    pub graph : IsGraph g
    pub queued : IsQueue g q
    pub perm : Perm (contents g ++ sorted) groups
    pub size : length (contents g) + length sorted ≡ length groups
    pub gone : All (λ d. find (name_of d) g ≡ none) sorted
    pub ordered : Ordered sorted

  pub contents-erase :
      (k : Text) (v : GraphNode D) (g : Graph D)
      → find k g ≡ some v
      → Perm (contents g) (content_list v.option v.content ++ contents (erase k g))
  unfolding contents erase find
  contents-erase k v [] h = absurd (ground arith)
  contents-erase k v ((j, u) ∷ g) h = elim (Bool-cases (text_eq j k)) [
    | inl here ↦ let same : u ≡ v = ground arith in rw (here, erase, same) (Perm.refl _)
    | inr there ↦
        rw (there, erase)
          (Perm.trans
            (Perm.append_left (content_list u.option u.content)
              (contents-erase k v g (rw (there, find) at h)))
            (swap_front (content_list u.option u.content) (content_list v.option v.content)
              (contents (erase k g))))
  ]
