-- ===== src/Config/Loop.antt =====
-- The loop of the sort ends with the invariant, within a round for each node.
use mathlib.Core.List.{Perm, perm_append_comm, tail}
use mathlib.Core.List.Perm
use clash_flt.Prelude.{
  ℕ, zero, suc, ◌≡◌, ◌≤◌, ◌<◌, ◌+◌, refl, sym, ap, ap₂, subst, ◌∙◌, inl, inr, Option, none, some,
  List, [], ◌∷◌, ◌++◌, append_assoc, All, Bool-cases, arith, length, length-append,
}
use clash_flt.Prelude.Text.{Text, text_eq, text_eq_refl}
use clash_flt.Config.Dag.{
  GroupOption, GraphNode, Graph, done, find, erase, keys, proxies_of, release, written_before,
  topological,
}
use clash_flt.Config.Graph.{one_if, count, edges, edges-erase, length-erase}
use clash_flt.Config.Keeps.{Fits, ready, IsQueue, content_list, contents, Keeps}
use clash_flt.Config.Release.{release_lem, release-append}
use clash_flt.Config.Sorted.{name_of, uses, Ordered, NamedGroup, Named, Inv, contents-erase}
use clash_flt.Config.Round.{
  ready-found, SameGroup-found, find-erase_self, IsQueue-erase, once, IsGraph-erase, unused,
  still_gone,
}

module _ {D : Type 0} where
  length-contents-erase :
      (k : Text) (v : GraphNode D) (g : Graph D)
      → find k g ≡ some v
      → length (content_list v.option v.content) + length (contents (erase k g))
        ≡ length (contents g)
  unfolding contents erase find
  length-contents-erase k v [] h = absurd (ground arith)
  length-contents-erase k v ((j, u) ∷ g) h = elim (Bool-cases (text_eq j k)) [
    | inl here ↦
        let same : u ≡ v = ground arith in
        rw (here, erase, same) (sym (length-append (content_list v.option v.content) (contents g)))
    | inr there ↦
        rw (there, erase)
          (omega (
            arith,
            length-append (content_list u.option u.content) (contents (erase k g)),
            length-append (content_list u.option u.content) (contents g),
            length-contents-erase k v g (rw (there, find) at h),
          ))
  ]

  written_list :
      (o : Option GroupOption) (c : Option D) (l : List D)
      → written_before o c l ≡ content_list o c ++ l
  written_list none c l = refl
  written_list (some o) none l = refl
  written_list (some o) (some d) l = refl

  -- A part that moves from the graph to what is written.
  moved :
      (a b c l groups : List D)
      → Perm a (b ++ c)
      → Perm (a ++ l) groups
      → Perm (c ++ (b ++ l)) groups
  moved a b c l groups p q =
      Perm.trans
        (subst (λ z. Perm z ((b ++ c) ++ l)) (append_assoc c b l)
          (Perm.append_right l (perm_append_comm c b)))
        (Perm.trans (Perm.append_right l (Perm.symm p)) q)

module _ {D : Type 0} (decode : D → Option GroupOption) (groups : List D) where
  -- The invariant after a round, from what the loop over the proxies leaves.
  module _ (name : Text) (q s : List Text) (g h : Graph D) (v u : GraphNode D) (sorted : List D)
      (inv : Inv decode groups g (name ∷ q) sorted) (found : find name g ≡ some v)
      (found' : find name h ≡ some u) (same : u.option ≡ v.option) (same' : u.content ≡ v.content)
      (alone : edges name g ≡ 0) (keeps : Keeps g h)
      (fits : (m : Text) → Fits (find m h) (edges m (erase name g)))
      (queued : IsQueue h (name ∷ (q ++ s))) where
    named_here : NamedGroup decode name v.option v.content
    named_here = subst (Named decode name) found (inv.graph.named name)

    once_here : count name (keys h) ≤ 1
    once_here = once decode name g h v u found found' same alone inv.graph keeps fits name

    Written : List D → Type 0
    Written l = Ordered decode l × All (λ d. find (name_of decode d) (erase name h) ≡ none) l

    own_unused :
        (d : D)
        → decode d ≡ v.option
        → name_of decode d ≡ name
        → count (name_of decode d) (uses decode d) ≡ 0
    own_unused d dec own =
        subst (λ n. count n (uses decode d) ≡ 0) (sym own)
          (omega (arith, edges-erase name name v g found, ap (λ o. count name (proxies_of o)) dec))

    Written-Ordered :
        (o : Option GroupOption) (c : Option D)
        → NamedGroup decode name o c
        → o ≡ v.option
        → Written (written_before o c sorted)
    unfolding Written
    Written-Ordered none c n e = (
      inv.ordered,
      still_gone decode name g h v u found found' same alone inv.graph keeps fits sorted inv.gone,
    )
    Written-Ordered (some o) none n e = absurd (ground arith)
    Written-Ordered (some o) (some d) (d', c, decoded, named) e =
        let is : d ≡ d' = ground arith in
        let dec : decode d ≡ v.option = ap decode is ∙ decoded ∙ e in
        let own : name_of decode d ≡ name = ap (name_of decode) is ∙ ground arith in
        (
          (
            (
              own_unused d dec own,
              unused decode name g h v u found found' same alone inv.graph keeps fits d sorted
                  inv.gone dec,
            ),
            inv.ordered,
          ),
          (
            subst (λ n. find n (erase name h) ≡ none) (sym own)
                (find-erase_self name u h found' once_here),
            still_gone decode name g h v u found found' same alone inv.graph keeps fits sorted
                inv.gone,
          ),
        )

    same_list : content_list u.option u.content ≡ content_list v.option v.content
    same_list = ap₂ content_list same same'

    perm_here : Perm (contents g) (content_list v.option v.content ++ contents (erase name h))
    perm_here =
        subst (λ z. Perm z (content_list v.option v.content ++ contents (erase name h)))
          keeps.same_contents
          (subst (λ z. Perm (contents h) (z ++ contents (erase name h))) same_list
            (contents-erase decode name u h found'))

    size_here :
        length (contents (erase name h)) + length (written_before v.option v.content sorted)
        ≡ length groups
    size_here = omega (
      arith,
      ap length (written_list v.option v.content sorted),
      length-append (content_list v.option v.content) sorted,
      length-contents-erase name u h found',
      ap length same_list,
      ap length keeps.same_contents,
      inv.size,
    )

    Inv-erased :
        Inv decode groups (erase name h) (q ++ s) (written_before v.option v.content sorted)
    unfolding Written
    Inv-erased =
        let list = written_list v.option v.content sorted in
        let (ordered, gone) = Written-Ordered v.option v.content named_here refl in
        record {
          graph = IsGraph-erase decode name g h v u found found' same alone inv.graph keeps fits;
          queued = IsQueue-erase name u h (q ++ s) found' once_here queued;
          perm =
              subst (λ z. Perm (contents (erase name h) ++ z) groups) (sym list)
                (moved (contents g) (content_list v.option v.content) (contents (erase name h))
                  sorted groups perm_here inv.perm);
          size = size_here;
          gone = gone;
          ordered = ordered;
        }

  -- The first name of the queue has a node that no group of the graph uses.
  first_idle :
      (name : Text) (q : List Text) (g : Graph D) (sorted : List D)
      → Inv decode groups g (name ∷ q) sorted
      → (v : GraphNode D) × (find name g ≡ some v) × (edges name g ≡ 0)
  unfolding count
  first_idle name q g sorted inv =
      let waiting : 0 < ready (find name g) =
        omega (arith, inv.queued name, ap one_if (text_eq_refl name)) in
      let (v, found, idle) = ready-found (find name g) waiting in
      (v, found, sym (subst (λ o. Fits o (edges name g)) found (inv.graph.fits name)) ∙ idle)

  -- A round, from a state with the invariant.
  pub Inv-round :
      (name : Text) (q : List Text) (g : Graph D) (sorted : List D)
      → Inv decode groups g (name ∷ q) sorted
      → (v : GraphNode D) × (h : Graph D) × (r : List Text) × (find name g ≡ some v)
        × (release (proxies_of v.option) g (name ∷ q) ≡ done (h, r))
        × Inv decode groups (erase name h) (tail r) (written_before v.option v.content sorted)
        × (length (erase name h) + 1 ≡ length g)
  Inv-round name q g sorted inv =
      let (v, found, alone) = first_idle name q g sorted inv in
      let (h, r, runs, keeps, queued, fits) =
        release_lem (λ m. edges m (erase name g)) (proxies_of v.option) g (name ∷ q)
          (λ m. subst (Fits (find m g)) (sym (edges-erase m name v g found)) (inv.graph.fits m))
          inv.queued in
      let (s, appended) = release-append (proxies_of v.option) g h (name ∷ q) r runs in
      let (u, found', same, same') =
        SameGroup-found (find name g) (find name h) v found (keeps.same_groups name) in
      (
        v,
        h,
        r,
        found,
        runs,
        subst (λ z. Inv decode groups (erase name h) z (written_before v.option v.content sorted))
            (sym (ap tail appended))
            (Inv-erased name q s g h v u sorted inv found found' same same' alone keeps fits
              (subst (IsQueue h) appended queued)),
        length-erase name u h found' ∙ keeps.same_length,
      )

  -- With a round for each node the loop ends, and what is left waits in no queue.
  pub topological_lem :
      (fuel : ℕ) (g : Graph D) (q : List Text) (sorted : List D)
      → length g ≤ fuel
      → Inv decode groups g q sorted
      → (left : Graph D) × (written : List D) × (topological fuel g q sorted ≡ done (left, written))
        × Inv decode groups left [] written
  unfolding topological
  topological_lem fuel g [] sorted enough inv = (g, sorted, refl, inv)
  topological_lem zero g (name ∷ q) sorted enough inv =
      let (v, h, r, found, runs, next, shorter) = Inv-round name q g sorted inv in
      absurd (omega arith)
  topological_lem (suc fuel) g (name ∷ q) sorted enough inv =
      let (v, h, r, found, runs, next, shorter) = Inv-round name q g sorted inv in
      let (left, written, ends, final) =
        topological_lem fuel (erase name h) (tail r) (written_before v.option v.content sorted)
          (omega arith) next in
      (left, written, rw (found, topological, runs) ends, final)
