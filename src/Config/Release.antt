-- ===== src/Config/Release.antt =====
-- One round of the sort: a node leaves, and the proxies of its group lose an edge each.
use clash_flt.Prelude.{
  ℕ, ◌≡◌, ◌&&◌, ◌<◌, ◌+◌, refl, sym, ap, subst, ◌∙◌, inl, inr, false, some, List, [], ◌∷◌, ◌++◌,
  append-nil, append_assoc, ◌==◌, if◌then◌else◌, Bool-cases, Option-cases, arith,
}
use clash_flt.Prelude.Text.{Text, text_eq, text_eq_refl, text_eq_iff}
use clash_flt.Config.Dag.{GraphNode, Graph, done, find, assign, release}
use clash_flt.Config.Graph.{one_if, count, count-append, find-assign}
use clash_flt.Config.Keeps.{
  Fits, ready, IsQueue, Keeps, Keeps-refl, Keeps-trans, lowered, Keeps-lowered,
}

module _ {D : Type 0} where
  Fits-lowered :
      (k m : Text) (v : GraphNode D) (g : Graph D) (n : ℕ)
      → find k g ≡ some v
      → Fits (find m g) (n + one_if (text_eq k m))
      → Fits (find m (assign k (lowered v) g)) n
  Fits-lowered k m v g n h fits =
      subst (λ o. Fits o n) (sym (find-assign m k (lowered v) g))
        (elim (Bool-cases (text_eq k m)) [
          | inl here ↦
              let e : find m g ≡ some v = ap (λ q. find q g) (sym ((text_eq_iff k m).0 here)) ∙ h in
              let was : v.indegree ≡ n + 1 =
                subst (λ o. Fits o (n + 1)) e
                  (subst (λ b. Fits (find m g) (n + one_if b)) here fits) in
              rw here (omega arith)
          | inr there ↦ rw there (
              subst (Fits (find m g)) (omega arith)
                (subst (λ b. Fits (find m g) (n + one_if b)) there fits))
        ])

  abbrev queue_after : Text → GraphNode D → List Text → List Text
  queue_after k v q = if v.indegree == 1 then q ++ k ∷ [] else q

  count-after :
      (k m : Text) (v : GraphNode D) (q : List Text)
      → count m q ≡ 0
      → count m (queue_after k v q) ≡ one_if (text_eq k m && (v.indegree == 1))
  unfolding count
  count-after k m v q none_yet = elim (Bool-cases (v.indegree == 1)) [
    | inl last ↦ rw last (ground (arith, count-append m q (k ∷ [])))
    | inr more ↦ rw more (ground arith)
  ]

  count-after_ne :
      (k m : Text) (v : GraphNode D) (q : List Text)
      → text_eq k m ≡ false
      → count m (queue_after k v q) ≡ count m q
  unfolding count
  count-after_ne k m v q other = elim (Bool-cases (v.indegree == 1)) [
    | inl last ↦ rw last (ground (arith, count-append m q (k ∷ [])))
    | inr more ↦ rw more refl
  ]

  IsQueue-lowered :
      (k : Text) (v : GraphNode D) (g : Graph D) (q : List Text)
      → find k g ≡ some v
      → 0 < v.indegree
      → IsQueue g q
      → IsQueue (assign k (lowered v) g) (queue_after k v q)
  IsQueue-lowered k v g q h p queued m =
      let after : List Text = queue_after k v q in
      subst (λ o. count m after ≡ ready o) (sym (find-assign m k (lowered v) g))
        (elim (Bool-cases (text_eq k m)) [
          | inl here ↦
              let e : find m g ≡ some v =
                ap (λ q'. find q' g) (sym ((text_eq_iff k m).0 here)) ∙ h in
              let was : count m q ≡ one_if (v.indegree == 0) = queued m ∙ ap ready e in
              rw here (count-after k m v q (ground arith) ∙ rw here (ground arith))
          | inr there ↦ rw there (count-after_ne k m v q there ∙ queued m)
        ])

  -- The degree that a node has is at least the one that an edge of the list gives it.
  child-found :
      (k : Text) (ps : List Text) (g : Graph D) (n : ℕ)
      → Fits (find k g) (n + count k (k ∷ ps))
      → (v : GraphNode D) × (find k g ≡ some v) × (0 < v.indegree)
  unfolding count
  child-found k ps g n fits = elim (Option-cases (find k g)) [
    | inl missing ↦
        absurd
          (ground (arith, text_eq_refl k, subst (λ o. Fits o (n + count k (k ∷ ps))) missing fits))
    | inr (v, found) ↦ (
      v,
      found,
      ground (arith, text_eq_refl k, subst (λ o. Fits o (n + count k (k ∷ ps))) found fits),
    )
  ]

  -- If the degrees are the edges that stay and those of the list, the loop ends with the former.
  pub release_lem :
      (stay : Text → ℕ) (ps : List Text) (g : Graph D) (q : List Text)
      → ((m : Text) → Fits (find m g) (stay m + count m ps))
      → IsQueue g q
      → (h : Graph D) × (r : List Text) × (release ps g q ≡ done (h, r))
        × Keeps g h
        × IsQueue h r
        × ((m : Text) → Fits (find m h) (stay m))
  unfolding release count
  release_lem stay [] g q fits queued =
      (g, q, refl, Keeps-refl g, queued, λ m. subst (Fits (find m g)) (omega arith) (fits m))
  release_lem stay (k ∷ ps) g q fits queued =
      let (v, found, p) = child-found k ps g (stay k) (fits k) in
      let g' = assign k (lowered v) g in
      let fits' : (m : Text) → Fits (find m g') (stay m + count m ps) = λ m.
        Fits-lowered k m v g (stay m + count m ps) found
          (subst (Fits (find m g)) (omega arith) (fits m)) in
      let (h, r, runs, keeps, queued', left) =
        release_lem stay ps g' (queue_after k v q) fits' (IsQueue-lowered k v g q found p queued) in
      (
        h,
        r,
        rw (found, release) runs,
        Keeps-trans g g' h (Keeps-lowered k v g found) keeps,
        queued',
        left,
      )

  -- The loop only appends to the queue.
  pub release-append :
      (ps : List Text) (g h : Graph D) (q r : List Text)
      → release ps g q ≡ done (h, r)
      → (s : List Text) × (r ≡ q ++ s)
  unfolding release
  release-append [] g h q r runs = ([], sym (append-nil q ∙ ground arith))
  release-append (k ∷ ps) g h q r runs = elim (Option-cases (find k g)) [
    | inl missing ↦ absurd (ground arith)
    | inr (v, found) ↦
        let (s, e) =
          release-append ps (assign k (lowered v) g) h (queue_after k v q) r
            (rw (found, release) at runs) in
        elim (Bool-cases (v.indegree == 1)) [
          | inl last ↦ (
            k ∷ s,
            e ∙ ap (λ b. (if b then q ++ k ∷ [] else q) ++ s) last ∙ append_assoc q (k ∷ []) s,
          )
          | inr more ↦ (s, e ∙ ap (λ b. (if b then q ++ k ∷ [] else q) ++ s) more)
        ]
  ]
