-- ===== src/Config/Fill.antt =====
-- The contents of the graph when a node gets its group.
use mathlib.Core.List.{Perm, perm_append_comm}
use mathlib.Core.List.Perm
use clash_flt.Prelude.{
  ◌≡◌, ◌+◌, sym, ap, subst, inl, inr, Option, none, some, List, [], ◌∷◌, ◌++◌, append-nil,
  append_assoc, Bool-cases, arith, length, length-append,
}
use clash_flt.Prelude.Text.{Text, text_eq}
use clash_flt.Config.Dag.{GraphNode, Graph, find, assign}
use clash_flt.Config.Keeps.{content_list, contents}

module _ {D : Type 0} where
  pub swap_front : (a b c : List D) → Perm (a ++ (b ++ c)) (b ++ (a ++ c))
  swap_front a b c =
      Perm.trans
        (subst (λ z. Perm z ((b ++ a) ++ c)) (append_assoc a b c)
          (Perm.append_right c (perm_append_comm a b)))
        (subst (λ z. Perm ((b ++ a) ++ c) z) (append_assoc b a c) (Perm.refl _))

  abbrev pub group_of : Option (GraphNode D) → List D
  group_of none = []
  group_of (some v) = content_list v.option v.content

  pub contents-fill :
      (k : Text) (n : GraphNode D) (g : Graph D)
      → group_of (find k g) ≡ []
      → Perm (contents (assign k n g)) (content_list n.option n.content ++ contents g)
  unfolding contents assign find
  contents-fill k n [] h = Perm.refl _
  contents-fill k n ((j, u) ∷ g) h = elim (Bool-cases (text_eq j k)) [
    | inl here ↦
        rw (here, assign)
          (subst
            (λ z.
              Perm (content_list n.option n.content ++ contents g)
                (content_list n.option n.content ++ (z ++ contents g)))
            (sym (rw (here, find) at h)) (Perm.refl _))
    | inr there ↦
        rw (there, assign)
          (Perm.trans
            (Perm.append_left (content_list u.option u.content)
              (contents-fill k n g (rw (there, find) at h)))
            (swap_front (content_list u.option u.content) (content_list n.option n.content)
              (contents g)))
  ]

  pub length-fill :
      (k : Text) (n : GraphNode D) (g : Graph D)
      → group_of (find k g) ≡ []
      → length (contents (assign k n g))
        ≡ length (content_list n.option n.content) + length (contents g)
  unfolding contents assign find
  length-fill k n [] h = omega (arith, ap length (append-nil (content_list n.option n.content)))
  length-fill k n ((j, u) ∷ g) h = elim (Bool-cases (text_eq j k)) [
    | inl here ↦
        let empty : content_list u.option u.content ≡ [] = rw (here, find) at h in
        rw (here, assign)
          (omega (
            arith,
            length-append (content_list n.option n.content) (contents g),
            length-append (content_list u.option u.content) (contents g),
            ap length empty,
          ))
    | inr there ↦
        rw (there, assign)
          (omega (
            arith,
            length-append (content_list u.option u.content) (contents (assign k n g)),
            length-append (content_list u.option u.content) (contents g),
            length-fill k n g (rw (there, find) at h),
          ))
  ]
