-- ===== src/FakeIp/Pairs.antt =====
-- The entries of the memory store stand in adjacent pairs, a host with its address and the address
-- with the host: what the two `Get` calls of a hit, and the size limit, make of such a list.
use mathlib.Core.List.{tail}
use clash_flt.Prelude.{
  ℕ, ◌+◌, ◌*◌, ◌≡◌, refl, ap, subst, ◌≢◌, ◌⊎◌, inl, inr, none, some, List, [], ◌∷◌, ◌++◌, arith,
  length,
}
use clash_flt.Prelude.Text.{Text}
use clash_flt.Lru.{Entry}
use clash_flt.Lru.Spec.{lookup, remove}
use clash_flt.Lru.Reads.{Distinct}
use clash_flt.FakeIp.{Ipv4, Key, Value, host_key, ip_key, host_value, ip_value, ip_to_uint}

abbrev pub Item : Type 0
Item = Entry Key Value

-- `e` sends the host to the address, and `f` the address to the host.
abbrev pub Link : Text → Ipv4 → Item → Item → Type 0
Link h ip e f =
    (e.key ≡ host_key h)
    × (e.value ≡ ip_value ip)
    × (f.key ≡ ip_key (ip_to_uint ip))
    × (f.value ≡ host_value h)

abbrev pub Mates : Item → Item → Type 0
Mates e f = (h : Text) × (ip : Ipv4) × (Link h ip e f ⊎ Link h ip f e)

pub Mates-sym : (e f : Item) → Mates e f → Mates f e
Mates-sym e f (h, ip, inl l) = (h, ip, inr l)
Mates-sym e f (h, ip, inr l) = (h, ip, inl l)

abbrev pub Paired : List Item → Type 0
Paired [] = Unit
Paired (e ∷ []) = ⊥
Paired (e ∷ f ∷ l) = Mates e f × Paired l

pub Paired-append : (l : List Item) (e f : Item) → Paired l → Mates e f → Paired (l ++ e ∷ f ∷ [])
Paired-append [] e f p m = (m, tt)
Paired-append (x ∷ []) e f p m = absurd p
Paired-append (x ∷ y ∷ l) e f p m = (p.0, Paired-append l e f p.1 m)

pub Paired-even : (l : List Item) → Paired l → (n : ℕ) × (length l ≡ n * 2)
Paired-even [] p = (0, refl)
Paired-even (x ∷ []) p = absurd p
Paired-even (x ∷ y ∷ l) p = let (n, e) = Paired-even l p.1 in (n + 1, omega arith)

pub Paired-tail : (l : List Item) → Paired l → Paired (tail (tail l))
Paired-tail [] p = tt
Paired-tail (x ∷ []) p = absurd p
Paired-tail (x ∷ y ∷ l) p = p.1

module _ (dec : Discrete Key) where
  -- The list without the pair of a key.
  unfoldable pub remove_pair : Key → List Item → List Item
  remove_pair k [] = []
  remove_pair k (x ∷ []) = []
  remove_pair k (x ∷ y ∷ l) = elim (dec x.key k) [
    | yes _ ↦ l
    | no _ ↦ elim (dec y.key k) [ yes _ ↦ l | no _ ↦ x ∷ y ∷ remove_pair k l ]
  ]

  pub remove_pair-Paired : (k : Key) (l : List Item) → Paired l → Paired (remove_pair k l)
  unfolding remove_pair
  remove_pair-Paired k [] p = tt
  remove_pair-Paired k (x ∷ []) p = tt
  remove_pair-Paired k (x ∷ y ∷ l) p = elim (dec x.key k) [
    | yes a ↦ ground arith
    | no a ↦ ground (arith, remove_pair-Paired k l p.1)
  ]

  pub lookup_skip :
      (j : Key) (x : Item) (l : List Item) → x.key ≢ j → lookup dec j (x ∷ l) ≡ lookup dec j l
  unfolding lookup
  lookup_skip j x l h = ground arith

  remove_skip :
      (j : Key) (x : Item) (l : List Item) → x.key ≢ j → remove dec j (x ∷ l) ≡ x ∷ remove dec j l
  unfolding remove
  remove_skip j x l h = ground arith

  absent_tail :
      (j : Key) (x : Item) (l : List Item) → lookup dec j (x ∷ l) ≡ none → lookup dec j l ≡ none
  unfolding lookup
  absent_tail j x l h = ground arith

  pub absent-remove :
      (k j : Key) (l : List Item) → lookup dec j l ≡ none → lookup dec j (remove dec k l) ≡ none
  unfolding lookup remove
  absent-remove k j [] h = refl
  absent-remove k j (x ∷ l) h = ground (arith, absent-remove k j l)

  pub other :
      (l : List Item) (i j : Key) (f : Item)
      → lookup dec i l ≡ none
      → lookup dec j l ≡ some f
      → i ≢ j
  other l i j f h k = λ e. ground (arith, ap (λ z. lookup dec z l) e)

  -- An entry of a paired list, found by its key, has its mate in the list; without both, the pair
  -- is gone.
  pub find_mate :
      (k : Key) (l : List Item) (e : Item)
      → Paired l
      → Distinct dec l
      → lookup dec k l ≡ some e
      → (f : Item) × Mates e f
        × (e.key ≡ k)
        × (lookup dec f.key (remove dec k l) ≡ some f)
        × (remove dec f.key (remove dec k l) ≡ remove_pair k l)
        × (f.key ≢ k)
  unfolding remove_pair lookup remove
  find_mate k [] e p d h = absurd (ground arith)
  find_mate k (x ∷ []) e p d h = absurd p
  find_mate k (x ∷ y ∷ l) e p d h = elim (dec x.key k) [
    | yes a ↦
        let here : x ≡ e = ground arith in
        (y, subst (λ z. Mates z y) here p.0, ground arith, ground arith, ground arith, ground arith)
    | no a ↦ elim (dec y.key k) [
      | yes b ↦
          let here : y ≡ e = ground arith in
          (
            x,
            subst (λ z. Mates z x) here (Mates-sym x y p.0),
            ground arith,
            ground arith,
            ground arith,
            ground arith,
          )
      | no b ↦
          let (f, m, key, looked, gone, ne) = find_mate k l e p.1 d.1.1 (ground arith) in
          let nx : x.key ≢ f.key =
            other (remove dec k l) x.key f.key f
              (absent-remove k x.key l (absent_tail x.key y l d.0)) looked in
          let ny : y.key ≢ f.key =
            other (remove dec k l) y.key f.key f (absent-remove k y.key l d.1.0) looked in
          (
            f,
            m,
            key,
            rw
                (
                  remove_skip k x (y ∷ l) a,
                  remove_skip k y l b,
                  lookup_skip f.key x (y ∷ remove dec k l) nx,
                  lookup_skip f.key y (remove dec k l) ny,
                )
                looked,
            rw
                (
                  remove_skip k x (y ∷ l) a,
                  remove_skip k y l b,
                  remove_skip f.key x (y ∷ remove dec k l) nx,
                  remove_skip f.key y (remove dec k l) ny,
                )
                (ground (arith, gone)),
            ne,
          )
    ]
  ]

  pub remove-append :
      (j : Key) (l m : List Item) (f : Item)
      → lookup dec j l ≡ some f
      → remove dec j (l ++ m) ≡ remove dec j l ++ m
  unfolding lookup remove
  remove-append j [] m f h = absurd (ground arith)
  remove-append j (x ∷ l) m f h = ground (arith, remove-append j l m f)

  pub lookup-append :
      (j : Key) (l m : List Item) (f : Item)
      → lookup dec j l ≡ some f
      → lookup dec j (l ++ m) ≡ some f
  unfolding lookup
  lookup-append j [] m f h = absurd (ground arith)
  lookup-append j (x ∷ l) m f h = ground (arith, lookup-append j l m f)

  pub lookup-append_none :
      (j : Key) (l m : List Item) → lookup dec j l ≡ none → lookup dec j (l ++ m) ≡ lookup dec j m
  unfolding lookup
  lookup-append_none j [] m h = refl
  lookup-append_none j (x ∷ l) m h = ground (arith, lookup-append_none j l m)

  pub absent-tail : (j : Key) (l : List Item) → lookup dec j l ≡ none → lookup dec j (tail l) ≡ none
  unfolding lookup
  absent-tail j [] h = refl
  absent-tail j (x ∷ l) h = ground arith
