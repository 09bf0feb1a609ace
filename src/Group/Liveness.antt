-- ===== src/Group/Liveness.antt =====
-- Which proxy a fallback and a load-balancing group use, and that it is alive if one is.
use clash_flt.Prelude.{
  ℕ, zero, suc, ◌+◌, ◌%◌, ◌^◌, ◌<◌, ◌≡◌, inl, inr, refl, ap, subst, Bool, true, false, none, some,
  List, [], ◌∷◌, ◌++◌, arith, Option-cases, Bool-cases, All, length, get_elem?,
}
use clash_flt.Adapter.{Ref, Heap}
use clash_flt.Group.{first_proxy}
use clash_flt.Group.Fallback.{Fallback, proxies, first_alive, alive_or_first, find_alive_proxy}
use clash_flt.Group.LoadBalance.{Hashing, hashing_loop}

abbrev pub Dead : Heap → Ref → Type 0
Dead h r = (h r).alive ≡ false

-- The choice of a fallback group among its proxies.
pub data Chosen (h : Heap) (refs : List Ref) (r : Ref) : Type 0 where
  alive_one :
      (before after : List Ref)
      → refs ≡ before ++ r ∷ after
      → All (Dead h) before
      → (h r).alive ≡ true
      → Chosen h refs r
  first_one : All (Dead h) refs → first_proxy refs ≡ some r → Chosen h refs r

first_alive-some :
    (h : Heap) (refs : List Ref) (r : Ref)
    → first_alive h refs ≡ some r
    → (before : List Ref) × (after : List Ref) × (refs ≡ before ++ r ∷ after)
      × All (Dead h) before
      × ((h r).alive ≡ true)
unfolding first_alive
first_alive-some h [] r e = absurd (ground arith)
first_alive-some h (x ∷ refs) r e = elim (Bool-cases (h x).alive) [
  | inl lives ↦
      let is : x ≡ r = ground arith in
      ([], refs, ap (λ z. z ∷ refs) is, tt, subst (λ z. (h z).alive ≡ true) is lives)
  | inr dead ↦
      let (before, after, e', passed, lives) = first_alive-some h refs r (ground arith) in
      (x ∷ before, after, ap (◌∷◌ x) e', (dead, passed), lives)
]

first_alive-none : (h : Heap) (refs : List Ref) → first_alive h refs ≡ none → All (Dead h) refs
unfolding first_alive
first_alive-none h [] e = tt
first_alive-none h (x ∷ refs) e = elim (Bool-cases (h x).alive) [
  | inl lives ↦ absurd (ground arith)
  | inr dead ↦ (dead, first_alive-none h refs (ground arith))
]

alive_or_first-Chosen :
    (h : Heap) (x : Ref) (refs : List Ref)
    → (r : Ref) × (alive_or_first h (x ∷ refs) ≡ some r) × Chosen h (x ∷ refs) r
unfolding alive_or_first first_proxy
alive_or_first-Chosen h x refs = elim (Option-cases (first_alive h (x ∷ refs))) [
  | inl absent ↦
      (x, rw (absent, alive_or_first) refl, first_one (first_alive-none h (x ∷ refs) absent) refl)
  | inr (r, found) ↦
      let (before, after, e, passed, lives) = first_alive-some h (x ∷ refs) r found in
      (r, rw (found, alive_or_first) refl, alive_one before after e passed lives)
]

-- A fallback group that finds a proxy among its providers uses the first one that is alive, and the
-- first one of all if none is.
pub find_alive_proxy-Chosen :
    (h : Heap) (now : ℕ) (touched : Bool) (f f' : Fallback) (x : Ref) (refs : List Ref)
    → proxies now touched f ≡ some (x ∷ refs, f')
    → (r : Ref) × (find_alive_proxy h now touched f ≡ some (r, f')) × Chosen h (x ∷ refs) r
unfolding find_alive_proxy
find_alive_proxy-Chosen h now touched f f' x refs e =
    let (r, is, chosen) = alive_or_first-Chosen h x refs in (r, ground arith, chosen)

alive_or_first-alive :
    (h : Heap) (refs : List Ref) (q : Ref)
    → first_alive h refs ≡ some q
    → (r : Ref) × (alive_or_first h refs ≡ some r) × ((h r).alive ≡ true)
unfolding alive_or_first
alive_or_first-alive h refs q found =
    let (before, after, e, passed, lives) = first_alive-some h refs q found in
    (q, rw (found, alive_or_first) refl, lives)

pub get_elem?-below :
    (refs : List Ref) (i : ℕ) → i < length refs → (r : Ref) × (get_elem? refs i ≡ some r)
get_elem?-below [] i h = absurd (omega arith)
get_elem?-below (x ∷ refs) zero h = (x, refl)
get_elem?-below (x ∷ refs) (suc i) h = get_elem?-below refs i (omega arith)

pub hashing_loop-alive :
    (g : Hashing) (h : Heap) (refs : List Ref) (q : Ref) (tries key : ℕ)
    → ((k n : ℕ) → 0 < n → g.jump_hash k n < n)
    → 0 < length refs
    → first_alive h refs ≡ some q
    → (r : Ref) × (hashing_loop g h refs tries key ≡ some r) × ((h r).alive ≡ true)
unfolding hashing_loop
hashing_loop-alive g h refs q zero key in_range some_refs found =
    alive_or_first-alive h refs q found
hashing_loop-alive g h refs q (suc tries) key in_range some_refs found =
    let (x, at) =
      get_elem?-below refs (g.jump_hash key (length refs)) (in_range key (length refs) some_refs) in
    elim (Bool-cases (h x).alive) [
      | inl lives ↦ (x, rw (at, lives, hashing_loop) refl, lives)
      | inr dead ↦
          let (r, is, lives) =
            hashing_loop-alive g h refs q tries ((key + 1) % 2 ^ 64) in_range some_refs found in
          (r, rw (at, dead, hashing_loop) is, lives)
    ]
