-- ===== src/Dns/Ttl.antt =====
-- The times to live in an answer that is taken from the cache.
use clash_flt.Prelude.{
  ℕ, ◌≡◌, ◌≤◌, ◌<◌, ◌-◌, ◌⊎◌, ◌∙◌, inl, inr, refl, ap, ap₂, List, [], ◌∷◌, map, All, ltb, arith,
  if◌then◌else◌,
}
use clash_flt.FakeIp.{u32, sub32}
use clash_flt.Dns.{
  Rr, a_rr, aaaa_rr, other_rr, Library, header, with_ttl, less_ttl, minimal_ttl, lower_ttl,
  update_ttl,
}

abbrev pub ttl_of : Rr → ℕ
ttl_of r = (header r).ttl

abbrev pub Any : (Rr → Type 0) → List Rr → Type 0
Any P [] = ⊥
Any P (r ∷ records) = P r ⊎ Any P records

-- What `lo.MinBy` and `lo.Clamp` are documented to do.
pub record Documented (lib : Library) : Type 0 where
  pub least :
      (r : Rr) (records : List Rr)
      → All (λ s. ttl_of (lib.min_by (less_ttl lib) r records) ≤ ttl_of s) (r ∷ records)
  pub member :
      (r : Rr) (records : List Rr)
      → Any (λ s. ttl_of s ≡ ttl_of (lib.min_by (less_ttl lib) r records)) (r ∷ records)
  pub clamped :
      (v lo hi : ℕ)
      → lo ≤ hi
      → lib.clamp v lo hi ≡ (if ltb v lo then lo else if ltb hi v then hi else v)

-- The record's time to live, less what has passed since the least one was what it was.
abbrev pub lowered : ℕ → ℕ → Rr → Rr
lowered least ttl r = with_ttl (ttl_of r - (least - ttl)) r

-- The wrapped differences are the plain ones.
wrapped_ttl :
    (t least ttl : ℕ)
    → ttl ≤ least
    → least ≤ t
    → t < u32
    → sub32 t (sub32 least ttl) ≡ t - (least - ttl)
unfolding sub32
wrapped_ttl t least ttl h k small = omega arith

module _ (lib : Library) (d : Documented lib) where
  minimal_ttl-le : (records : List Rr) → All (λ s. minimal_ttl lib records ≤ ttl_of s) records
  unfolding minimal_ttl
  minimal_ttl-le [] = tt
  minimal_ttl-le (r ∷ records) = d.least r records

  meet :
      (m n : ℕ) (records : List Rr)
      → All (λ s. n ≤ ttl_of s) records
      → Any (λ s. ttl_of s ≡ m) records
      → n ≤ m
  meet m n [] all some_one = absurd some_one
  meet m n (r ∷ records) all (inl here) = omega arith
  meet m n (r ∷ records) all (inr there) = meet m n records all.1 there

  lower_ttl-lowered :
      (least ttl : ℕ) (r : Rr)
      → 0 < ttl
      → ttl ≤ least
      → least ≤ ttl_of r
      → ttl_of r < u32
      → lower_ttl lib (sub32 least ttl) r ≡ lowered least ttl r
  unfolding lower_ttl
  lower_ttl-lowered least ttl r p le below small =
      ap (λ n. with_ttl n r)
        (ap (λ n. lib.clamp n 1 (ttl_of r)) (wrapped_ttl (ttl_of r) least ttl le below small)
          ∙ d.clamped (ttl_of r - (least - ttl)) 1 (ttl_of r) (omega arith)
          ∙ ground arith)

  map-lowered :
      (least ttl : ℕ) (records : List Rr)
      → 0 < ttl
      → ttl ≤ least
      → All (λ s. least ≤ ttl_of s) records
      → All (λ s. ttl_of s < u32) records
      → map (lower_ttl lib (sub32 least ttl)) records ≡ map (lowered least ttl) records
  map-lowered least ttl [] p le below small = refl
  map-lowered least ttl (r ∷ records) p le below small =
      ap₂ ◌∷◌ (lower_ttl-lowered least ttl r p le below.0 small.0)
        (map-lowered least ttl records p le below.1 small.1)

  ttl-lowered : (least ttl : ℕ) (r : Rr) → ttl_of (lowered least ttl r) ≡ ttl_of r - (least - ttl)
  ttl-lowered least ttl (a_rr h ip) = refl
  ttl-lowered least ttl (aaaa_rr h ip) = refl
  ttl-lowered least ttl (other_rr h data') = refl

  -- A number that is below all and is one of them is the least one.
  least_unique :
      (m : ℕ) (records : List Rr)
      → All (λ s. m ≤ ttl_of s) records
      → Any (λ s. ttl_of s ≡ m) records
      → minimal_ttl lib records ≡ m
  unfolding minimal_ttl
  least_unique m [] all some_one = absurd some_one
  least_unique m (r ∷ records) all some_one = omega (
    arith,
    meet m (minimal_ttl lib (r ∷ records)) (r ∷ records) (d.least r records) some_one,
    meet (minimal_ttl lib (r ∷ records)) m (r ∷ records) all (d.member r records),
  )

  All-lowered :
      (least ttl : ℕ) (records : List Rr)
      → ttl ≤ least
      → All (λ s. least ≤ ttl_of s) records
      → All (λ s. ttl ≤ ttl_of s) (map (lowered least ttl) records)
  All-lowered least ttl [] le below = tt
  All-lowered least ttl (r ∷ records) le below =
      (omega (arith, ttl-lowered least ttl r), All-lowered least ttl records le below.1)

  Any-lowered :
      (least ttl : ℕ) (records : List Rr)
      → ttl ≤ least
      → Any (λ s. ttl_of s ≡ least) records
      → Any (λ s. ttl_of s ≡ ttl) (map (lowered least ttl) records)
  Any-lowered least ttl [] le none_one = absurd none_one
  Any-lowered least ttl (r ∷ records) le (inl here) = inl (omega (arith, ttl-lowered least ttl r))
  Any-lowered least ttl (r ∷ records) le (inr there) = inr (Any-lowered least ttl records le there)

  minimal-lowered :
      (ttl : ℕ) (r : Rr) (records : List Rr)
      → ttl ≤ minimal_ttl lib (r ∷ records)
      → minimal_ttl lib (map (lowered (minimal_ttl lib (r ∷ records)) ttl) (r ∷ records)) ≡ ttl
  unfolding minimal_ttl
  minimal-lowered ttl r records le =
      let least = minimal_ttl lib (r ∷ records) in
      least_unique ttl (map (lowered least ttl) (r ∷ records))
        (All-lowered least ttl (r ∷ records) le (d.least r records))
        (Any-lowered least ttl (r ∷ records) le (d.member r records))

  -- For records with 32-bit times to live: `updateTTL` to a positive time that is at most the least
  -- one takes the same difference from each record, without wrapping around, and the least time is
  -- then the given one, if `lo.MinBy` and `lo.Clamp` do what they are documented to do.
  pub update_ttl_lem :
      (r : Rr) (records : List Rr) (ttl : ℕ)
      → All (λ s. ttl_of s < u32) (r ∷ records)
      → 0 < ttl
      → ttl ≤ minimal_ttl lib (r ∷ records)
      → (update_ttl lib (r ∷ records) ttl
          ≡ map (lowered (minimal_ttl lib (r ∷ records)) ttl) (r ∷ records))
        × (minimal_ttl lib (update_ttl lib (r ∷ records) ttl) ≡ ttl)
  unfolding update_ttl
  update_ttl_lem r records ttl small p le =
      let least = minimal_ttl lib (r ∷ records) in
      let same = map-lowered least ttl (r ∷ records) p le (minimal_ttl-le (r ∷ records)) small in
      (same, ap (minimal_ttl lib) same ∙ minimal-lowered ttl r records le)
