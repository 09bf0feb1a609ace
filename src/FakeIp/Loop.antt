-- ===== src/FakeIp/Loop.antt =====
-- The loop of `get`: it ends within one round for each address of the range and one more, at a
-- free offset if there is one.
use clash_flt.Prelude.{
  ℕ, zero, suc, ◌+◌, ◌-◌, ◌%◌, ◌<◌, ◌≡◌, ap, ◌∙◌, ◌⊎◌, inl, inr, true, false, arith, leb, subst,
  ◌==◌, if◌then◌else◌, Bool-cases,
}
use clash_flt.FakeIp.{u32, add32, sub32, Store, Pool, free, full, address, scan}
use clash_flt.FakeIp.Address.{sub32-lt}

-- After `k` rounds from `current` the offset is `o`, in a range of `m`.
abbrev pub At : ℕ → ℕ → ℕ → ℕ → Type 0
At m current k o = (o < m) × ((o ≡ current + k) ⊎ (o + m ≡ current + k))

next_offset : (m o : ℕ) → o < m → m < u32 → add32 o 1 % m ≡ (if o + 1 == m then 0 else o + 1)
unfolding add32
next_offset m o h b =
    let small : (o + 1) % u32 ≡ o + 1 = omega arith in ap (λ t. t % m) small ∙ grind arith

At-next :
    (m current k o : ℕ)
    → At m current k o
    → m < u32
    → current < m
    → k < m
    → At m current (k + 1) (add32 o 1 % m)
At-next m current k o at b hc hk = ground (arith, next_offset m o at.0 b)

-- Back at `current` after at least one round, all `m` offsets have been seen.
At-back : (m current k : ℕ) → At m current (k + 1) current → current < m → k < m → k + 1 ≡ m
At-back m current k at hc hk = omega arith

At-unique : (m current k o q : ℕ) → At m current k o → At m current k q → o ≡ q
At-unique m current k o q a b = omega arith

At-round : (m current q : ℕ) → current < m → q < m → (j : ℕ) × (j < m) × At m current j q
At-round m current q hc hq = elim (Bool-cases (leb current q)) [
  | inl above ↦ (q - current, ground arith, (hq, inl (ground arith)))
  | inr below ↦ (q + m - current, ground arith, (hq, inr (ground arith)))
]

module _ {S : Type 0} (st : Store S) (p : Pool S) where
  abbrev pub range : ℕ
  range = sub32 p.max p.min

  -- The address of an offset is taken.
  abbrev pub Taken : ℕ → Type 0
  Taken o = st.exist (address st p o) p.store ≡ true

  -- Every offset has been seen when the rounds are back at `current`.
  all-Taken :
      (current k o : ℕ)
      → current < range
      → k + 1 ≡ range
      → At range current k o
      → Taken o
      → ((j q : ℕ) → j < k → At range current j q → Taken q)
      → (q : ℕ) → q < range
      → Taken q
  all-Taken current k o hc last at taken seen q hq =
      let (j, hj, at') = At-round range current q hc hq in
      elim (Bool-cases (j == k)) [
        | inl same ↦
            let e : j ≡ k = ground arith in
            subst Taken (At-unique range current k o q at (subst (λ i. At range current i q) e at'))
              taken
        | inr other ↦ seen j q (ground arith) at'
      ]

  extend :
      (current k o : ℕ)
      → At range current k o
      → Taken o
      → ((j q : ℕ) → j < k → At range current j q → Taken q)
      → (j q : ℕ) → j < k + 1
      → At range current j q
      → Taken q
  extend current k o at taken seen j q hj at' = elim (Bool-cases (j == k)) [
    | inl same ↦
        let e : j ≡ k = ground arith in
        subst Taken (At-unique range current k o q at (subst (λ i. At range current i q) e at'))
          taken
    | inr other ↦ seen j q (ground arith) at'
  ]

  scan_from :
      (f current k o : ℕ)
      → 0 < range
      → current < range
      → k < range
      → range < f + k
      → At range current k o
      → ((j q : ℕ) → j < k → At range current j q → Taken q)
      → ((r : ℕ) × (scan st f p current o ≡ free r)
          × (r < range)
          × (st.exist (address st p r) p.store ≡ false))
        ⊎ ((scan st f p current o ≡ full current) × ((q : ℕ) → q < range → Taken q))
  unfolding scan
  scan_from zero current k o pos hc hk hf at seen = absurd (omega arith)
  scan_from (suc f) current k o pos hc hk hf at seen =
      let some_range : (range == 0) ≡ false = ground arith in
      let next = add32 o 1 % range in
      let at' = At-next range current k o at (sub32-lt p.max p.min) hc hk in
      elim (Bool-cases (st.exist (address st p o) p.store)) [
        | inr vacant ↦ inl (o, rw (vacant, scan), at.0, vacant)
        | inl taken ↦ elim (Bool-cases (next == current)) [
          | inl back ↦
              let e : next ≡ current = ground arith in
              inr (
                rw (taken, some_range, back, scan) (ap full e),
                all-Taken current k o hc
                    (At-back range current k (subst (At range current (k + 1)) e at') hc hk) at
                    taken seen,
              )
          | inr on ↦
              let more : k + 1 < range = ground arith in
              rw (taken, some_range, on, scan)
                (scan_from f current (k + 1) next pos hc more (omega arith) at'
                  (extend current k o at taken seen))
        ]
      ]

  -- The loop of `get`, from an offset inside the range, ends within `max - min + 1` rounds: at an
  -- offset whose address is not in the store, or back at the start when every address of the range
  -- is in the store.
  pub scan_ends :
      p.offset < range
      → ((r : ℕ) × (scan st (range + 1) p p.offset p.offset ≡ free r)
          × (r < range)
          × (st.exist (address st p r) p.store ≡ false))
        ⊎ ((scan st (range + 1) p p.offset p.offset ≡ full p.offset)
            × ((q : ℕ) → q < range → Taken q))
  scan_ends h =
      scan_from (range + 1) p.offset 0 p.offset (omega arith) h (omega arith) (omega arith)
        (h, inl (omega arith)) (λ j q lt. absurd (omega arith))
