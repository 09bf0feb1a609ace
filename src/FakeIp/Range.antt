-- ===== src/FakeIp/Range.antt =====
-- `New`: the range of a pool lies inside its net, and holds no reserved address.
use clash_flt.Prelude.{
  ℕ, zero, suc, subst, ◌+◌, ◌-◌, ◌*◌, ◌^◌, ◌≤◌, ◌<◌, ◌≡◌, refl, sym, ap, ◌∙◌, inl, inr, Option,
  some, [], ◌∷◌, arith,
}
use clash_flt.Lru
use native.Mathlib.Nat.{pow-suc}
use clash_flt.Lru.{with_size, apply_option, apply_options}
use clash_flt.Lru.Operations.{new-Shows}
use clash_flt.Trie.{Node}
use clash_flt.FakeIp.{Ipv4, Key, u32, add32, sub32, ip_to_uint, MemoryStore, Pool, address, new}
use clash_flt.FakeIp.Address.{ip_to_uint-uint_to_ip, ip_to_uint-lt, add32-lt}
use clash_flt.FakeIp.Memory.{Holds}
use clash_flt.FakeIp.Trimming.{Bounded}
use clash_flt.FakeIp.Assign.{IsValid, InRange}

-- A net of `width` addresses from `base` that fits below 2 ^ 32.
abbrev pub Net : Ipv4 → ℕ → Type 0
Net ip width = ip_to_uint ip + width ≤ u32

pow-pos : (k : ℕ) → 0 < 2 ^ k
pow-pos zero = omega arith
pow-pos (suc k) = omega (arith, pow-suc 2 k, pow-pos k)

four-le-pow : (k : ℕ) → 2 < 2 ^ k → 4 ≤ 2 ^ k
four-le-pow zero h = absurd (omega arith)
four-le-pow (suc zero) h = absurd (omega arith)
four-le-pow (suc (suc k)) h = omega (arith, pow-suc 2 k, pow-suc 2 (suc k), pow-pos k)

empty-Bounded : (size : ℕ) → Bounded size []
empty-Bounded zero = inl refl
empty-Bounded (suc s) = inr (omega arith)

module _ (ip : Ipv4) (ones bits : ℕ) (host : Option (Node (Unit {0}))) (size : ℕ)
    (p : Pool MemoryStore) (net : Net ip (2 ^ (bits - ones)))
    (made : new ip ones bits host size ≡ some p) where
  new_width : 2 < 2 ^ (bits - ones)
  unfolding new
  new_width = ground arith

  new_min : p.min ≡ ip_to_uint ip + 2
  unfolding new add32
  new_min = ground (arith, new_width)

  new_max : p.max + 1 ≡ ip_to_uint ip + 2 ^ (bits - ones)
  unfolding new add32 sub32
  new_max = ground (arith, new_width)

  new_rest :
      (p.gateway ≡ ip_to_uint ip + 1)
      × (p.offset ≡ 0)
      × (p.store ≡ Lru.new (with_size (size * 2) ∷ []))
  unfolding new add32 sub32
  new_rest = ground (arith, new_width)

  new_wide : 4 ≤ 2 ^ (bits - ones)
  new_wide = four-le-pow (bits - ones) new_width

  new_range : sub32 p.max p.min + 3 ≡ 2 ^ (bits - ones)
  unfolding sub32
  new_range = omega (arith, new_min, new_max, new_wide, ip_to_uint-lt ip)

  module _ (dec : Discrete Key) where
    -- The pool that `New` builds for a net of IPv4 addresses is valid and empty: its range has an
    -- address, so that no offset is divided by zero.
    pub new-IsValid : IsValid dec size p []
    new-IsValid = record {
      holds =
          subst (λ m. Holds dec size m []) (sym new_rest.2)
            (record {
              shows =
                  unfold apply_options apply_option Lru.new in
                  new-Shows dec (with_size (size * 2) ∷ []);
              paired = tt;
              bounded = empty-Bounded size;
            });
      in_range = omega (arith, new_rest, new_range, new_wide);
    }

    -- Every address of the range of a pool that `New` builds lies in the net, behind the net's own
    -- address and the gateway, and before the broadcast address.
    pub InRange-new :
        (a : Ipv4)
        → InRange dec p a
        → (p.gateway ≡ ip_to_uint ip + 1)
          × (p.gateway < ip_to_uint a)
          × (ip_to_uint a + 1 < ip_to_uint ip + 2 ^ (bits - ones))
    unfolding address
    InRange-new a (o, ho, e) =
        let number : ip_to_uint a ≡ add32 p.min o =
          ap ip_to_uint e ∙ ip_to_uint-uint_to_ip (add32 p.min o) (add32-lt p.min o) in
        let plain : add32 p.min o ≡ p.min + o = unfold add32 in omega (arith, new_min, new_range) in
        omega (arith, number, plain, new_rest, new_min, new_range)
