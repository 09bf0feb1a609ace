-- ===== src/Alloc/Sizes.antt =====
-- Which buffer a request gets.
use native.Mathlib.Decide.{dec_lt}
use native.Mathlib.Nat.{pow-suc, pow-le-pow_right}
use clash_flt.Prelude.{
  ℕ, zero, suc, ◌+◌, ◌-◌, ◌*◌, ◌/◌, ◌%◌, ◌^◌, ◌≡◌, ◌≤◌, ◌<◌, ◌∙◌, refl, sym, ap, inl, inr, false,
  some, List, [], ◌∷◌, ◌==◌, if◌then◌else◌, get_elem?, All, arith, Bool-cases, Option-cases, subst,
}
use clash_flt.Alloc.{
  Buffer, Allocator, bit_length, msb, remove_at, update, take_buffer, reslice, from_class, get, put,
}

-- The buffers of each class have its size.
abbrev pub IsValid : Allocator → Type 0
IsValid a = (k : ℕ) → All (λ b. b.cap ≡ 2 ^ k) (a.buffers k)

bit_length_zero : (fuel : ℕ) → bit_length fuel 0 ≡ 0
unfolding bit_length
bit_length_zero zero = refl
bit_length_zero (suc fuel) = refl

bit_length-le : (fuel n : ℕ) → bit_length fuel n ≤ fuel
unfolding bit_length
bit_length-le zero n = omega arith
bit_length-le (suc fuel) n = ground (arith, bit_length-le fuel (n / 2))

-- A positive number of few bits lies between two powers of two.
Between : ℕ → ℕ → Type 0
Between n length = (k : ℕ) × (length ≡ suc k) × (2 ^ k ≤ n) × (n < 2 ^ suc k)

bit_length-Between : (fuel n : ℕ) → 0 < n → n < 2 ^ fuel → Between n (bit_length fuel n)
unfolding bit_length Between
bit_length-Between zero n p small = absurd (omega arith)
bit_length-Between (suc fuel) n p small = elim (dec_lt 1 n) [
  | no one ↦
      let half : n / 2 ≡ 0 = omega arith in
      (0, ground (arith, bit_length_zero fuel, ap (bit_length fuel) half), omega arith, omega arith)
  | yes more ↦
      let (k, e, low, high) =
        bit_length-Between fuel (n / 2) (omega arith) (omega (arith, pow-suc 2 fuel)) in
      (suc k, ground (arith, e), omega (arith, pow-suc 2 k), omega (arith, pow-suc 2 (suc k)))
]

msb-Between :
    (size : ℕ) → 0 < size → size ≤ 65536 → (2 ^ msb size ≤ size) × (size < 2 ^ suc (msb size))
unfolding msb Between
msb-Between size p small =
    let whole : size % 2 ^ 32 ≡ size = omega arith in
    let (k, e, low, high) = bit_length-Between 32 size p (omega arith) in
    let msb_is : msb size ≡ k =
      ap (λ n. (bit_length 32 n + 2 ^ 16 - 1) % 2 ^ 16) whole
      ∙ omega (arith, bit_length-le 32 size) in
    (subst (λ j. 2 ^ j ≤ size) (sym msb_is) low, subst (λ j. size < 2 ^ suc j) (sym msb_is) high)

All-remove_at : (P : Buffer → Type 0) (i : ℕ) (l : List Buffer) → All P l → All P (remove_at i l)
unfolding remove_at
All-remove_at P i [] all = tt
All-remove_at P zero (b ∷ l) all = all.1
All-remove_at P (suc i) (b ∷ l) all = (all.0, All-remove_at P i l all.1)

All-get_elem? :
    (P : Buffer → Type 0) (i : ℕ) (l : List Buffer) (b : Buffer)
    → All P l
    → get_elem? l i ≡ some b
    → P b
All-get_elem? P i [] b all e = absurd (ground arith)
All-get_elem? P zero (c ∷ l) b all e = subst P (ground arith) all.0
All-get_elem? P (suc i) (c ∷ l) b all e = All-get_elem? P i l b all.1 e

IsValid-update :
    (a : Allocator) (k : ℕ) (l : List Buffer)
    → IsValid a
    → All (λ b. b.cap ≡ 2 ^ k) l
    → IsValid (record { buffers = update a.buffers k l })
IsValid-update a k l valid all j = elim (Bool-cases (k == j)) [
  | inl same ↦ rw same (subst (λ i. All (λ b. b.cap ≡ 2 ^ i) l) (ground arith) all)
  | inr differ ↦ rw differ (valid j)
]

-- What `Get` of a class gives.
take_buffer-cap :
    (chance k : ℕ) (a : Allocator)
    → IsValid a
    → ((take_buffer chance k a).1.cap ≡ 2 ^ k) × IsValid (take_buffer chance k a).0
unfolding take_buffer
take_buffer-cap chance k a valid = elim (Option-cases (get_elem? (a.buffers k) chance)) [
  | inl made ↦ rw (made, take_buffer) (refl, valid)
  | inr (b, there) ↦
      rw (there, take_buffer)
        (
          All-get_elem? (λ b. b.cap ≡ 2 ^ k) chance (a.buffers k) b (valid k) there,
          IsValid-update a k (remove_at chance (a.buffers k)) valid
              (All-remove_at (λ b. b.cap ≡ 2 ^ k) chance (a.buffers k) (valid k)),
        )
]

-- The class that a size asks for.
abbrev class_of : ℕ → ℕ
class_of size = if size == 2 ^ msb size then msb size else msb size + 1

get-class :
    (chance size : ℕ) (a : Allocator)
    → 0 < size
    → size ≤ 65536
    → get chance size a ≡ from_class chance size (class_of size) a
unfolding get
get-class chance size a p small = ground arith

class_of-bounds :
    (size : ℕ)
    → 0 < size
    → size ≤ 65536
    → (size ≤ 2 ^ class_of size) × (2 ^ class_of size < 2 * size)
class_of-bounds size p small =
    let (low, high) = msb-Between size p small in
    elim (Bool-cases (size == 2 ^ msb size)) [
      | inl exact ↦ rw exact (ground arith, ground arith)
      | inr above ↦ rw above (ground arith, ground (arith, pow-suc 2 (msb size)))
    ]

two_pow-le : (i j : ℕ) → i ≤ j → 2 ^ i ≤ 2 ^ j
two_pow-le i j le = pow-le-pow_right (omega arith) le

power-lt : (k j : ℕ) → 2 ^ k < 2 ^ j → k < j
power-lt k j lt = elim (dec_lt k j) [
  | yes less ↦ less
  | no more ↦ absurd (omega (arith, two_pow-le j k (omega arith)))
]

class_of-lt : (size : ℕ) → 0 < size → size ≤ 65536 → class_of size < 17
class_of-lt size p small =
    let (low, high) = msb-Between size p small in
    elim (Bool-cases (size == 2 ^ msb size)) [
      | inl exact ↦ rw exact (power-lt (msb size) 17 (omega arith))
      | inr above ↦
          let less : msb size < 16 = power-lt (msb size) 16 (ground arith) in rw above (omega arith)
    ]

msb-power : (k : ℕ) → k < 17 → msb (2 ^ k) ≡ k
msb-power k small =
    let positive : 0 < 2 ^ k = omega (arith, two_pow-le 0 k (omega arith)) in
    let (low, high) = msb-Between (2 ^ k) positive (two_pow-le k 16 (omega arith)) in
    omega (
      arith,
      power-lt k (suc (msb (2 ^ k))) high,
      power-lt (msb (2 ^ k)) (suc k) (omega (arith, pow-suc 2 k)),
    )

-- What a request from a class gives, if the class has the capacity.
from_class-buffer :
    (chance size k : ℕ) (a : Allocator)
    → IsValid a
    → k < 17
    → size ≤ 2 ^ k
    → (a' : Allocator) × (b : Buffer) × (from_class chance size k a ≡ some (a', b))
      × (b.len ≡ size)
      × (b.cap ≡ 2 ^ k)
      × IsValid a'
unfolding from_class reslice
from_class-buffer chance size k a valid few fits =
    let (cap, kept) = take_buffer-cap chance k a valid in
    let taken = take_buffer chance k a in
    (taken.0, record taken.1 { len = size }, ground arith, refl, cap, kept)

put-class :
    (b : Buffer) (k : ℕ) (a : Allocator)
    → IsValid a
    → k < 17
    → b.cap ≡ 2 ^ k
    → (a' : Allocator) × (put b a ≡ some (a', false)) × IsValid a'
unfolding put
put-class b k a valid few cap =
    let k_is : msb b.cap ≡ k = ap msb cap ∙ msb-power k few in
    let exact : b.cap ≡ 2 ^ msb b.cap = cap ∙ ap (λ j. 2 ^ j) (sym k_is) in
    let small : 2 ^ k ≤ 65536 = two_pow-le k 16 (omega arith) in
    let positive : 0 < 2 ^ k = omega (arith, two_pow-le 0 k (omega arith)) in
    (
      record { buffers = update a.buffers (msb b.cap) (b ∷ a.buffers (msb b.cap)) },
      ground arith,
      IsValid-update a (msb b.cap) (b ∷ a.buffers (msb b.cap)) valid (exact, valid (msb b.cap)),
    )

-- From an allocator whose classes have buffers of their size, a request for 1 to 65536 bytes gets a
-- buffer of that length whose capacity is at least that and less than twice that; the allocator
-- takes it back without an error, and its classes keep their sizes.
pub put-get :
    (chance size : ℕ) (a : Allocator)
    → IsValid a
    → 0 < size
    → size ≤ 65536
    → (a' a'' : Allocator) × (b : Buffer) × (get chance size a ≡ some (a', b))
      × (b.len ≡ size)
      × (size ≤ b.cap)
      × (b.cap < 2 * size)
      × IsValid a'
      × (put b a' ≡ some (a'', false))
      × IsValid a''
put-get chance size a valid p small =
    let (fits, waste) = class_of-bounds size p small in
    let few = class_of-lt size p small in
    let (a', b, e, len, cap, kept) =
      from_class-buffer chance size (class_of size) a valid few fits in
    let (a'', back, kept') = put-class b (class_of size) a' kept few cap in
    (
      a',
      a'',
      b,
      get-class chance size a p small ∙ e,
      len,
      subst (λ n. size ≤ n) (sym cap) fits,
      subst (λ n. n < 2 * size) (sym cap) waste,
      kept,
      back,
      kept',
    )
