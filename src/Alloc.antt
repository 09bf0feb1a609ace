-- ===== src/Alloc.antt =====
-- common/pool/alloc.go: byte buffers of 17 sizes, from one byte to 64 KiB, that are used again.
--
-- A buffer is its capacity and its length. A `sync.Pool` is a list of buffers; which one it gives, or
-- whether it makes a new one, is the reading `chance`: the number of the buffer in the list.
pub mod Sizes
use clash_flt.Prelude.{
  ℕ, zero, suc, ◌+◌, ◌-◌, ◌*◌, ◌/◌, ◌%◌, ◌^◌, ◌≡◌, Bool, true, false, ◌||◌, Option, none, some,
  List, [], ◌∷◌, ltb, ◌==◌, if◌then◌else◌, get_elem?,
}

pub record Buffer : Type 0 where
  pub cap : ℕ
  pub len : ℕ

pub record Allocator : Type 0 where
  pub buffers : ℕ → List Buffer

unfoldable pub new_allocator : Allocator
new_allocator = record { buffers = λ k. [] }

-- `bits.Len32`: the number of bits of a 32-bit number.
unfoldable pub bit_length : ℕ → ℕ → ℕ
bit_length zero n = 0
bit_length (suc fuel) n = let rest = bit_length fuel (n / 2) in if n == 0 then 0 else suc rest

abbrev pub len32 : ℕ → ℕ
len32 n = bit_length 32 (n % 2 ^ 32)

unfoldable pub msb : ℕ → ℕ
msb size = (len32 size + 2 ^ 16 - 1) % 2 ^ 16

abbrev pub new_buffer : ℕ → Buffer
new_buffer k = record { cap = 2 ^ k; len = 2 ^ k }

unfoldable pub remove_at : ℕ → List Buffer → List Buffer
remove_at i [] = []
remove_at zero (b ∷ l) = l
remove_at (suc i) (b ∷ l) = b ∷ remove_at i l

abbrev pub update : (ℕ → List Buffer) → ℕ → List Buffer → ℕ → List Buffer
update f k l j = if k == j then l else f j

-- `Get` of the pool of class `k`.
unfoldable pub take_buffer : ℕ → ℕ → Allocator → Allocator × Buffer
take_buffer chance k a = elim (get_elem? (a.buffers k) chance) [
  | none ↦ (a, new_buffer k)
  | some b ↦ (record { buffers = update a.buffers k (remove_at chance (a.buffers k)) }, b)
]

-- `buf[:size]`, which panics beyond the capacity.
unfoldable pub reslice : ℕ → Allocator × Buffer → Option (Allocator × Buffer)
reslice size (a, b) = if ltb b.cap size then none else some (a, record b { len = size })

-- There are 17 classes: an index beyond them panics.
unfoldable pub from_class : ℕ → ℕ → ℕ → Allocator → Option (Allocator × Buffer)
from_class chance size k a = if ltb k 17 then reslice size (take_buffer chance k a) else none

-- `none` is a panic; a nil slice has no capacity. Sizes below 0, which panic, are not numbers here.
unfoldable pub get : ℕ → ℕ → Allocator → Option (Allocator × Buffer)
get chance size a =
    if size == 0
    then some (a, record { cap = 0; len = 0 })
    else if ltb 65536 size
    then some (a, record { cap = size; len = size })
    else let bits = msb size in
      if size == 2 ^ bits
      then from_class chance size bits a
      else from_class chance size (bits + 1) a

-- `none` is a panic, and the flag is the error "incorrect buffer size".
unfoldable pub put : Buffer → Allocator → Option (Allocator × Bool)
put b a =
    if b.cap == 0 || ltb 65536 b.cap
    then some (a, false)
    else let bits = msb b.cap in
      if b.cap == 2 ^ bits
      then if ltb bits 17
        then some (record { buffers = update a.buffers bits (b ∷ a.buffers bits) }, false)
        else none
      else some (a, true)
