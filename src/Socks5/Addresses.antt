-- ===== src/Socks5/Addresses.antt =====
-- The two readers of a SOCKS address, from a stream and from a slice.
use clash_flt.Prelude.{
  ℕ, zero, suc, ◌≤◌, ◌≡◌, inl, inr, refl, sym, ap, subst, ◌∙◌, some, [], ◌∷◌, ◌++◌, arith,
  Option-cases, length, length-append, take, drop,
}
use clash_flt.Socks5.{Bytes, addr_len, split_addr}

pub take-length-append : (xs ys : Bytes) → take (length xs) (xs ++ ys) ≡ xs
take-length-append [] ys = refl
take-length-append (x ∷ xs) ys = ap (◌∷◌ x) (take-length-append xs ys)

pub drop-length-append : (xs ys : Bytes) → drop (length xs) (xs ++ ys) ≡ ys
drop-length-append [] ys = refl
drop-length-append (x ∷ xs) ys = drop-length-append xs ys

take-drop : (n : ℕ) (xs : Bytes) → xs ≡ take n xs ++ drop n xs
take-drop zero xs = refl
take-drop (suc n) [] = refl
take-drop (suc n) (x ∷ xs) = ap (◌∷◌ x) (take-drop n xs)

pub length-take : (n : ℕ) (xs : Bytes) → n ≤ length xs → length (take n xs) ≡ n
length-take zero xs h = refl
length-take (suc n) [] h = absurd (omega arith)
length-take (suc n) (x ∷ xs) h = ap suc (length-take n xs (omega arith))

-- A prefix of bytes has the length that its first bytes say.
addr_len-append : (a b : Bytes) (n : ℕ) → addr_len a ≡ some n → addr_len (a ++ b) ≡ some n
unfolding addr_len
addr_len-append [] b n h = absurd (ground arith)
addr_len-append (t ∷ []) b n h = ground arith
addr_len-append (t ∷ m ∷ a) b n h = h

split_addr-length :
    (b a : Bytes) (n : ℕ)
    → addr_len b ≡ some n
    → split_addr b ≡ some a
    → (n ≤ length b) × (a ≡ take n b)
unfolding split_addr
split_addr-length b a n h e = ground arith

pub split_addr-some :
    (b a : Bytes)
    → split_addr b ≡ some a
    → (n : ℕ) × (addr_len b ≡ some n) × (n ≤ length b) × (a ≡ take n b)
unfolding split_addr
split_addr-some b a e = elim (Option-cases (addr_len b)) [
  | inl missing ↦ absurd (ground arith)
  | inr (n, found) ↦ let (bound, is) = split_addr-length b a n found e in (n, found, bound, is)
]

-- An address that stands at the front of some bytes is split off whole.
pub split_addr-append : (a b : Bytes) → split_addr a ≡ some a → split_addr (a ++ b) ≡ some a
unfolding split_addr
split_addr-append a b e =
    let (n, found, bound, is) = split_addr-some a a e in
    let all : length a ≡ n = ap length is ∙ length-take n a bound in
    let front : take n (a ++ b) ≡ a =
      subst (λ k. take k (a ++ b) ≡ a) all (take-length-append a b) in
    ground (arith, addr_len-append a b n found, length-append a b, all, ap some front)

addr_len-min : (b : Bytes) (n : ℕ) → addr_len b ≡ some n → 4 ≤ n
unfolding addr_len
addr_len-min [] n h = absurd (ground arith)
addr_len-min (t ∷ []) n h = ground arith
addr_len-min (t ∷ m ∷ b) n h = ground arith

addr_len-take_two : (k : ℕ) (b : Bytes) → addr_len (take (suc (suc k)) b) ≡ addr_len b
unfolding addr_len
addr_len-take_two k [] = refl
addr_len-take_two k (t ∷ []) = refl
addr_len-take_two k (t ∷ m ∷ b) = refl

addr_len-take : (n : ℕ) (b : Bytes) → 2 ≤ n → addr_len (take n b) ≡ addr_len b
addr_len-take zero b h = absurd (omega arith)
addr_len-take (suc zero) b h = absurd (omega arith)
addr_len-take (suc (suc k)) b h = addr_len-take_two k b

take-all : (xs : Bytes) → take (length xs) xs ≡ xs
take-all [] = refl
take-all (x ∷ xs) = ap (◌∷◌ x) (take-all xs)

split_addr-exact : (a : Bytes) → addr_len a ≡ some (length a) → split_addr a ≡ some a
unfolding split_addr
split_addr-exact a h = ground (arith, ap some (take-all a))

-- What is split off is an address, and the bytes after it are the rest.
pub split_addr-prefix :
    (b a : Bytes)
    → split_addr b ≡ some a
    → (rest : Bytes) × (b ≡ a ++ rest) × (split_addr a ≡ some a) × (4 ≤ length a)
split_addr-prefix b a e =
    let (n, found, bound, is) = split_addr-some b a e in
    let least = addr_len-min b n found in
    let size : length a ≡ n = ap length is ∙ length-take n b bound in
    (
      drop n b,
      take-drop n b ∙ ap (λ z. z ++ drop n b) (sym is),
      split_addr-exact a
          (ap addr_len is ∙ addr_len-take n b (omega (arith, least)) ∙ found ∙ ap some (sym size)),
      omega (arith, least, size),
    )
