-- ===== src/Socks5/Streams.antt =====
-- What is read from a stream that starts with an address.
use clash_flt.Prelude.{
  ℕ, suc, ◌+◌, ◌≡◌, ◌⊎◌, inl, inr, refl, sym, ap, subst, ◌∙◌, false, some, [], ◌∷◌, ◌++◌, arith,
  ltb, ◌==◌, Bool-cases, length, length-append, take, drop,
}
use clash_flt.Metadata.{atyp_ipv4, atyp_domain_name, atyp_ipv6}
use clash_flt.Socks5.{
  Bytes, Conn, ok, read_full, read_rest, read_domain, read_by_type, read_addr, addr_len, split_addr,
  max_addr_len,
}
use clash_flt.Socks5.Addresses.{
  take-length-append, drop-length-append, split_addr-some, length-take,
}

pub read_full-append :
    (a rest : Bytes) (c : Conn) (n : ℕ)
    → length a ≡ n
    → read_full n (record c { input = a ++ rest }) ≡ (ok a, record c { input = rest })
unfolding read_full
read_full-append a rest c n size =
    let long : ltb (length (a ++ rest)) n ≡ false = ground (arith, length-append a rest, size) in
    let one : take n (a ++ rest) ≡ a =
      subst (λ k. take k (a ++ rest) ≡ a) size (take-length-append a rest) in
    let two : drop n (a ++ rest) ≡ rest =
      subst (λ k. drop k (a ++ rest) ≡ rest) size (drop-length-append a rest) in
    rw (long, one, two) refl

read_rest-append :
    (head a rest : Bytes) (c : Conn) (n : ℕ)
    → length a ≡ n
    → read_rest head n (record c { input = a ++ rest })
      ≡ (ok (head ++ a), record c { input = rest })
unfolding read_rest
read_rest-append head a rest c n size = rw (read_full-append a rest c n size) refl

addr_len-shape :
    (t : ℕ) (a : Bytes)
    → addr_len (t ∷ a) ≡ some (suc (length a))
    → ((t ≡ atyp_domain_name) × (m : ℕ) × (b : Bytes) × (a ≡ m ∷ b) × (length b ≡ m + 2))
      ⊎ ((t ≡ atyp_ipv4) × (length a ≡ 6))
      ⊎ ((t ≡ atyp_ipv6) × (length a ≡ 18))
unfolding addr_len
addr_len-shape t [] h = absurd (ground arith)
addr_len-shape t (m ∷ b) h = elim (Bool-cases (t == atyp_domain_name)) [
  | inl name ↦ inl (ground arith, m, b, refl, ground arith)
  | inr other ↦ elim (Bool-cases (t == atyp_ipv4)) [
    | inl four ↦ inr (inl (ground arith, ground arith))
    | inr six ↦ inr (inr (ground arith, ground arith))
  ]
]

read_by_type-append :
    (t : ℕ) (a rest : Bytes) (c : Conn)
    → addr_len (t ∷ a) ≡ some (suc (length a))
    → read_by_type t (record c { input = a ++ rest }) ≡ (ok (t ∷ a), record c { input = rest })
unfolding read_by_type read_domain
read_by_type-append t a rest c h = elim (addr_len-shape t a h) [
  | inl (name, m, b, shape, size) ↦
      rw (name, shape, read_full-append (m ∷ []) (b ++ rest) c 1 refl)
        (read_rest-append (atyp_domain_name ∷ m ∷ []) b rest c (m + 2) size)
  | inr (inl (four, size)) ↦ rw four (read_rest-append (atyp_ipv4 ∷ []) a rest c 6 size)
  | inr (inr (six, size)) ↦ rw six (read_rest-append (atyp_ipv6 ∷ []) a rest c 18 size)
]

addr_len-exact : (a : Bytes) → split_addr a ≡ some a → addr_len a ≡ some (length a)
addr_len-exact a e =
    let (n, found, bound, is) = split_addr-some a a e in
    found ∙ ap some (sym (ap length is ∙ length-take n a bound))

-- From a stream that starts with an address that `SplitAddr` takes whole, `ReadAddr` reads that
-- address and leaves the rest.
pub read_addr-append :
    (a rest : Bytes) (c : Conn)
    → split_addr a ≡ some a
    → read_addr max_addr_len (record c { input = a ++ rest }) ≡ (ok a, record c { input = rest })
unfolding read_addr addr_len
read_addr-append [] rest c e = absurd (ground (arith, addr_len-exact [] e))
read_addr-append (t ∷ a) rest c e =
    rw (read_full-append (t ∷ []) (a ++ rest) c 1 refl)
      (read_by_type-append t a rest c (addr_len-exact (t ∷ a) e))
