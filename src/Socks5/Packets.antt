-- ===== src/Socks5/Packets.antt =====
-- The encoding and the decoding of UDP packets, one against the other.
use clash_flt.Prelude.{
  ℕ, ◌+◌, ◌≤◌, ◌<◌, ◌≡◌, refl, sym, ap, subst, ◌∙◌, false, none, some, [], ◌∷◌, ◌++◌, arith, ltb,
  ◌==◌, if◌then◌else◌, length, length-append,
}
use clash_flt.Socks5.{
  Bytes, split_addr, Protobytes, addr_size, decode_header, decode_fragment, decode_reserved,
  decode_udp_packet, is_zeros, encode_udp_packet, failed, insufficient_length, fragmented,
  reserved_not_zero,
}
use clash_flt.Socks5.Addresses.{split_addr-append, split_addr-prefix}

some_injective : {A : Type 0} {x y : A} → some x ≡ some y → x ≡ y
some_injective e = ground arith

module _ (w : Protobytes) (put_slice-append : (a b : Bytes) → w.put_slice a b ≡ a ++ b)
    (split_at-append : (a b : Bytes) → w.split_at (length a) (a ++ b) ≡ (a, b))
    (read_uint8-cons : (x : ℕ) (b : Bytes) → w.read_uint8 (x ∷ b) ≡ (x, b)) where
  encode_udp_packet-bytes :
      (a payload : Bytes) → encode_udp_packet w (some a) payload ≡ some (0 ∷ 0 ∷ 0 ∷ a ++ payload)
  unfolding encode_udp_packet
  encode_udp_packet-bytes a payload = ap some (
      put_slice-append (w.put_slice (w.put_slice [] (0 ∷ 0 ∷ 0 ∷ [])) a) payload
      ∙ ap (λ z. z ++ payload)
          (put_slice-append (w.put_slice [] (0 ∷ 0 ∷ 0 ∷ [])) a
            ∙ ap (λ z. z ++ a) (put_slice-append [] (0 ∷ 0 ∷ 0 ∷ []))))

  decode_udp_packet-zeros :
      (b : Bytes) → 2 ≤ length b → decode_udp_packet w (0 ∷ 0 ∷ 0 ∷ b) ≡ decode_header w b
  unfolding decode_udp_packet decode_reserved decode_fragment is_zeros
  decode_udp_packet-zeros b h =
      let long : ltb (length (0 ∷ 0 ∷ 0 ∷ b)) 5 ≡ false = ground arith in
      let parts = split_at-append (0 ∷ 0 ∷ []) (0 ∷ b) in
      rw (long, parts, decode_udp_packet, decode_reserved)
        (rw (read_uint8-cons 0 b, decode_fragment) refl)

  decode_header-append :
      (a payload : Bytes)
      → split_addr a ≡ some a
      → decode_header w (a ++ payload) ≡ record { addr = some a; payload = payload; error = none }
  unfolding decode_header addr_size
  decode_header-append a payload e =
      rw (split_addr-append a payload e, split_at-append a payload, decode_header, addr_size) refl

  -- A packet that is encoded for a whole SOCKS address decodes to that address and its payload,
  -- without an error.
  pub decode_udp_packet-encode_udp_packet :
      (a payload packet : Bytes)
      → split_addr a ≡ some a
      → encode_udp_packet w (some a) payload ≡ some packet
      → decode_udp_packet w packet ≡ record { addr = some a; payload = payload; error = none }
  decode_udp_packet-encode_udp_packet a payload packet e is =
      let (rest, whole, again, least) = split_addr-prefix a a e in
      let bytes : 0 ∷ 0 ∷ 0 ∷ a ++ payload ≡ packet =
        some_injective (sym (encode_udp_packet-bytes a payload) ∙ is) in
      subst (λ z. decode_udp_packet w z ≡ record { addr = some a; payload = payload; error = none })
        bytes
        (decode_udp_packet-zeros (a ++ payload) (omega (arith, least, length-append a payload))
          ∙ decode_header-append a payload e)

  decode_udp_packet-formula :
      (x y z : ℕ) (b : Bytes)
      → decode_udp_packet w (x ∷ y ∷ z ∷ b) ≡ (
          if ltb (length b + 3) 5
          then failed insufficient_length
          else if is_zeros (x ∷ y ∷ [])
          then (if z == 0 then decode_header w b else failed fragmented)
          else failed reserved_not_zero)
  unfolding decode_udp_packet decode_reserved decode_fragment
  decode_udp_packet-formula x y z b =
      rw (split_at-append (x ∷ y ∷ []) (z ∷ b), read_uint8-cons z b) (ground arith)

  decode_udp_packet-short :
      (b : Bytes) → length b < 5 → decode_udp_packet w b ≡ failed insufficient_length
  unfolding decode_udp_packet
  decode_udp_packet-short b h = ground arith

  decode_udp_packet-header :
      (x y z : ℕ) (b : Bytes)
      → (decode_udp_packet w (x ∷ y ∷ z ∷ b)).error ≡ none
      → (x ≡ 0) × (y ≡ 0) × (z ≡ 0) × (decode_udp_packet w (x ∷ y ∷ z ∷ b) ≡ decode_header w b)
  unfolding is_zeros
  decode_udp_packet-header x y z b e =
      let f = decode_udp_packet-formula x y z b in ground (arith, f, ap (λ d. d.error) f)

  decode_header-parts :
      (a payload b : Bytes)
      → decode_header w b ≡ record { addr = some a; payload = payload; error = none }
      → b ≡ a ++ payload
  unfolding decode_header addr_size
  decode_header-parts a payload b e =
      let found : split_addr b ≡ some a = ap (λ d. d.addr) e in
      let (rest, whole, again, least) = split_addr-prefix b a found in
      let tail : (w.split_at (addr_size (split_addr b)) b).1 ≡ payload = ap (λ d. d.payload) e in
      let cut : (w.split_at (addr_size (split_addr b)) b).1 ≡ rest =
        rw (found, addr_size) (rw whole (ap (λ r. r.1) (split_at-append a rest))) in
      whole ∙ ap (λ z. a ++ z) (sym cut ∙ tail)

  -- A packet that decodes without an error is the encoding of the decoded address and payload.
  pub encode_udp_packet-decode_udp_packet :
      (a payload packet : Bytes)
      → decode_udp_packet w packet ≡ record { addr = some a; payload = payload; error = none }
      → encode_udp_packet w (some a) payload ≡ some packet
  encode_udp_packet-decode_udp_packet a payload [] e =
      absurd (ground (arith, ap (λ d. d.error) (sym e ∙ decode_udp_packet-short [] (omega arith))))
  encode_udp_packet-decode_udp_packet a payload (x ∷ []) e =
      absurd
        (ground (arith, ap (λ d. d.error) (sym e ∙ decode_udp_packet-short (x ∷ []) (omega arith))))
  encode_udp_packet-decode_udp_packet a payload (x ∷ y ∷ []) e = absurd (
      ground
        (arith, ap (λ d. d.error) (sym e ∙ decode_udp_packet-short (x ∷ y ∷ []) (omega arith))))
  encode_udp_packet-decode_udp_packet a payload (x ∷ y ∷ z ∷ b) e =
      let (ex, ey, ez, is) = decode_udp_packet-header x y z b (ap (λ d. d.error) e) in
      let whole = decode_header-parts a payload b (sym is ∙ e) in
      encode_udp_packet-bytes a payload ∙ ap some (ground (arith, ex, ey, ez, whole))
