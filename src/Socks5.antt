-- ===== src/Socks5.antt =====
-- transport/socks5/socks5.go: the addresses and the UDP packets of the protocol.
--
-- A connection is the bytes that are still to be read, those that were written, and the number of
-- writes that succeed. The byte readers and writers of the protobytes package, and the parsing of
-- addresses, are arguments.
pub mod Handshake
pub mod Addresses
pub mod Packets
pub mod Streams
pub mod Agreement
use clash_flt.Prelude.{
  ℕ, zero, suc, ◌+◌, ◌*◌, ◌/◌, ◌%◌, ◌^◌, ◌==◌, ◌≡◌, Bool, true, false, Option, none, some, List, [],
  ◌∷◌, ◌++◌, ltb, leb, if◌then◌else◌, length, take, drop,
}
use clash_flt.Prelude.Text.{Text}
use clash_flt.FakeIp.{to4}
use clash_flt.Metadata.{Ip, atyp_ipv4, atyp_domain_name, atyp_ipv6}
use clash_flt.Rule.Parse.{parse_port}

abbrev pub Bytes : Type 0
Bytes = List ℕ

abbrev pub Addr : Type 0
Addr = Bytes

abbrev pub max_addr_len : ℕ
max_addr_len = 1 + 1 + 255 + 2

abbrev pub max_auth_len : ℕ
max_auth_len = 255

pub data SocksError : Type 0 where
  unexpected_eof write_failed short_buffer err_auth address_not_supported : SocksError
  command_not_supported version_error rejected need_auth : SocksError

pub record Conn : Type 0 where
  pub input : Bytes
  pub output : Bytes
  pub writes : ℕ

pub data Result (A : Type 0) : Type 0 where
  ok : A → Result A
  err : SocksError → Result A

-- `io.ReadFull` into a slice of the given length.
unfoldable pub read_full : ℕ → Conn → Result Bytes × Conn
read_full n c =
    if ltb (length c.input) n
    then (err unexpected_eof, record c { input = [] })
    else (ok (take n c.input), record c { input = drop n c.input })

unfoldable pub write : Bytes → Conn → Result Bytes × Conn
write b c = elim c.writes [
  | zero ↦ (err write_failed, c)
  | suc n ↦ (ok b, record c { output = c.output ++ b; writes = n })
]

-- The steps after a step, which are left out if it fails.
infixl 5 ◌>>=◌
abbrev pub ◌>>=◌ : {A B : Type 0} → Result A × Conn → (A × Conn → Result B × Conn) → Result B × Conn
r >>= next = elim r.0 [ err e ↦ (err e, r.1) | ok a ↦ next (a, r.1) ]

-- The byte at an index that the source reads after it has read that many bytes.
abbrev pub byte_of : Bytes → ℕ
byte_of [] = 0
byte_of (b ∷ _) = b

unfoldable pub read_rest : Bytes → ℕ → Conn → Result Addr × Conn
read_rest head n c = do (b, c') ← read_full n c; (ok (head ++ b), c')

unfoldable pub read_domain : Conn → Result Addr × Conn
read_domain c = do (b, c') ← read_full 1 c; read_rest (atyp_domain_name ∷ b) (byte_of b + 2) c'

unfoldable pub read_by_type : ℕ → Conn → Result Addr × Conn
read_by_type t c =
    if t == atyp_domain_name
    then read_domain c
    else if t == atyp_ipv4
    then read_rest (t ∷ []) (4 + 2) c
    else if t == atyp_ipv6
    then read_rest (t ∷ []) (16 + 2) c
    else (err address_not_supported, c)

-- `ReadAddr`, with a buffer of the given length.
unfoldable pub read_addr : ℕ → Conn → Result Addr × Conn
read_addr buffer c =
    if ltb buffer max_addr_len
    then (err short_buffer, c)
    else do (b, c') ← read_full 1 c; read_by_type (byte_of b) c'

-- The length of the address that starts with these bytes.
unfoldable pub addr_len : Bytes → Option ℕ
addr_len [] = none
addr_len (t ∷ b) =
    if t == atyp_domain_name
    then elim b [ [] ↦ none | n ∷ _ ↦ some (1 + 1 + n + 2) ]
    else if t == atyp_ipv4
    then some (1 + 4 + 2)
    else if t == atyp_ipv6
    then some (1 + 16 + 2)
    else none

-- `none` is the nil address.
unfoldable pub split_addr : Bytes → Option Addr
split_addr b = elim (addr_len b) [
  | none ↦ none
  | some n ↦ if ltb (length b) n then none else some (take n b)
]

-- protobytes.BytesReader and BytesWriter: the calls that read and write at the front and the end.
pub record Protobytes : Type 0 where
  pub split_at : ℕ → Bytes → Bytes × Bytes
  pub read_uint8 : Bytes → ℕ × Bytes
  pub put_uint8 : Bytes → ℕ → Bytes
  pub put_slice : Bytes → Bytes → Bytes
  pub put_uint16be : Bytes → ℕ → Bytes

-- `net.SplitHostPort` and `net.ParseIP`
pub record NetParser : Type 0 where
  pub split_host_port : Text → Option (Text × Text)
  pub parse_ip : Text → Option Ip

-- `ip.To4()` as bytes.
unfoldable pub four_bytes : Ip → Option Bytes
four_bytes ip = elim (to4 ip) [ none ↦ none | some v ↦ some (v.a ∷ v.b ∷ v.c ∷ v.d ∷ []) ]

unfoldable pub put_ip : Protobytes → Ip → Bytes
put_ip w ip = elim (four_bytes ip) [
  | some ip4 ↦ w.put_slice (w.put_uint8 [] atyp_ipv4) ip4
  | none ↦ w.put_slice (w.put_uint8 [] atyp_ipv6) ip
]

unfoldable pub put_host : Protobytes → Text → Option Bytes
put_host w host =
    if ltb 255 (length host)
    then none
    else some
        (w.put_slice (w.put_uint8 (w.put_uint8 [] atyp_domain_name) (length host % 2 ^ 8)) host)

unfoldable pub put_port : Protobytes → Option ℕ → Bytes → Option Addr
put_port w none buf = none
put_port w (some port) buf = some (w.put_uint16be buf port)

unfoldable pub put_address : Protobytes → NetParser → Text → Option Bytes
put_address w net host = elim (net.parse_ip host) [
  | some ip ↦ some (put_ip w ip)
  | none ↦ put_host w host
]

unfoldable pub parse_addr : Protobytes → NetParser → Text → Option Addr
parse_addr w net s = elim (net.split_host_port s) [
  | none ↦ none
  | some r ↦ elim (put_address w net r.0) [
    | none ↦ none
    | some buf ↦ put_port w (parse_port r.1) buf
  ]
]

-- An address of the net package: the IP address and the port of a UDP or a TCP address, and its
-- text.
pub record NetAddr : Type 0 where
  pub ip : Option Ip
  pub port : ℕ
  pub text : Text

unfoldable pub parse_addr_to_socks_addr : Protobytes → NetParser → NetAddr → Option Addr
parse_addr_to_socks_addr w net a = elim a.ip [
  | none ↦ parse_addr w net a.text
  | some ip ↦ some (w.put_uint16be (put_ip w ip) (a.port % 2 ^ 16))
]

pub data DecodeError : Type 0 where
  insufficient_length reserved_not_zero fragmented no_header : DecodeError

-- The three results of `DecodeUDPPacket`; an empty payload stands for nil too.
pub record Decoded : Type 0 where
  pub addr : Option Addr
  pub payload : Bytes
  pub error : Option DecodeError

abbrev pub failed : DecodeError → Decoded
failed e = record { addr = none; payload = []; error = some e }

unfoldable pub is_zeros : Bytes → Bool
is_zeros (a ∷ b ∷ []) = if a == 0 then b == 0 else false
is_zeros _ = false

-- `len(addr)`, which is 0 for the nil address.
unfoldable pub addr_size : Option Addr → ℕ
addr_size none = 0
addr_size (some a) = length a

unfoldable pub decode_header : Protobytes → Bytes → Decoded
decode_header r b =
    let addr = split_addr b in
    record {
      addr = addr;
      payload = (r.split_at (addr_size addr) b).1;
      error = elim addr [ none ↦ some no_header | some _ ↦ none ];
    }

unfoldable pub decode_fragment : Protobytes → ℕ × Bytes → Decoded
decode_fragment r fragment =
    if fragment.0 == 0 then decode_header r fragment.1 else failed fragmented

unfoldable pub decode_reserved : Protobytes → Bytes × Bytes → Decoded
decode_reserved r reserved =
    if is_zeros reserved.0
    then decode_fragment r (r.read_uint8 reserved.1)
    else failed reserved_not_zero

unfoldable pub decode_udp_packet : Protobytes → Bytes → Decoded
decode_udp_packet r packet =
    if ltb (length packet) 5
    then failed insufficient_length
    else decode_reserved r (r.split_at 2 packet)

-- `none` is the error "address is invalid".
unfoldable pub encode_udp_packet : Protobytes → Option Addr → Bytes → Option Bytes
encode_udp_packet w none payload = none
encode_udp_packet w (some addr) payload =
    some (w.put_slice (w.put_slice (w.put_slice [] (0 ∷ 0 ∷ 0 ∷ [])) addr) payload)
