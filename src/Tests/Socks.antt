-- ===== src/Tests/Socks.antt =====
-- Examples for transport/socks5.
use clash_flt.Prelude.{
  ℕ, ◌≡◌, ◌/◌, ◌%◌, refl, inl, none, some, [], ◌∷◌, ◌++◌, arith, length, take, drop,
}
use clash_flt.Prelude.Text.{codes, text_eq}
use clash_flt.FakeIp.{to4}
use clash_flt.Rule.Parse.{parse_port, digits_from}
use clash_flt.Socks5.{
  Bytes, Addr, Conn, ok, addr_len, split_addr, Protobytes, NetParser, four_bytes, put_ip,
  put_address, put_port, parse_addr, decode_udp_packet, encode_udp_packet,
}
use clash_flt.Socks5.Packets.{
  decode_udp_packet-encode_udp_packet, encode_udp_packet-decode_udp_packet,
}
use clash_flt.Socks5.Handshake.{User, server_handshake, client_handshake}
use clash_flt.Socks5.Agreement.{
  fresh, client_bytes, server_bytes, server_handshake-client_handshake,
}

abbrev head_byte : Bytes → ℕ × Bytes
head_byte [] = (0, [])
head_byte (b ∷ rest) = (b, rest)

abbrev protobytes : Protobytes
protobytes = record {
  split_at = λ n b. (take n b, drop n b);
  read_uint8 = head_byte;
  put_uint8 = λ b n. b ++ n ∷ [];
  put_slice = λ a b. a ++ b;
  put_uint16be = λ b n. b ++ n / 256 % 256 ∷ n % 256 ∷ [];
}

split_at-law : (a b : Bytes) → protobytes.split_at (length a) (a ++ b) ≡ (a, b)
split_at-law [] b = refl
split_at-law (x ∷ a) b = let e = split_at-law a b in ground (arith, e)

-- 1.2.3.4:443
abbrev addr : Addr
addr = 1 ∷ 1 ∷ 2 ∷ 3 ∷ 4 ∷ 1 ∷ 187 ∷ []

addr_whole : split_addr addr ≡ some addr
unfolding split_addr addr_len
addr_whole = refl

abbrev packet : Bytes
packet = 0 ∷ 0 ∷ 0 ∷ 1 ∷ 1 ∷ 2 ∷ 3 ∷ 4 ∷ 1 ∷ 187 ∷ 42 ∷ []

packet_encoded : encode_udp_packet protobytes (some addr) (42 ∷ []) ≡ some packet
unfolding encode_udp_packet
packet_encoded = refl

decode_udp_packet-encode_udp_packet_example :
    decode_udp_packet protobytes packet
    ≡ record { addr = some addr; payload = 42 ∷ []; error = none }
decode_udp_packet-encode_udp_packet_example =
    decode_udp_packet-encode_udp_packet protobytes (λ a b. refl) split_at-law (λ x b. refl) addr
      (42 ∷ []) packet addr_whole packet_encoded

packet_decoded :
    decode_udp_packet protobytes packet
    ≡ record { addr = some addr; payload = 42 ∷ []; error = none }
packet_decoded =
    decode_udp_packet-encode_udp_packet protobytes (λ a b. refl) split_at-law (λ x b. refl) addr
      (42 ∷ []) packet addr_whole packet_encoded

encode_udp_packet-decode_udp_packet_example :
    encode_udp_packet protobytes (some addr) (42 ∷ []) ≡ some packet
encode_udp_packet-decode_udp_packet_example =
    encode_udp_packet-decode_udp_packet protobytes (λ a b. refl) split_at-law (λ x b. refl) addr
      (42 ∷ []) packet packet_decoded

abbrev conn : Conn
conn = record { input = []; output = []; writes = 9 }

abbrev net : NetParser
net = record {
  split_host_port = λ s. some (codes "1.2.3.4", codes "443");
  parse_ip = λ s. some (1 ∷ 2 ∷ 3 ∷ 4 ∷ []);
}

abbrev user : User
user = record { username = codes "me"; password = codes "secret" }

local_parses : parse_addr protobytes net (codes "1.2.3.4:443") ≡ some addr
unfolding parse_addr put_address put_ip put_port four_bytes to4 parse_port digits_from
local_parses = refl

server_handshake-client_handshake_example :
    (server_handshake protobytes net
        (codes "1.2.3.4:443")
        (some (λ name pass. text_eq name (codes "me")))
        (fresh (client_bytes user 1 addr) 0)
      ≡ (ok (addr, 1), record { input = []; output = server_bytes addr; writes = 0 }))
    × (client_handshake protobytes addr 1 (some user) (fresh (server_bytes addr) 0)
        ≡ (ok addr, record { input = []; output = client_bytes user 1 addr; writes = 0 }))
unfolding text_eq
server_handshake-client_handshake_example =
    server_handshake-client_handshake protobytes (λ b n. refl) (λ a b. refl) net
      (codes "1.2.3.4:443") addr (λ name pass. text_eq name (codes "me")) user addr 1 local_parses
      addr_whole addr_whole (omega arith, omega arith) (omega arith, omega arith) refl (inl refl) 0
