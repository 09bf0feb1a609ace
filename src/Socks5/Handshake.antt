-- ===== src/Socks5/Handshake.antt =====
-- transport/socks5/socks5.go: the handshakes of a server and of a client.
--
-- The authenticator is an argument, if there is one; a write whose result the source drops goes on
-- in either case.
use clash_flt.Prelude.{
  ℕ, zero, suc, ◌%◌, ◌^◌, ◌==◌, Bool, Option, none, some, [], ◌∷◌, if◌then◌else◌, length,
}
use clash_flt.Prelude.Text.{Text}
use clash_flt.Socks5.{
  Bytes, Addr, Conn, Result, ok, err, err_auth, address_not_supported, command_not_supported,
  version_error, rejected, need_auth, read_full, write, ◌>>=◌, byte_of, read_addr, max_addr_len,
  Protobytes, NetParser, parse_addr,
}

abbrev pub cmd_connect : ℕ
cmd_connect = 1

abbrev pub cmd_bind : ℕ
cmd_bind = 2

abbrev pub cmd_udp_associate : ℕ
cmd_udp_associate = 3

pub record User : Type 0 where
  pub username : Text
  pub password : Text

abbrev pub Authenticator : Type 0
Authenticator = Text → Text → Bool

-- `buf[i]` and `header[1]`, the second and third of the bytes read.
abbrev pub second_byte : Bytes → ℕ
second_byte (_ ∷ b ∷ _) = b
second_byte _ = 0

unfoldable pub auth_failed : Conn → Result Bytes × Conn
auth_failed c = (err err_auth, (write (1 ∷ 1 ∷ []) c).1)

unfoldable pub verify : Authenticator → Text → Text → Conn → Result Bytes × Conn
verify auth user pass c = if auth user pass then write (1 ∷ 0 ∷ []) c else auth_failed c

unfoldable pub read_password : Authenticator → Text → ℕ → Conn → Result Bytes × Conn
read_password auth user zero c = auth_failed c
read_password auth user (suc n) c = do (pass, c1) ← read_full (suc n) c; verify auth user pass c1

unfoldable pub read_user : Authenticator → ℕ → Conn → Result Bytes × Conn
read_user auth zero c = auth_failed c
read_user auth (suc n) c = do
  (user, c1) ← read_full (suc n) c
  (pass_len, c2) ← read_full 1 c1
  read_password auth user (byte_of pass_len) c2

-- The part of `ServerHandshake` on the method and the authentication.
unfoldable pub authenticate : Option Authenticator → Conn → Result Bytes × Conn
authenticate none c = write (5 ∷ 0 ∷ []) c
authenticate (some auth) c = do
  (_, c1) ← write (5 ∷ 2 ∷ []) c
  (header, c2) ← read_full 2 c1
  read_user auth (second_byte header) c2

-- The reply to a request, with the text of the local address.
unfoldable pub reply : Protobytes → NetParser → Text → Conn → Result Bytes × Conn
reply w net local c = elim (parse_addr w net local) [
  | none ↦ (err address_not_supported, c)
  | some local_addr ↦ write (5 ∷ 0 ∷ 0 ∷ local_addr) c
]

unfoldable pub accept : Protobytes → NetParser → Text → ℕ → Addr → Conn → Result (Addr × ℕ) × Conn
accept w net local command addr c = do (_, c1) ← reply w net local c; (ok (addr, command), c1)

unfoldable pub finish : Protobytes → NetParser → Text → ℕ → Addr → Conn → Result (Addr × ℕ) × Conn
finish w net local command addr c =
    if command == cmd_connect
    then accept w net local command addr c
    else if command == cmd_udp_associate
    then accept w net local command addr c
    else (err command_not_supported, c)

unfoldable pub server_handshake :
    Protobytes → NetParser → Text → Option Authenticator → Conn → Result (Addr × ℕ) × Conn
server_handshake w net local auth c = do
  (header, c1) ← read_full 2 c
  (_, c2) ← read_full (second_byte header) c1
  (_, c3) ← authenticate auth c2
  (request, c4) ← read_full 3 c3
  (addr, c5) ← read_addr max_addr_len c4
  finish w net local (second_byte request) addr c5

-- The method that a client offers.
unfoldable pub offer : Option User → Bytes
offer none = 5 ∷ 1 ∷ 0 ∷ []
offer (some _) = 5 ∷ 1 ∷ 2 ∷ []

unfoldable pub auth_message : Protobytes → User → Bytes
auth_message w u =
    w.put_slice
      (w.put_uint8
        (w.put_slice (w.put_uint8 (w.put_uint8 [] 1) (length u.username % 2 ^ 8)) u.username)
        (length u.password % 2 ^ 8))
      u.password

unfoldable pub check_accepted : ℕ → Conn → Result Bytes × Conn
check_accepted zero c = (ok [], c)
check_accepted (suc _) c = (err rejected, c)

unfoldable pub send_password : Protobytes → Option User → Conn → Result Bytes × Conn
send_password w none c = (err err_auth, c)
send_password w (some u) c = do
  (_, c1) ← write (auth_message w u) c
  (answer, c2) ← read_full 2 c1
  check_accepted (second_byte answer) c2

unfoldable pub answer_method : Protobytes → Option User → Bytes → Conn → Result Bytes × Conn
answer_method w user method c =
    if byte_of method == 5
    then if second_byte method == 2
      then send_password w user c
      else if second_byte method == 0
      then (ok [], c)
      else (err need_auth, c)
    else (err version_error, c)

unfoldable pub client_handshake : Protobytes → Addr → ℕ → Option User → Conn → Result Addr × Conn
client_handshake w addr command user c = do
  (_, c1) ← write (offer user) c
  (method, c2) ← read_full 2 c1
  (_, c3) ← answer_method w user method c2
  (_, c4) ← write (5 ∷ command ∷ 0 ∷ addr) c3
  (_, c5) ← read_full 3 c4
  read_addr max_addr_len c5
