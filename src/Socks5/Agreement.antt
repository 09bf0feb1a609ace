-- ===== src/Socks5/Agreement.antt =====
-- The two handshakes, one against the other, with a password.
use clash_flt.Prelude.{
  ℕ, zero, suc, ◌<◌, ◌%◌, ◌^◌, ◌≡◌, ◌⊎◌, inl, inr, refl, sym, ap, ap₂, subst, ◌∙◌, true, some, [],
  ◌∷◌, ◌++◌, arith, length, append-nil, append_assoc,
}
use native.Mathlib.Nat.{mod-eq_of_lt}
use clash_flt.Prelude.Text.{Text}
use clash_flt.Socks5.{
  Bytes, Addr, Conn, ok, read_full, write, ◌>>=◌, byte_of, read_addr, split_addr, max_addr_len,
  Protobytes, NetParser, parse_addr,
}
use clash_flt.Socks5.Streams.{read_full-append, read_addr-append}
use clash_flt.Socks5.Handshake.{
  User, Authenticator, verify, read_password, read_user, authenticate, reply, accept, finish,
  server_handshake, offer, auth_message, check_accepted, send_password, answer_method,
  client_handshake, cmd_connect, cmd_udp_associate,
}

abbrev pub request : ℕ → Addr → Bytes
request command addr = 5 ∷ command ∷ 0 ∷ addr

-- The message with the user's name and password, by its bytes.
abbrev pub login : User → Bytes
login u = 1 ∷ length u.username ∷ (u.username ++ length u.password ∷ u.password)

abbrev pub client_bytes : User → ℕ → Addr → Bytes
client_bytes u command addr = 5 ∷ 1 ∷ 2 ∷ (login u ++ request command addr)

abbrev pub server_bytes : Addr → Bytes
server_bytes bound = 5 ∷ 2 ∷ 1 ∷ 0 ∷ 5 ∷ 0 ∷ 0 ∷ bound

abbrev pub fresh : Bytes → ℕ → Conn
fresh b k = record { input = b; output = []; writes = suc (suc (suc k)) }

write-next :
    (b : Bytes) (c : Conn) (k : ℕ)
    → c.writes ≡ suc k
    → write b c ≡ (ok b, record c { output = c.output ++ b; writes = k })
unfolding write
write-next b c k left = rw (left, write) refl

read_password-positive :
    (auth : Authenticator) (user : Text) (n : ℕ) (c : Conn)
    → 0 < n
    → read_password auth user n c ≡ (read_full n c >>= λ r. verify auth user r.0 r.1)
unfolding read_password
read_password-positive auth user zero c h = absurd (omega arith)
read_password-positive auth user (suc n) c h = refl

read_user-positive :
    (auth : Authenticator) (n : ℕ) (c : Conn)
    → 0 < n
    → read_user auth n c
      ≡ (read_full n c >>= λ r. read_full 1 r.1 >>= λ q. read_password auth r.0 (byte_of q.0) q.1)
unfolding read_user
read_user-positive auth zero c h = absurd (omega arith)
read_user-positive auth (suc n) c h = refl

read_addr-whole :
    (a : Bytes) (c : Conn)
    → split_addr a ≡ some a
    → read_addr max_addr_len (record c { input = a }) ≡ (ok a, record c { input = [] })
read_addr-whole a c e =
    subst (λ z. read_addr max_addr_len (record c { input = z }) ≡ (ok a, record c { input = [] }))
      (append-nil a) (read_addr-append a [] c e)

module _ (w : Protobytes) (put_uint8-snoc : (b : Bytes) (n : ℕ) → w.put_uint8 b n ≡ b ++ n ∷ [])
    (put_slice-append : (a b : Bytes) → w.put_slice a b ≡ a ++ b) (net : NetParser) (local : Text)
    (bound : Addr) (auth : Authenticator) (u : User) (addr : Addr) (command : ℕ)
    (local_parses : parse_addr w net local ≡ some bound)
    (bound_whole : split_addr bound ≡ some bound) (addr_whole : split_addr addr ≡ some addr)
    (user_size : (0 < length u.username) × (length u.username < 256))
    (pass_size : (0 < length u.password) × (length u.password < 256))
    (known : auth u.username u.password ≡ true)
    (served : (command ≡ cmd_connect) ⊎ (command ≡ cmd_udp_associate)) where
  auth_message-login : auth_message w u ≡ login u
  unfolding auth_message
  auth_message-login =
      let m : length u.username % 2 ^ 8 ≡ length u.username = mod-eq_of_lt user_size.1 in
      let n : length u.password % 2 ^ 8 ≡ length u.password = mod-eq_of_lt pass_size.1 in
      put_slice-append _ u.password
      ∙ ap (λ z. z ++ u.password)
          (put_uint8-snoc _ (length u.password % 2 ^ 8)
            ∙ ap₂ (λ y z. y ++ z ∷ [])
                (put_slice-append _ u.username
                  ∙ ap (λ z. z ++ u.username)
                      (put_uint8-snoc _ (length u.username % 2 ^ 8)
                        ∙ ap₂ (λ y z. y ++ z ∷ []) (put_uint8-snoc [] 1) m))
                n)
      ∙ ap (λ z. 1 ∷ length u.username ∷ z)
          (append_assoc u.username (length u.password ∷ []) u.password)

  read_user-login :
      (rest : Bytes) (c : Conn) (k : ℕ)
      → c.writes ≡ suc k
      → read_user auth
          (length u.username)
          (record c { input = u.username ++ (length u.password ∷ (u.password ++ rest)) })
        ≡ (ok (1 ∷ 0 ∷ []), record c { input = rest; output = c.output ++ 1 ∷ 0 ∷ []; writes = k })
  unfolding verify
  read_user-login rest c k left =
      read_user-positive auth (length u.username) _ user_size.0
      ∙ rw
          (
            read_full-append u.username (length u.password ∷ (u.password ++ rest)) c
                (length u.username) refl,
            read_full-append (length u.password ∷ []) (u.password ++ rest) c 1 refl,
          )
          (read_password-positive auth u.username (length u.password) _ pass_size.0
            ∙ rw (read_full-append u.password rest c (length u.password) refl, known)
                (write-next (1 ∷ 0 ∷ []) (record c { input = rest }) k left))

  reply-parses : (c : Conn) → reply w net local c ≡ write (5 ∷ 0 ∷ 0 ∷ bound) c
  unfolding reply
  reply-parses c = rw (local_parses, reply) refl

  finish-served :
      (c : Conn) (k : ℕ)
      → c.writes ≡ suc k
      → finish w net local command addr c
        ≡ (ok (addr, command), record c { output = c.output ++ (5 ∷ 0 ∷ 0 ∷ bound); writes = k })
  unfolding finish accept
  finish-served c k left = elim served [
    | inl one ↦ rw (one, reply-parses c, write-next (5 ∷ 0 ∷ 0 ∷ bound) c k left) refl
    | inr three ↦ rw (three, reply-parses c, write-next (5 ∷ 0 ∷ 0 ∷ bound) c k left) refl
  ]

  authenticate-login :
      (rest : Bytes) (c : Conn) (k : ℕ)
      → c.writes ≡ suc (suc k)
      → authenticate (some auth) (record c {
        input = 1 ∷ length u.username ∷ (u.username ++ (length u.password ∷ (u.password ++ rest)));
      })
        ≡ (
          ok (1 ∷ 0 ∷ []),
          record c { input = rest; output = (c.output ++ 5 ∷ 2 ∷ []) ++ 1 ∷ 0 ∷ []; writes = k },
        )
  unfolding authenticate
  authenticate-login rest c k left =
      let tail = u.username ++ (length u.password ∷ (u.password ++ rest)) in
      let written = record c { output = c.output ++ 5 ∷ 2 ∷ []; writes = suc k } in
      rw
        (
          write-next (5 ∷ 2 ∷ []) (record c { input = 1 ∷ length u.username ∷ tail }) (suc k) left,
          read_full-append (1 ∷ length u.username ∷ []) tail written 2 refl,
        )
        (read_user-login rest written k refl)

  server_run :
      (k : ℕ)
      → server_handshake w net local (some auth) (
          fresh
            (5
              ∷ 1
              ∷ 2
              ∷ 1
              ∷ length u.username
              ∷ (u.username ++ (length u.password ∷ (u.password ++ request command addr))))
            k)
        ≡ (ok (addr, command), record { input = []; output = server_bytes bound; writes = k })
  unfolding server_handshake
  server_run k =
      let tail = u.username ++ (length u.password ∷ (u.password ++ request command addr)) in
      let start = fresh [] k in
      let proved = record start { output = 5 ∷ 2 ∷ 1 ∷ 0 ∷ []; writes = suc k } in
      rw
        (
          read_full-append (5 ∷ 1 ∷ []) (2 ∷ 1 ∷ length u.username ∷ tail) start 2 refl,
          read_full-append (2 ∷ []) (1 ∷ length u.username ∷ tail) start 1 refl,
          authenticate-login (request command addr) start (suc k) refl,
          read_full-append (5 ∷ command ∷ 0 ∷ []) addr proved 3 refl,
          read_addr-whole addr proved addr_whole,
        )
        (finish-served (record proved { input = [] }) k refl)

  client_run :
      (k : ℕ)
      → client_handshake w addr command (some u) (fresh (server_bytes bound) k)
        ≡ (ok bound, record { input = []; output = client_bytes u command addr; writes = k })
  unfolding client_handshake answer_method send_password check_accepted offer
  client_run k =
      let start = fresh [] k in
      let offered = record start { output = 5 ∷ 1 ∷ 2 ∷ []; writes = suc (suc k) } in
      let logged = record start { output = (5 ∷ 1 ∷ 2 ∷ []) ++ login u; writes = suc k } in
      let asked = record start {
        output = ((5 ∷ 1 ∷ 2 ∷ []) ++ login u) ++ request command addr;
        writes = k;
      } in
      rw
        (
          write-next (5 ∷ 1 ∷ 2 ∷ []) (fresh (server_bytes bound) k) (suc (suc k)) refl,
          read_full-append (5 ∷ 2 ∷ []) (1 ∷ 0 ∷ 5 ∷ 0 ∷ 0 ∷ bound) offered 2 refl,
          auth_message-login,
          write-next (login u) (record offered { input = 1 ∷ 0 ∷ 5 ∷ 0 ∷ 0 ∷ bound }) (suc k) refl,
          read_full-append (1 ∷ 0 ∷ []) (5 ∷ 0 ∷ 0 ∷ bound) logged 2 refl,
          write-next (request command addr) (record logged { input = 5 ∷ 0 ∷ 0 ∷ bound }) k refl,
          read_full-append (5 ∷ 0 ∷ 0 ∷ []) bound asked 3 refl,
        )
        (read_addr-whole bound asked bound_whole)

  -- A client with a known user and a server with a password agree: on the bytes that the client
  -- writes, the server answers with the client's address and command, for the commands connect and
  -- UDP associate; on the bytes that the server then wrote, the client returns the server's local
  -- address and wrote the bytes that the server read. Each makes three writes that succeed and
  -- reads all its input. The user's name and password are 1 to 255 bytes long, and both addresses
  -- are whole SOCKS addresses.
  pub server_handshake-client_handshake :
      (k : ℕ)
      → (server_handshake w net local (some auth) (fresh (client_bytes u command addr) k)
          ≡ (ok (addr, command), record { input = []; output = server_bytes bound; writes = k }))
        × (client_handshake w addr command (some u) (fresh (server_bytes bound) k)
            ≡ (ok bound, record { input = []; output = client_bytes u command addr; writes = k }))
  server_handshake-client_handshake k =
      let whole : 5
            ∷ 1
            ∷ 2
            ∷ 1
            ∷ length u.username
            ∷ (u.username ++ (length u.password ∷ (u.password ++ request command addr)))
          ≡ client_bytes u command addr =
        ap (λ z. 5 ∷ 1 ∷ 2 ∷ 1 ∷ length u.username ∷ z)
          (sym (append_assoc u.username (length u.password ∷ u.password) (request command addr))) in
      (
        subst
            (λ z. server_handshake w net local (some auth) (fresh z k) ≡ (
              ok (addr, command),
              record { input = []; output = server_bytes bound; writes = k },
            ))
            whole (server_run k),
        client_run k,
      )
