-- ===== src/Tunnel/Udp.antt =====
-- tunnel/tunnel.go and tunnel/connection.go: the handler of UDP packets, without the table of
-- connections, which is in Tunnel.Nat.
use clash_flt.Prelude.{
  ℕ, Bool, true, false, not, Option, none, some, List, [], ◌∷◌, if◌then◌else◌, ◌==◌, length,
}
use clash_flt.Prelude.Text.{Text, text_eq}
use clash_flt.FakeIp.{to4}
use clash_flt.Metadata.{Metadata, Ip, valid, resolved, pure, udp_addr}
use clash_flt.Rule.{Rule}
use clash_flt.Tunnel.{World, State, Proxy, Route, pre_handle_metadata, resolve_metadata}

unfoldable pub is_exist_fake_ip : World → Ip → Bool
is_exist_fake_ip w ip = elim w.mapper [ none ↦ false | some e ↦ e.is_exist_fake_ip ip ]

-- `netip.AddrFromSlice` and `Unmap`; `none` is the zero address.
unfoldable pub addr_from_slice : Ip → Option Ip
addr_from_slice ip = elim (to4 ip) [
  | some v4 ↦ some (v4.a ∷ v4.b ∷ v4.c ∷ v4.d ∷ [])
  | none ↦ if length ip == 16 then some ip else none
]

unfoldable pub opt_addr : Option Ip → Option Ip
opt_addr none = none
opt_addr (some ip) = addr_from_slice ip

-- `==` on two addresses.
unfoldable pub addr_eq : Option Ip → Option Ip → Bool
addr_eq none none = true
addr_eq (some ip) (some ip') = text_eq ip ip'
addr_eq _ _ = false

-- What `handleUDPConn` knows before it asks the table: the metadata and `fAddr`, or why it stopped.
pub data Prepared : Type 0 where
  not_valid missing_record unresolved : Prepared
  ready : Metadata → Option Ip → Prepared

unfoldable pub fake_addr : World → Metadata → Option Ip
fake_addr w m = elim m.dst_ip [
  | none ↦ none
  | some ip ↦ if is_exist_fake_ip w ip then addr_from_slice ip else none
]

unfoldable pub with_first : Metadata → Option Ip → Option (List Ip) → Prepared
with_first m f none = unresolved
with_first m f (some []) = unresolved
with_first m f (some (ip ∷ _)) = ready (record m { dst_ip = some ip }) f

unfoldable pub local_resolve : (Text → Option (List Ip)) → Option Ip → Metadata → Prepared
local_resolve lookup_ip f m = if resolved m then ready m f else with_first m f (lookup_ip m.host)

unfoldable pub prepare_udp : World → (Text → Option (List Ip)) → Metadata → Prepared
prepare_udp w lookup_ip m = if not (valid m) then not_valid else elim (pre_handle_metadata w m) [
  | none ↦ missing_record
  | some m' ↦ local_resolve lookup_ip (fake_addr w m) m'
]

-- The packet that creates the connection: what it dials, and the addresses `oAddr` and `fAddr` for
-- the way back. A nil proxy is a panic in the source.
pub data Dialed : Type 0 where
  stopped : Prepared → Dialed
  no_proxy no_route : Dialed
  listen_error : Proxy → Dialed
  listening : Proxy → Option Rule → Metadata → Option Ip → Option Ip → Dialed

unfoldable pub listen : (Proxy → Metadata → Bool) → Option Ip → Route → Dialed
listen connects f route = elim route.proxy [
  | none ↦ no_proxy
  | some p ↦
      if connects p (pure route.metadata)
      then listening p route.rule route.metadata (opt_addr route.metadata.dst_ip) f
      else listen_error p
]

unfoldable pub dial_prepared : World → (Proxy → Metadata → Bool) → State → Prepared → Dialed
dial_prepared w connects st not_valid = stopped not_valid
dial_prepared w connects st missing_record = stopped missing_record
dial_prepared w connects st unresolved = stopped unresolved
dial_prepared w connects st (ready m f) = elim (resolve_metadata w st m) [
  | none ↦ no_route
  | some route ↦ listen connects f route
]

unfoldable pub handle_udp :
    World → (Text → Option (List Ip)) → (Proxy → Metadata → Bool) → State → Metadata → Dialed
handle_udp w lookup_ip connects st m = dial_prepared w connects st (prepare_udp w lookup_ip m)

-- A datagram and the address that it came from or goes to.
abbrev pub Datagram : Type 0
Datagram = Text × (Ip × ℕ)

-- `handleUDPToRemote`: what is written to the connection.
unfoldable pub handle_udp_to_remote : Text → Metadata → Option Datagram
handle_udp_to_remote bytes m = elim (udp_addr m) [ none ↦ none | some addr ↦ some (bytes, addr) ]

-- The address that the client sees for a datagram from `from`.
unfoldable pub swap_from : Option Ip → Option Ip → Ip × ℕ → Ip × ℕ
swap_from o none from = from
swap_from o (some fake) (ip, port) =
    if addr_eq o (addr_from_slice ip) then (fake, port) else (ip, port)

-- `handleUDPToLocal`: what is written back to the client, until a read or a write fails.
unfoldable pub handle_udp_to_local :
    (Datagram → Bool) → Option Ip → Option Ip → List (Option Datagram) → List Datagram
handle_udp_to_local writes o f [] = []
handle_udp_to_local writes o f (none ∷ reads) = []
handle_udp_to_local writes o f (some (bytes, from) ∷ reads) =
    let back : Datagram = (bytes, swap_from o f from) in
    let rest = handle_udp_to_local writes o f reads in if writes back then back ∷ rest else []
