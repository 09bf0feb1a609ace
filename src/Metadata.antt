-- ===== src/Metadata.antt =====
-- constant/metadata.go: what is known of a connection. A nil `net.IP` is `none`.
use clash_flt.Prelude.{
  ℕ, Bool, true, false, ◌||◌, not, Option, none, some, List, [], ◌∷◌, if◌then◌else◌,
}
use clash_flt.FakeIp.{to4}
use clash_flt.Prelude.Text.{Text, codes}

abbrev pub Ip : Type 0
Ip = List ℕ

pub data NetWork : Type 0 where
  tcp udp : NetWork

pub data ConnType : Type 0 where
  http http_connect socks4 socks5 redir tproxy tunnel : ConnType

pub data DnsMode : Type 0 where
  dns_normal dns_fake_ip dns_mapping : DnsMode

pub record Metadata : Type 0 where
  pub net_work : NetWork
  pub conn_type : ConnType
  pub src_ip : Option Ip
  pub dst_ip : Option Ip
  pub src_port : ℕ
  pub dst_port : ℕ
  pub host : Text
  pub dns_mode : DnsMode
  pub process_path : Text
  pub special_proxy : Text
  pub origin_dst : Option (Ip × ℕ)

unfoldable pub network_string : NetWork → Text
network_string tcp = codes "tcp"
network_string udp = codes "udp"

unfoldable pub type_string : ConnType → Text
type_string http = codes "HTTP"
type_string http_connect = codes "HTTP Connect"
type_string socks4 = codes "Socks4"
type_string socks5 = codes "Socks5"
type_string redir = codes "Redir"
type_string tproxy = codes "TProxy"
type_string tunnel = codes "Tunnel"

abbrev pub is_some {ℓ} : {A : Type ℓ} → Option A → Bool
is_some none = false
is_some (some _) = true

abbrev pub is_udp : NetWork → Bool
is_udp udp = true
is_udp tcp = false

abbrev pub is_empty : Text → Bool
is_empty [] = true
is_empty (_ ∷ _) = false

unfoldable pub resolved : Metadata → Bool
resolved m = is_some m.dst_ip

unfoldable pub valid : Metadata → Bool
valid m = not (is_empty m.host) || is_some m.dst_ip

-- `Pure`: the host is left out in mapping mode, where the address is real.
unfoldable pub pure : Metadata → Metadata
pure m = elim m.dns_mode [
  | dns_mapping ↦ if is_some m.dst_ip then record m { host = [] } else m
  | _ ↦ m
]

abbrev pub atyp_ipv4 : ℕ
atyp_ipv4 = 1

abbrev pub atyp_domain_name : ℕ
atyp_domain_name = 3

abbrev pub atyp_ipv6 : ℕ
atyp_ipv6 = 4

unfoldable pub addr_type : Metadata → ℕ
addr_type m = elim m.dst_ip [
  | none ↦ atyp_domain_name
  | some ip ↦
      if not (is_empty m.host)
      then atyp_domain_name
      else if is_some (to4 ip)
      then atyp_ipv4
      else atyp_ipv6
]

-- `UDPAddr`: the address and the port of a UDP destination.
unfoldable pub udp_addr : Metadata → Option (Ip × ℕ)
udp_addr m = elim m.dst_ip [
  | none ↦ none
  | some ip ↦ if is_udp m.net_work then some (ip, m.dst_port) else none
]

-- `String`, over the printing of an address.
unfoldable pub metadata_string : (Ip → Text) → Metadata → Text
metadata_string print m =
    if not (is_empty m.host)
    then m.host
    else elim m.dst_ip [ none ↦ codes "<nil>" | some ip ↦ print ip ]
