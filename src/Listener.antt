-- ===== src/Listener.antt =====
-- listener/listener.go: the listeners of the inbounds, and how they follow the configuration.
--
-- A Go map is a list of its entries; the order of a loop over one is a parameter, and so are the
-- creators, which may fail, the printing and parsing of numbers, and the splitting of an address. What
-- the creation and the closing of a listener log is left out, and so is `PatchTunnel`.
pub mod Split
pub mod Recreate
use mathlib.Core.List.{foldl, filter}
use clash_flt.Prelude.{
  ℕ, ◌≡◌, Bool, true, false, ◌&&◌, ◌||◌, not, Option, none, some, List, [], ◌∷◌, ◌++◌, map, ◌==◌,
  if◌then◌else◌,
}
use clash_flt.Prelude.Text.{Text, codes, text_eq}
use clash_flt.Metadata.{is_some}

pub data InboundType : Type 0 where
  socks_type redir_type tproxy_type http_type mixed_type : InboundType

unfoldable pub type_eq : InboundType → InboundType → Bool
type_eq socks_type socks_type = true
type_eq redir_type redir_type = true
type_eq tproxy_type tproxy_type = true
type_eq http_type http_type = true
type_eq mixed_type mixed_type = true
type_eq _ _ = false

pub record Inbound : Type 0 where
  pub inbound_type : InboundType
  pub bind_address : Text
  pub is_from_port_cfg : Bool

abbrev pub bool_eq : Bool → Bool → Bool
bool_eq true b = b
bool_eq false b = not b

-- `==` on the struct, which is how a Go map compares its keys.
unfoldable pub inbound_eq : Inbound → Inbound → Bool
inbound_eq i j =
    type_eq i.inbound_type j.inbound_type
    && text_eq i.bind_address j.bind_address
    && bool_eq i.is_from_port_cfg j.is_from_port_cfg

pub record Ports : Type 0 where
  pub port : ℕ
  pub socks_port : ℕ
  pub redir_port : ℕ
  pub tproxy_port : ℕ
  pub mixed_port : ℕ

-- `L` is a listener.
pub record Platform (L : Type 0) : Type 0 where
  pub new_tcp : InboundType → Text → Option L
  pub new_udp : InboundType → Text → Option L
  pub split_host_port : Text → Option (Text × Text)
  pub number_string : ℕ → Text
  pub atoi : Text → Option ℕ
  pub order : List Inbound → List Inbound

-- The package's variables, and the listeners that were closed.
pub record Listeners (L : Type 0) : Type 0 where
  pub allow_lan : Bool
  pub bind_address : Text
  pub tcp_listeners : List (Inbound × L)
  pub udp_listeners : List (Inbound × L)
  pub closed : List L

unfoldable pub contains : Inbound → List Inbound → Bool
contains i [] = false
contains i (j ∷ inbounds) = inbound_eq j i || contains i inbounds

unfoldable pub remove : Inbound → List Inbound → List Inbound
remove i [] = []
remove i (j ∷ inbounds) = if inbound_eq j i then remove i inbounds else j ∷ remove i inbounds

-- The keys of `needCloseMap`, and `needCreate`, after the loop over the new inbounds.
unfoldable pub split_new : List Inbound → List Inbound → List Inbound × List Inbound
split_new need_close [] = (need_close, [])
split_new need_close (i ∷ inbounds) =
    let kept = split_new (remove i need_close) inbounds in
    let created = split_new need_close inbounds in
    if contains i need_close then kept else (created.0, i ∷ created.1)

module _ {L : Type 0} where
  unfoldable pub find : Inbound → List (Inbound × L) → Option L
  find i [] = none
  find i ((j, l) ∷ m) = if inbound_eq j i then some l else find i m

  unfoldable pub store : Inbound → L → List (Inbound × L) → List (Inbound × L)
  store i l [] = (i, l) ∷ []
  store i l ((j, k) ∷ m) = if inbound_eq j i then (i, l) ∷ m else (j, k) ∷ store i l m

  unfoldable pub erase : Inbound → List (Inbound × L) → List (Inbound × L)
  erase i [] = []
  erase i ((j, k) ∷ m) = if inbound_eq j i then erase i m else (j, k) ∷ erase i m

  abbrev pub keys : List (Inbound × L) → List Inbound
  keys m = map (λ e. e.0) m

  abbrev pub closing : Option L → List L → List L
  closing none closed = closed
  closing (some l) closed = closed ++ l ∷ []

  unfoldable pub close_listener : Listeners L → Inbound → Listeners L
  close_listener s i = record s {
    tcp_listeners = erase i s.tcp_listeners;
    udp_listeners = erase i s.udp_listeners;
    closed = closing (find i s.udp_listeners) (closing (find i s.tcp_listeners) s.closed);
  }

  unfoldable pub set_allow_lan : Bool → Listeners L → Listeners L
  set_allow_lan al s = record s { allow_lan = al }

  unfoldable pub set_bind_address : Text → Listeners L → Listeners L
  set_bind_address host s = record s { bind_address = host }

  -- The keys of the second map that are not keys of the first.
  unfoldable pub only_udp : List (Inbound × L) → List Inbound → List Inbound
  only_udp tcp [] = []
  only_udp tcp (i ∷ inbounds) =
      if is_some (find i tcp) then only_udp tcp inbounds else i ∷ only_udp tcp inbounds

  module _ (w : Platform L) where
    unfoldable pub port_is_zero : Text → Bool
    port_is_zero addr = elim (w.split_host_port addr) [
      | none ↦ true
      | some (_, port) ↦ text_eq port (codes "0") || text_eq port []
    ]

    -- `udpListenerCreators` has every type but HTTP, `tcpListenerCreators` has all.
    abbrev pub has_udp_creator : InboundType → Bool
    has_udp_creator http_type = false
    has_udp_creator _ = true

    unfoldable pub create_udp : Inbound → Listeners L → Listeners L
    create_udp i s =
        if has_udp_creator i.inbound_type
        then elim (w.new_udp i.inbound_type i.bind_address) [
          | none ↦ s
          | some l ↦ record s { udp_listeners = store i l s.udp_listeners }
        ]
        else s

    unfoldable pub create_listener : Listeners L → Inbound → Listeners L
    create_listener s i =
        if port_is_zero i.bind_address then s else elim (w.new_tcp i.inbound_type i.bind_address) [
          | none ↦ s
          | some l ↦ create_udp i (record s { tcp_listeners = store i l s.tcp_listeners })
        ]

    unfoldable pub get_inbounds : Listeners L → List Inbound
    get_inbounds s =
        w.order (keys s.tcp_listeners) ++ only_udp s.tcp_listeners (w.order (keys s.udp_listeners))

    unfoldable pub get_need_close_and_create_inbound :
        List Inbound → List Inbound → List Inbound × List Inbound
    get_need_close_and_create_inbound origin inbounds =
        let split = split_new origin inbounds in (w.order split.0, split.1)

    unfoldable pub recreate : List Inbound → Listeners L → Listeners L
    recreate inbounds s =
        let (need_close, need_create) =
          get_need_close_and_create_inbound (get_inbounds s) inbounds in
        foldl create_listener (foldl close_listener s need_close) need_create

    -- `lo.Filter`, by the flag.
    unfoldable pub with_flag : Bool → List Inbound → List Inbound
    with_flag b [] = []
    with_flag b (i ∷ inbounds) =
        if bool_eq b i.is_from_port_cfg then i ∷ with_flag b inbounds else with_flag b inbounds

    unfoldable pub recreate_listeners : List Inbound → Listeners L → Listeners L
    recreate_listeners inbounds s = recreate (inbounds ++ with_flag true (get_inbounds s)) s

    unfoldable pub gen_addr : Text → ℕ → Bool → Text
    gen_addr host port allow_lan =
        if allow_lan
        then if text_eq host (codes "*")
          then b':' ∷ w.number_string port
          else host ++ b':' ∷ w.number_string port
        else codes "127.0.0.1:" ++ w.number_string port

    unfoldable pub add_port_inbound : Listeners L → InboundType → ℕ → List Inbound → List Inbound
    add_port_inbound s t port inbounds =
        if port == 0
        then inbounds
        else inbounds
          ++ record {
            inbound_type = t;
            bind_address = gen_addr s.bind_address port s.allow_lan;
            is_from_port_cfg = true;
          }
            ∷ []

    unfoldable pub add_ports : Ports → Listeners L → List Inbound → List Inbound
    add_ports ports s inbounds = add_port_inbound s mixed_type ports.mixed_port (
        add_port_inbound s tproxy_type ports.tproxy_port (
          add_port_inbound s redir_type ports.redir_port (
            add_port_inbound s socks_type ports.socks_port
              (add_port_inbound s http_type ports.port inbounds))))

    unfoldable pub recreate_ports_listeners : Ports → Listeners L → Listeners L
    recreate_ports_listeners ports s =
        recreate (add_ports ports s (with_flag false (get_inbounds s))) s

    unfoldable pub get_port : Text → ℕ
    get_port addr = elim (w.split_host_port addr) [
      | none ↦ 0
      | some (_, port) ↦ elim (w.atoi port) [ none ↦ 0 | some n ↦ n ]
    ]

    abbrev pub set_port : InboundType → ℕ → Ports → Ports
    set_port http_type n ports = record ports { port = n }
    set_port socks_type n ports = record ports { socks_port = n }
    set_port tproxy_type n ports = record ports { tproxy_port = n }
    set_port redir_type n ports = record ports { redir_port = n }
    set_port mixed_type n ports = record ports { mixed_port = n }

    unfoldable pub fill_port : Ports → Inbound → Ports
    fill_port ports i =
        if i.is_from_port_cfg
        then set_port i.inbound_type (get_port i.bind_address) ports
        else ports

    unfoldable pub get_ports : Listeners L → Ports
    get_ports s =
        foldl fill_port
          (record { port = 0; socks_port = 0; redir_port = 0; tproxy_port = 0; mixed_port = 0 })
          (get_inbounds s)
