-- ===== src/Tests/Listening.antt =====
-- Examples for the listeners: of the old inbounds one stays, one goes, and a new one is created.
use clash_flt.Prelude.{ℕ, ◌≡◌, refl, false, none, some, [], ◌∷◌, if◌then◌else◌}
use clash_flt.Prelude.Text.{Text, codes, text_eq}
use clash_flt.Listener.{
  Inbound, InboundType, socks_type, http_type, mixed_type, type_eq, Platform, Listeners, contains,
  recreate, get_need_close_and_create_inbound, split_new, get_inbounds, inbound_eq, remove,
  only_udp, find, create_listener, port_is_zero, create_udp, close_listener, store, erase,
}

abbrev inbound : InboundType → Text → Inbound
inbound t addr = record { inbound_type = t; bind_address = addr; is_from_port_cfg = false }

abbrev kept : Inbound
kept = inbound socks_type (codes "a:1")

abbrev gone : Inbound
gone = inbound http_type (codes "a:2")

abbrev fresh : Inbound
fresh = inbound mixed_type (codes "a:3")

abbrev taken : Inbound
taken = inbound mixed_type (codes "a:0")

-- A listener is the number of its kind.
abbrev platform : Platform ℕ
platform = record {
  new_tcp = λ t addr. some 1;
  new_udp = λ t addr. if type_eq t http_type then none else some 2;
  split_host_port = λ addr.
      if text_eq addr (codes "a:0")
      then some (codes "a", codes "0")
      else some (codes "a", codes "3");
  number_string = λ n. [];
  atoi = λ t. none;
  order = λ l. l;
}

abbrev old_listeners : Listeners ℕ
old_listeners = record {
  allow_lan = false;
  bind_address = codes "*";
  tcp_listeners = (kept, 10) ∷ (gone, 20) ∷ [];
  udp_listeners = (kept, 11) ∷ [];
  closed = [];
}

recreated : recreate platform (kept ∷ fresh ∷ taken ∷ []) old_listeners ≡ record {
  allow_lan = false;
  bind_address = codes "*";
  tcp_listeners = (kept, 10) ∷ (fresh, 1) ∷ [];
  udp_listeners = (kept, 11) ∷ (fresh, 2) ∷ [];
  closed = 20 ∷ [];
}
unfolding recreate get_need_close_and_create_inbound split_new contains get_inbounds inbound_eq
    type_eq text_eq remove only_udp find create_listener port_is_zero create_udp close_listener
    store erase
recreated = refl
