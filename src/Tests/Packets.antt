-- ===== src/Tests/Packets.antt =====
-- Examples for UDP packets: 198.18.0.7 is the fake address of 1.2.3.4, and three packets meet at the
-- table.
use native.Mathlib.Decide.{ℕ_discrete}
use clash_flt.Prelude.{◌≡◌, refl, inl, true, false, Option, some, List, [], ◌∷◌, map, arith}
use clash_flt.Prelude.Text.{Text, codes, text_eq}
use clash_flt.FakeIp.{to4}
use clash_flt.Metadata.{Metadata, Ip, udp, dns_fake_ip, resolved, valid, pure}
use clash_flt.Trie
use clash_flt.Trie.{
  Node, new_node, with_data, search_labels, valid_and_split_domain, split_from, ends_with_dot,
  check_parts, has_empty, starts_empty, get_child, find_child, descend, or_else, data_of,
}
use clash_flt.Rule.{domain_rule, matches, adapter, should_resolve_ip, should_find_process}
use clash_flt.Tunnel.{
  Proxy, lookup_proxy, resolve_metadata, match, match_start, match_loop, prepare, resolve_step,
  process_step, should_resolve, choose, usable, pre_handle_metadata, host_to_ip, need_lookup_ip,
  mapping_enabled, find_host_by_ip, map_ip, map_host, fake_ip_enabled, search_hosts,
}
use clash_flt.Tunnel.Udp.{
  is_exist_fake_ip, addr_from_slice, opt_addr, addr_eq, dial_prepared, prepare_udp, local_resolve,
  with_first, listen, fake_addr, listening, handle_udp, Datagram, handle_udp_to_local,
}
use clash_flt.Tunnel.Replies.{handle_udp_to_local-handle_udp}
use clash_flt.Tunnel.Nat.{
  Table, Phase, init, move, create_lock, relay, set, delete_lock, broadcast, wake, gone, following,
  Reach, start, later, not_found, lead, follow, wait, dial, store, send, release, signal,
}
use clash_flt.Tunnel.Nat.Exclusion.{holds, holds-Reach}
use clash_flt.Tunnel.Nat.Missed.{Follows, Follows-Reach}
use clash_flt.Tests.Routes.{fake, real, world, state, metadata}

abbrev packet : Metadata
packet = record metadata { net_work = udp }

abbrev lookups : Text → Option (List Ip)
lookups host = some (real ∷ [])

abbrev final : Metadata
final = record packet { dst_ip = some real; host = codes "example.com"; dns_mode = dns_fake_ip }

abbrev proxy_a : Proxy
proxy_a = record { name = codes "A"; support_udp = true }

listened :
    handle_udp world lookups (λ p m. true) state packet
    ≡ listening proxy_a
        (some (domain_rule (codes "example.com") (codes "A")))
        final
        (some real)
        (some fake)
unfolding handle_udp dial_prepared prepare_udp local_resolve with_first listen fake_addr
    is_exist_fake_ip addr_from_slice opt_addr resolved to4 resolve_metadata match match_start
    match_loop prepare resolve_step process_step should_resolve choose usable valid
    pre_handle_metadata host_to_ip need_lookup_ip mapping_enabled find_host_by_ip map_ip map_host
    fake_ip_enabled search_hosts lookup_proxy matches adapter should_resolve_ip should_find_process
    pure text_eq Trie.search Trie.new new_node valid_and_split_domain split_from ends_with_dot
    check_parts has_empty starts_empty search_labels with_data get_child find_child descend or_else
    data_of
listened = refl

-- Packets 0 and 1 both find no connection. Packet 0 makes one and is through before 1 comes to wait.
abbrev led : Table
led = move 0 Phase.leading (create_lock 0 (move 1 Phase.missed (move 0 Phase.missed init)))

led-Reach : Reach init led
unfolding init move create_lock ℕ_discrete
led-Reach =
    later (later (later start (not_found 0 refl refl)) (not_found 1 refl refl)) (lead 0 refl refl)

holds-Reach_example : holds (led.phase 1) ≡ false
unfolding init move create_lock ℕ_discrete holds
holds-Reach_example = holds-Reach led 0 1 led-Reach refl (λ e. absurd (omega arith))

-- Packet 1 has the condition, packet 0 stores its connection, sends, deletes the lock and signals.
abbrev late : Table
late = move 0 (gone (some 0)) (
    broadcast 0 (
      move 0 (Phase.broadcasting (some 0)) (
        delete_lock (
          move 0 (Phase.releasing (some 0)) (
            move 0 Phase.stored
              (set 0 (move 0 Phase.dialed (relay 0 true (move 1 (following 0) led)))))))))

late-Reach : Reach init late
unfolding init move create_lock ℕ_discrete relay set delete_lock broadcast wake
late-Reach =
    later
      (later
        (later (later (later (later led-Reach (follow 1 0 refl refl)) (dial 0 refl)) (store 0 refl))
          (send 0 refl))
        (release 0 (some 0) refl))
      (signal 0 (some 0) refl)

waits : Reach late (move 1 (Phase.waiting 0) late)
unfolding init move create_lock ℕ_discrete relay set delete_lock broadcast wake
waits = later start (wait 1 0 refl)

Follows-Reach_example : Follows 0 ((move 1 (Phase.waiting 0) late).phase 1)
unfolding init move create_lock ℕ_discrete relay set delete_lock broadcast wake
Follows-Reach_example =
    Follows-Reach 0 1 (some 0) late (move 1 (Phase.waiting 0) late) refl (inl refl) waits

abbrev replies : List Datagram
replies = (codes "a", (real, 53)) ∷ (codes "b", (9 ∷ 9 ∷ 9 ∷ 9 ∷ [], 53)) ∷ []

handle_udp_to_local-handle_udp_example :
    handle_udp_to_local (λ d. true) (some real) (some fake) (map some replies)
    ≡ (codes "a", (fake, 53)) ∷ (codes "b", (9 ∷ 9 ∷ 9 ∷ 9 ∷ [], 53)) ∷ []
unfolding is_exist_fake_ip addr_from_slice to4 text_eq opt_addr addr_eq
handle_udp_to_local-handle_udp_example =
    handle_udp_to_local-handle_udp world lookups (λ p m. true) state packet final proxy_a
      (some (domain_rule (codes "example.com") (codes "A"))) (some real) (some fake) fake replies
      listened refl refl refl
