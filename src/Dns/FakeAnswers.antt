-- ===== src/Dns/FakeAnswers.antt =====
-- A fake address on its way from the DNS handler to the tunnel.
use clash_flt.Prelude.{
  ℕ, ◌≡◌, ◌∙◌, refl, true, false, Option, none, some, List, [], ◌∷◌, arith, Bool-cases, inl, inr,
}
use clash_flt.Prelude.Text.{Text, to_lower}
use clash_flt.Metadata.{Ip, Metadata, dns_fake_ip, is_empty}
use clash_flt.Trie
use clash_flt.Trie.{Node}
use clash_flt.FakeIp.{Ipv4, Key, Store, Pool, MemoryStore, memory, lookup, should_skipped}
use clash_flt.FakeIp.Pairs.{Item}
use clash_flt.FakeIp.Assign.{IsValid}
use clash_flt.FakeIp.Answers.{look_back-lookup}
use clash_flt.Enhancer.{Net}
use clash_flt.Enhancer.Mapper.{as_enhancer, pre_handle_metadata-look_back}
use clash_flt.Tunnel.{World, pre_handle_metadata}
use clash_flt.Dns.{
  Msg, Question, Rr, a_rr, type_a, class_inet, trim_right_dots, set_msg_ttl, Library, is_ip_request,
}
use clash_flt.Dns.Resolver.{Network}
use clash_flt.Dns.Middleware.{
  Session, fake_ip_type, replied, Handler, Addresses, bytes, a_record, hosts_data, with_hosts_for,
  with_hosts, own_reply, fake_reply, with_fake_ip_for, with_fake_ip, with_mapping, with_resolver,
  compose, new_handler,
}

-- `SetRcode` is documented to set the header and the question alone.
abbrev pub KeepsAnswer : Library → Type 0
KeepsAnswer lib = (msg r : Msg) (rcode : ℕ) → (lib.set_rcode msg r rcode).answer ≡ msg.answer

-- What the hosts file has for a name, if there is one.
abbrev pub hosts_entry : Option (Node Ip) → Text → Option Ip
hosts_entry none name = none
hosts_entry (some hosts) name = hosts_data (Trie.search name hosts)

abbrev pub fake_record : Question → Ipv4 → Rr
fake_record q ip =
    a_rr (record { name = q.name; rrtype = type_a; class = class_inet; ttl = 1 }) (bytes ip)

module _ (w : Network) (a : Addresses) (now : ℕ) {S : Type 0} (st : Store S) where
  abbrev faked : Session S → Pool S → Session S
  faked s p = record s {
    enhancer = record s.enhancer { fake_pool = some p };
    dns_type = some fake_ip_type;
  }

  abbrev fake_msg : Question → Ipv4 → Msg → Msg
  fake_msg q ip r =
      own_reply w a now st r (set_msg_ttl (record r { answer = a_record q (bytes ip) ∷ [] }) 1)

  fake_msg-answer :
      KeepsAnswer w.library
      → (q : Question) (ip : Ipv4) (r : Msg) → (fake_msg q ip r).answer ≡ fake_record q ip ∷ []
  unfolding own_reply set_msg_ttl a_record
  fake_msg-answer keeps q ip r = keeps _ r 0

  module _ (q : Question) (r : Msg) (s : Session S) (p p' : Pool S) (ip : Ipv4)
      (is_a : q.qtype ≡ type_a) (found : lookup st (trim_right_dots q.name) p ≡ some (p', ip)) where
    fake_reply-lookup : fake_reply w a now st q r s p ≡ (faked s p', replied (fake_msg q ip r))
    unfolding fake_reply
    fake_reply-lookup = rw (found, fake_reply) refl

    module _ (next : Handler S) (rest : List Question) (asked : r.question ≡ q ∷ rest)
        (kept : should_skipped st (trim_right_dots q.name) p ≡ false)
        (pool : s.enhancer.fake_pool ≡ some p) where
      with_fake_ip-lookup :
          with_fake_ip w a now st next r s ≡ (faked s p', replied (fake_msg q ip r))
      unfolding with_fake_ip with_fake_ip_for
      with_fake_ip-lookup = ground (arith, fake_reply-lookup)

      with_hosts-miss :
          (hosts : Node Ip)
          → hosts_data (Trie.search (trim_right_dots q.name) hosts) ≡ none
          → with_hosts w a now st hosts next r s ≡ next r s
      unfolding with_hosts with_hosts_for
      with_hosts-miss hosts miss = rw asked (elim (Bool-cases (is_ip_request q)) [
        | inl ip_request ↦ rw (ip_request, miss) refl
        | inr other ↦ rw other refl
      ])

    new_handler-lookup :
        (rest : List Question) (hosts : Option (Node Ip))
        → r.question ≡ q ∷ rest
        → should_skipped st (trim_right_dots q.name) p ≡ false
        → s.enhancer.fake_pool ≡ some p
        → hosts_entry hosts (trim_right_dots q.name) ≡ none
        → new_handler w a now st hosts dns_fake_ip r s ≡ (faked s p', replied (fake_msg q ip r))
    unfolding new_handler compose
    new_handler-lookup rest none asked kept pool miss =
        with_fake_ip-lookup (with_mapping w a now st (with_resolver w a now st)) rest asked kept
          pool
    new_handler-lookup rest (some hosts) asked kept pool miss =
        with_hosts-miss
          (with_fake_ip w a now st (with_mapping w a now st (with_resolver w a now st))) rest asked
          kept pool hosts miss
        ∙ with_fake_ip-lookup (with_mapping w a now st (with_resolver w a now st)) rest asked kept
            pool

module _ (dec : Discrete Key) (w : Network) (a : Addresses) (now : ℕ) (net : Net) where
  -- In fake-IP mode with a valid pool, for an A question whose name neither the hosts file has nor
  -- the pool skips: the handler that `newHandler` builds replies with one A record that has an
  -- address and the time to live 1; and with the mapper as the handler left it, `preHandleMetadata`
  -- gives a connection without a host to that address the lower-case name as its host and no
  -- address. The empty host does not parse as an address, and `SetRcode` keeps the answer section.
  pub pre_handle_metadata-new_handler :
      (size : ℕ) (p : Pool MemoryStore) (l : List Item)
      → IsValid dec size p l
      → KeepsAnswer w.library
      → (hosts : Option (Node Ip)) (q : Question) (rest : List Question) (r : Msg)
        (s : Session MemoryStore)
      → r.question ≡ q ∷ rest
      → q.qtype ≡ type_a
      → s.enhancer.mode ≡ dns_fake_ip
      → s.enhancer.fake_pool ≡ some p
      → hosts_entry hosts (trim_right_dots q.name) ≡ none
      → should_skipped (memory dec) (trim_right_dots q.name) p ≡ false
      → (world : World) (m : Metadata) → world.parse_ip m.host ≡ none
      → is_empty m.host ≡ true
      → (ip : Ipv4) × (s' : Session MemoryStore) × (msg : Msg) × (new_handler w a now
            (memory dec)
            hosts
            dns_fake_ip
            r
            s
          ≡ (s', replied msg))
        × (msg.answer ≡ fake_record q ip ∷ [])
        × (pre_handle_metadata
              (record world { mapper = some (as_enhancer (memory dec) net s'.enhancer) })
              (record m { dst_ip = some (bytes ip) })
            ≡ some (record m {
              host = to_lower (trim_right_dots q.name);
              dst_ip = none;
              dns_mode = dns_fake_ip;
            }))
  pre_handle_metadata-new_handler size p l v keeps hosts q rest r s asked is_a mode pool miss kept
        world m no_ip unnamed =
      let (p', p'', ip, answered, back) =
        look_back-lookup dec size (trim_right_dots q.name) p l v in
      let s' = faked w a now (memory dec) s p' in
      (
        ip,
        s',
        fake_msg w a now (memory dec) q ip r,
        new_handler-lookup w a now (memory dec) q r s p p' ip is_a answered rest hosts asked kept
            pool miss,
        fake_msg-answer w a now (memory dec) keeps q ip r,
        pre_handle_metadata-look_back (memory dec) net
            (record world { mapper = some (as_enhancer (memory dec) net s'.enhancer) }) s'.enhancer
            refl mode (record m { dst_ip = some (bytes ip) }) (bytes ip) p' p''
            (to_lower (trim_right_dots q.name)) refl no_ip unnamed refl back,
      )
