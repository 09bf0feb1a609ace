-- ===== src/Dns/Middleware.antt =====
-- dns/middleware.go, and the handler of dns/server.go.
--
-- A handler takes a message and the session: the host mapper and the resolver, which it shares with
-- other requests, and the type that the context records. All readings of the clock for one message
-- are the same.
use mathlib.Core.List.{foldr}
use clash_flt.Prelude.{
  ℕ, ◌+◌, ◌*◌, ◌/◌, Bool, true, ◌&&◌, ◌||◌, not, Option, none, some, List, [], ◌∷◌, ◌++◌, ltb, ◌==◌,
  if◌then◌else◌, length,
}
use clash_flt.Prelude.Text.{Text, Text-discrete}
use clash_flt.Picker.{Result, ok, err}
use clash_flt.Lru
use clash_flt.Lru.{LruCache}
use clash_flt.Trie
use clash_flt.Trie.{Node, data_of}
use clash_flt.Metadata.{Ip, DnsMode}
use clash_flt.FakeIp.{Ipv4, Store, Pool, to4, lookup, should_skipped}
use clash_flt.Enhancer.{ResolverEnhancer, is_fake_mode}
use clash_flt.Dns.{
  Msg, Question, Rr, a_rr, aaaa_rr, other_rr, type_a, type_aaaa, type_svcb, type_https, class_inet,
  rcode_success, second, set_msg_ttl, is_ip_request, trim_right_dots, handle_msg_with_empty_answer,
}
use clash_flt.Dns.Resolver.{Resolver, Network, DnsError, no_question, exchange_context}

pub data DnsType : Type 0 where
  host_type fake_ip_type raw_type : DnsType

pub record Session (S : Type 0) : Type 0 where
  pub enhancer : ResolverEnhancer S
  pub resolver : Resolver
  pub dns_type : Option DnsType

pub data Reply : Type 0 where
  replied : Msg → Reply
  failed : DnsError → Reply
  panicked : Reply

abbrev pub Handler : Type 0 → Type 0
Handler S = Msg → Session S → Session S × Reply

abbrev pub dns_default_ttl : ℕ
dns_default_ttl = 600

-- Methods of net.IP that the code asks for besides `To4`.
pub record Addresses : Type 0 where
  pub is_global_unicast : Ip → Bool
  pub ip_string : Ip → Text

abbrev pub bytes : Ipv4 → Ip
bytes v = v.a ∷ v.b ∷ v.c ∷ v.d ∷ []

unfoldable pub to16 : Ip → Option Ip
to16 ip =
    if length ip == 4
    then some (0 ∷ 0 ∷ 0 ∷ 0 ∷ 0 ∷ 0 ∷ 0 ∷ 0 ∷ 0 ∷ 0 ∷ 255 ∷ 255 ∷ ip)
    else if length ip == 16
    then some ip
    else none

unfoldable pub a_record : Question → Ip → Rr
a_record q ip =
    a_rr (record { name = q.name; rrtype = type_a; class = class_inet; ttl = dns_default_ttl }) ip

unfoldable pub aaaa_record : Question → Ip → Rr
aaaa_record q ip =
    aaaa_rr
      (record { name = q.name; rrtype = type_aaaa; class = class_inet; ttl = dns_default_ttl }) ip

-- The record that the hosts file gives for a question, if the address fits its type.
unfoldable pub hosts_record : Question → Ip → Option Rr
hosts_record q ip =
    let six : Option Rr = elim (to16 ip) [
      | none ↦ none
      | some v6 ↦ if q.qtype == type_aaaa then some (aaaa_record q v6) else none
    ] in
    elim (to4 ip) [
      | none ↦ six
      | some v4 ↦ if q.qtype == type_a then some (a_record q (bytes v4)) else six
    ]

unfoldable pub hosts_data : Option (Node Ip) → Option Ip
hosts_data none = none
hosts_data (some n) = data_of n

module _ (w : Network) (a : Addresses) (now : ℕ) {S : Type 0} (st : Store S) where
  -- A reply that does not come from a server.
  unfoldable pub own_reply : Msg → Msg → Msg
  own_reply r msg = record (w.library.set_rcode msg r rcode_success) {
    authoritative = true;
    recursion_available = true;
  }

  unfoldable pub with_hosts_for : Node Ip → Question → Handler S → Handler S
  with_hosts_for hosts q next r s =
      if not (is_ip_request q)
      then next r s
      else elim (hosts_data (Trie.search (trim_right_dots q.name) hosts)) [
        | none ↦ next r s
        | some ip ↦ elim (hosts_record q ip) [
          | none ↦ next r s
          | some rr ↦ (
            record s { dns_type = some host_type },
            replied (own_reply r (record r { answer = rr ∷ [] })),
          )
        ]
      ]

  -- `r.Question[0]` panics without a question.
  abbrev pub for_question : (Question → Handler S) → Handler S
  for_question f r s = elim r.question [ [] ↦ (s, panicked) | q ∷ _ ↦ f q r s ]

  unfoldable pub with_hosts : Node Ip → Handler S → Handler S
  with_hosts hosts next = for_question (λ q. with_hosts_for hosts q next)

  -- An answer that the mapping remembers: its address and how long, at least a second.
  unfoldable pub noted : Rr → Option (Ip × ℕ)
  noted (a_rr h ip) =
      if a.is_global_unicast ip then some (ip, if ltb h.ttl 1 then 1 else h.ttl) else none
  noted (aaaa_rr h ip) =
      if a.is_global_unicast ip then some (ip, if ltb h.ttl 1 then 1 else h.ttl) else none
  noted (other_rr h d) = none

  -- The loop of `withMapping`; `none` is the panic of a write to a cache that is nil.
  unfoldable pub remember :
      Text → List Rr → Option (LruCache Text Text) → Option (Option (LruCache Text Text))
  remember host [] m = some m
  remember host (ans ∷ answer) m = elim (noted ans) [
    | none ↦ remember host answer m
    | some (ip, ttl) ↦ elim m [
      | none ↦ none
      | some c ↦ remember host answer (
          some (
            Lru.set_with_expire Text-discrete (now / second) (a.ip_string ip) host
              ((now + ttl * second) / second) c))
    ]
  ]

  unfoldable pub remember_reply : Question → Session S × Reply → Session S × Reply
  remember_reply q (s, failed e) = (s, failed e)
  remember_reply q (s, panicked) = (s, panicked)
  remember_reply q (s, replied msg) =
      elim (remember (trim_right_dots q.name) msg.answer s.enhancer.mapping) [
        | none ↦ (s, panicked)
        | some m ↦ (record s { enhancer = record s.enhancer { mapping = m } }, replied msg)
      ]

  unfoldable pub with_mapping : Handler S → Handler S
  with_mapping next =
      for_question λ q r s. if not (is_ip_request q) then next r s else remember_reply q (next r s)

  -- An A question for a host that the pool does not skip.
  unfoldable pub fake_reply : Question → Msg → Session S → Pool S → Session S × Reply
  fake_reply q r s pool = elim (lookup st (trim_right_dots q.name) pool) [
    | none ↦ (s, panicked)
    | some (pool', ip) ↦ (
      record s {
        enhancer = record s.enhancer { fake_pool = some pool' };
        dns_type = some fake_ip_type;
      },
      replied (own_reply r (set_msg_ttl (record r { answer = a_record q (bytes ip) ∷ [] }) 1)),
    )
  ]

  unfoldable pub with_fake_ip_for : Question → Pool S → Handler S → Handler S
  with_fake_ip_for q pool next r s =
      if should_skipped st (trim_right_dots q.name) pool
      then next r s
      else if q.qtype == type_aaaa || q.qtype == type_svcb || q.qtype == type_https
      then (s, replied (handle_msg_with_empty_answer w.library r))
      else if not (q.qtype == type_a)
      then next r s
      else fake_reply q r s pool

  unfoldable pub with_fake_ip : Handler S → Handler S
  with_fake_ip next = for_question λ q r s. elim s.enhancer.fake_pool [
    | none ↦ (s, panicked)
    | some pool ↦ with_fake_ip_for q pool next r s
  ]

  unfoldable pub resolver_reply : Msg → Result DnsError Msg → Reply
  resolver_reply r (err e) = failed e
  resolver_reply r (ok msg) =
      replied (record (w.library.set_rcode msg r msg.rcode) { authoritative = true })

  unfoldable pub with_resolver : Handler S
  with_resolver = for_question λ q r s.
      let s' = record s { dns_type = some raw_type } in
      if not s.resolver.ipv6 && q.qtype == type_aaaa
      then (s', replied (handle_msg_with_empty_answer w.library r))
      else let (resolver, answer) = exchange_context w now r s.resolver in
        (record s' { resolver = resolver }, resolver_reply r answer)

  unfoldable pub compose : List (Handler S → Handler S) → Handler S → Handler S
  compose middlewares endpoint = foldr (λ middleware h. middleware h) endpoint middlewares

  abbrev pub hosts_middleware : Option (Node Ip) → List (Handler S → Handler S)
  hosts_middleware none = []
  hosts_middleware (some hosts) = with_hosts hosts ∷ []

  unfoldable pub new_handler : Option (Node Ip) → DnsMode → Handler S
  new_handler hosts mode =
      compose
        (hosts_middleware hosts
          ++ (if is_fake_mode mode then with_fake_ip ∷ with_mapping ∷ [] else []))
        with_resolver

  unfoldable pub handler_with_context : Handler S → Handler S
  handler_with_context handler msg s = elim msg.question [
    | [] ↦ (s, failed no_question)
    | _ ∷ _ ↦ handler msg (record s { dns_type = none })
  ]
