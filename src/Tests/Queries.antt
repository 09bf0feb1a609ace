-- ===== src/Tests/Queries.antt =====
-- Examples for dns/.
use clash_flt.Prelude.{
  ℕ, ◌≡◌, ◌≤◌, ◌<◌, ◌-◌, ◌*◌, ◌/◌, ◌%◌, ◌⊎◌, inl, inr, refl, sym, subst, true, false, Bool, none,
  some, List, [], ◌∷◌, map, ltb, if◌then◌else◌, All, arith, Bool-cases,
}
use clash_flt.Prelude.Text.{Text-discrete, codes, to_lower}
use clash_flt.Picker.{ok, err, go_all, wait, new_picker, returned}
use clash_flt.Lru
use clash_flt.Lru.{apply_options, apply_option}
use clash_flt.Lru.Refine.{IsValid}
use clash_flt.Lru.Operations.{new-Shows}
use clash_flt.Metadata.{dns_fake_ip}
use clash_flt.FakeIp.{Ipv4, MemoryStore, memory, u32, should_skipped}
use clash_flt.Enhancer.{Net}
use clash_flt.Enhancer.Mapper.{as_enhancer}
use clash_flt.Tunnel.{pre_handle_metadata}
use clash_flt.Dns.{
  Msg, Question, Rr, a_rr, Library, msg_to_ip, empty_msg, less_ttl, minimal_ttl, update_ttl, second,
  set_msg_ttl, update_msg_ttl, trim_right_dots, is_ip_request,
}
use clash_flt.Dns.Resolver.{
  Client, plain, Resolver, Network, network_error, exchange_without_cache, exchange_context,
  exchange_question, ip_exchange, is_empty_list, should_only_query_fallback, checked, keeps_main,
  should_ip_fallback, any_filter, batch_exchange, match_policy,
}
use clash_flt.Dns.Middleware.{Session, replied, Addresses, bytes, new_handler}
use clash_flt.Dns.FakeAnswers.{KeepsAnswer, fake_record, pre_handle_metadata-new_handler}
use clash_flt.Dns.Ttl.{ttl_of, lowered, Any, Documented, update_ttl_lem}
use clash_flt.Dns.Exchange.{Decided, batch_exchange-Decided}
use clash_flt.Dns.Fallback.{Passes, Unfiltered, ip_exchange-Passes}
use clash_flt.Dns.Caching.{expiry, exchange_context-exchange_without_cache}
use clash_flt.Tests.Pools.{pool, pool-IsValid, Key-discrete}
use clash_flt.Tests.Routes.{metadata, world}

abbrev net : Net
net = record { contains = λ ip. true; printed = λ ip. ip }

abbrev least_by : (Rr → Rr → Bool) → Rr → List Rr → Rr
least_by less r [] = r
least_by less r (s ∷ records) =
    if less s r then least_by less s records else least_by less r records

abbrev library : Library
library = record {
  set_rcode = λ m r c. record m { rcode = c; question = r.question };
  set_question =
      λ host t. record empty_msg { question = record { name = host; qtype = t; qclass = 1 } ∷ [] };
  question_string = λ q. q.qtype ∷ q.name;
  min_by = least_by;
  clamp = λ v lo hi. if ltb v lo then lo else if ltb hi v then hi else v;
}

library-KeepsAnswer : KeepsAnswer library
library-KeepsAnswer m r c = refl

step-less :
    (r s : Rr) (records : List Rr)
    → ltb (ttl_of s) (ttl_of r) ≡ true
    → least_by (less_ttl library) r (s ∷ records) ≡ least_by (less_ttl library) s records
unfolding less_ttl
step-less r s records h = rw h refl

step-more :
    (r s : Rr) (records : List Rr)
    → ltb (ttl_of s) (ttl_of r) ≡ false
    → least_by (less_ttl library) r (s ∷ records) ≡ least_by (less_ttl library) r records
unfolding less_ttl
step-more r s records h = rw h refl

least_by-le :
    (r : Rr) (records : List Rr)
    → All (λ s. ttl_of (least_by (less_ttl library) r records) ≤ ttl_of s) (r ∷ records)
least_by-le r [] = (omega arith, tt)
least_by-le r (s ∷ records) = elim (Bool-cases (ltb (ttl_of s) (ttl_of r))) [
  | inl less ↦
      let h = least_by-le s records in
      subst (λ x. All (λ t. ttl_of x ≤ ttl_of t) (r ∷ s ∷ records))
        (sym (step-less r s records less)) (ground (arith, h.0), h)
  | inr more ↦
      let h = least_by-le r records in
      subst (λ x. All (λ t. ttl_of x ≤ ttl_of t) (r ∷ s ∷ records))
        (sym (step-more r s records more)) (h.0, (ground (arith, h.0), h.1))
]

least_by-Any :
    (r : Rr) (records : List Rr)
    → Any (λ s. ttl_of s ≡ ttl_of (least_by (less_ttl library) r records)) (r ∷ records)
least_by-Any r [] = inl refl
least_by-Any r (s ∷ records) = elim (Bool-cases (ltb (ttl_of s) (ttl_of r))) [
  | inl less ↦
      subst (λ x. Any (λ t. ttl_of t ≡ ttl_of x) (r ∷ s ∷ records))
        (sym (step-less r s records less)) (inr (least_by-Any s records))
  | inr more ↦
      subst (λ x. Any (λ t. ttl_of t ≡ ttl_of x) (r ∷ s ∷ records))
        (sym (step-more r s records more)) (skip_second (least_by-Any r records))
]
  where
    skip_second : {P Q R : Type 0} → P ⊎ R → P ⊎ (Q ⊎ R)
    skip_second (inl p) = inl p
    skip_second (inr x) = inr (inr x)

library-Documented : Documented library
library-Documented = record {
  least = least_by-le;
  member = least_by-Any;
  clamped = λ v lo hi h. refl;
}

abbrev record_with : ℕ → Rr
record_with n =
    a_rr (record { name = codes "a."; rrtype = 1; class = 1; ttl = n }) (1 ∷ 2 ∷ 3 ∷ 4 ∷ [])

least_is : minimal_ttl library (record_with 300 ∷ record_with 100 ∷ []) ≡ 100
unfolding minimal_ttl less_ttl
least_is = refl

update_ttl_lem_example :
    (update_ttl library (record_with 300 ∷ record_with 100 ∷ []) 60
      ≡ map
          (lowered (minimal_ttl library (record_with 300 ∷ record_with 100 ∷ [])) 60)
          (record_with 300 ∷ record_with 100 ∷ []))
    × (minimal_ttl library (update_ttl library (record_with 300 ∷ record_with 100 ∷ []) 60) ≡ 60)
update_ttl_lem_example =
    update_ttl_lem library library-Documented (record_with 300) (record_with 100 ∷ []) 60
      (omega arith, (omega arith, tt)) (omega arith) (omega (arith, least_is))

abbrev asked : Question
asked = record { name = codes "Foo.com."; qtype = 1; qclass = 1 }

abbrev query : Msg
query = record empty_msg { question = asked ∷ [] }

abbrev reply : Msg
reply = record query { answer = record_with 100 ∷ [] }

-- The first client does not answer, the second one does.
abbrev network : Network
network = record {
  library = library;
  exchange = λ clients m. err (network_error []) ∷ ok reply ∷ [];
  country = λ ip. [];
  is_private = λ ip. false;
  contains = λ n ip. false;
  parse_ip = λ host. none;
  split_host_port = λ s. (s, []);
}

abbrev client : Client
client = plain [] (codes "1.1.1.1") (codes "53") []

abbrev resolver : Resolver
resolver = record {
  ipv6 = false;
  hosts = none;
  main = client ∷ [];
  fallback = some (client ∷ []);
  fallback_domain_filters = [];
  fallback_ip_filters = [];
  lru_cache = Lru.new (Lru.with_size 4096 ∷ Lru.with_stale true ∷ []);
  policy = none;
  search_domains = [];
}

batch_exchange-Decided_example :
    Decided (network.exchange (client ∷ []) query) (batch_exchange network (client ∷ []) query)
batch_exchange-Decided_example = batch_exchange-Decided network (client ∷ []) query

no_policy : match_policy resolver query ≡ []
unfolding match_policy
no_policy = refl

main_answers : ip_exchange network resolver query ≡ ok reply
unfolding ip_exchange match_policy is_empty_list should_only_query_fallback batch_exchange go_all
    wait new_picker returned checked keeps_main msg_to_ip should_ip_fallback any_filter empty_msg
main_answers = refl

ip_exchange-Passes_example :
    (batch_exchange network (client ∷ []) query ≡ ok reply)
    ⊎ ((batch_exchange network (client ∷ []) query ≡ ok reply)
        × Unfiltered resolver query
        × Passes network resolver reply)
ip_exchange-Passes_example =
    ip_exchange-Passes network resolver query reply (client ∷ []) no_policy refl main_answers

abbrev after : Resolver
after = (exchange_without_cache network 0 asked query resolver).0

first_exchange : exchange_without_cache network 0 asked query resolver ≡ (after, ok reply)
unfolding exchange_without_cache exchange_question is_ip_request ip_exchange empty_msg is_empty_list
    match_policy should_only_query_fallback keeps_main batch_exchange wait go_all returned checked
    new_picker msg_to_ip should_ip_fallback any_filter
first_exchange = refl

valid_cache : IsValid Text-discrete resolver.lru_cache
valid_cache = (new-Shows Text-discrete (Lru.with_size 4096 ∷ Lru.with_stale true ∷ [])).valid

ageless : resolver.lru_cache.max_age ≡ 0
unfolding Lru.new apply_options apply_option
ageless = refl

reply_lasts : 0 < minimal_ttl library reply.answer
unfolding minimal_ttl
reply_lasts = omega arith

exchange_context-exchange_without_cache_example :
    (exchange_context (record network { exchange = λ clients m. [] }) 5 query after).1
    ≡ ok (
        if ltb (expiry library 0 reply * second) 5
        then set_msg_ttl reply 1
        else update_msg_ttl library reply ((expiry library 0 reply * second - 5) / second % u32))
exchange_context-exchange_without_cache_example =
    exchange_context-exchange_without_cache network resolver after query reply asked [] 0 5
      (λ clients m. []) valid_cache ageless refl first_exchange reply_lasts

abbrev session : Session MemoryStore
session = record {
  enhancer = record { mode = dns_fake_ip; fake_pool = some pool; mapping = none };
  resolver = resolver;
  dns_type = none;
}

abbrev addresses : Addresses
addresses = record { is_global_unicast = λ ip. true; ip_string = λ ip. ip }

kept : should_skipped (memory Key-discrete) (trim_right_dots asked.name) pool ≡ false
unfolding should_skipped
kept = refl

pre_handle_metadata-new_handler_example :
    (ip : Ipv4) × (s' : Session MemoryStore) × (msg : Msg) × (new_handler network addresses 0
        (memory Key-discrete)
        none
        dns_fake_ip
        query
        session
      ≡ (s', replied msg))
    × (msg.answer ≡ fake_record asked ip ∷ [])
    × (pre_handle_metadata
          (record world { mapper = some (as_enhancer (memory Key-discrete) net s'.enhancer) })
          (record metadata { dst_ip = some (bytes ip) })
        ≡ some (record metadata {
          host = to_lower (trim_right_dots asked.name);
          dst_ip = none;
          dns_mode = dns_fake_ip;
        }))
pre_handle_metadata-new_handler_example =
    pre_handle_metadata-new_handler Key-discrete network addresses 0 net 10 pool [] pool-IsValid
      library-KeepsAnswer none asked [] query session refl refl refl refl refl kept world metadata
      refl refl
