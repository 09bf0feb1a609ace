-- ===== src/Dns/Resolver.antt =====
-- dns/resolver.go, with dns/filters.go and `batchExchange` of dns/util.go.
--
-- The network is a parameter: what the clients answer to a message, in the order in which they
-- return, a time-out being an error. A call that is under way is not shared, since requests come one
-- after the other; a goroutine of `asyncExchange` is a call.
use clash_flt.Prelude.{
  ℕ, ◌-◌, ◌*◌, ◌/◌, ◌%◌, Bool, true, false, ◌&&◌, ◌||◌, not, Option, none, some, List, [], ◌∷◌, map,
  ltb, ◌==◌, if◌then◌else◌,
}
use clash_flt.Prelude.Text.{Text, Text-discrete, equal_fold}
use clash_flt.Picker.{Result, ok, err, go_all, wait}
use clash_flt.Lru
use clash_flt.Lru.{LruCache, CacheOption}
use clash_flt.Trie
use clash_flt.Trie.{Node, data_of}
use clash_flt.Metadata.{Ip, is_some}
use clash_flt.FakeIp.{u32}
use clash_flt.Rule.{IpNet}
use clash_flt.Dns.{
  Msg, Question, Library, second, rcode_server_failure, rcode_refused, set_msg_ttl, update_msg_ttl,
  put_msg_to_cache, is_ip_request, msg_to_ip, trim_right_dots,
}

pub record NameServer : Type 0 where
  pub net : Text
  pub addr : Text
  pub interface : Text

pub data Client : Type 0 where
  doh : Text → Text → Client
  dhcp : Text → Client
  plain : Text → Text → Text → Text → Client

pub data IpFilter : Type 0 where
  geoip : Text → IpFilter
  ipnet : IpNet → IpFilter

pub data DnsError : Type 0 where
  no_question server_failure ip_version ip_not_found : DnsError
  all_failed : DnsError
  all_failed_with : DnsError → DnsError
  network_error : Text → DnsError

abbrev pub batch_error : Option DnsError → DnsError
batch_error none = all_failed
batch_error (some first) = all_failed_with first

abbrev pub Answer : Type 0
Answer = Result DnsError Msg

pub record Resolver : Type 0 where
  pub ipv6 : Bool
  pub hosts : Option (Node Ip)
  pub main : List Client
  pub fallback : Option (List Client)
  pub fallback_domain_filters : List (Node (Unit {0}))
  pub fallback_ip_filters : List IpFilter
  pub lru_cache : LruCache Text Msg
  pub policy : Option (Node (List Client))
  pub search_domains : List Text

pub record Network : Type 0 where
  pub library : Library
  pub exchange : List Client → Msg → List Answer
  pub country : Ip → Text
  pub is_private : Ip → Bool
  pub contains : IpNet → Ip → Bool
  pub parse_ip : Text → Option Ip
  pub split_host_port : Text → Text × Text

abbrev pub or_empty : Option (List Client) → List Client
or_empty none = []
or_empty (some clients) = clients

unfoldable pub head_name : List Question → Text
head_name [] = []
head_name (q ∷ _) = trim_right_dots q.name

unfoldable pub msg_to_domain : Msg → Text
msg_to_domain m = head_name m.question

unfoldable pub domain_matches : Text → List (Node (Unit {0})) → Bool
domain_matches domain [] = false
domain_matches domain (df ∷ filters) =
    is_some (Trie.search domain df) || domain_matches domain filters

unfoldable pub is_empty_list {ℓ} : {A : Type ℓ} → List A → Bool
is_empty_list [] = true
is_empty_list (_ ∷ _) = false

unfoldable pub should_only_query_fallback : Resolver → Msg → Bool
should_only_query_fallback r m =
    if not (is_some r.fallback) || is_empty_list r.fallback_domain_filters
    then false
    else if is_empty_list (msg_to_domain m)
    then false
    else domain_matches (msg_to_domain m) r.fallback_domain_filters

unfoldable pub found_policy : Option (Node (List Client)) → List Client
found_policy none = []
found_policy (some n) = or_empty (data_of n)

unfoldable pub match_policy : Resolver → Msg → List Client
match_policy r m = elim r.policy [
  | none ↦ []
  | some policy ↦
      if is_empty_list (msg_to_domain m)
      then []
      else found_policy (Trie.search (msg_to_domain m) policy)
]

module _ (w : Network) where
  open w use {library}

  unfoldable pub filter_match : Ip → IpFilter → Bool
  filter_match ip (geoip code) = not (equal_fold (w.country ip) code) && not (w.is_private ip)
  filter_match ip (ipnet net) = w.contains net ip

  unfoldable pub any_filter : Ip → List IpFilter → Bool
  any_filter ip [] = false
  any_filter ip (filter ∷ filters) = if filter_match ip filter then true else any_filter ip filters

  unfoldable pub should_ip_fallback : Resolver → Ip → Bool
  should_ip_fallback r ip = any_filter ip r.fallback_ip_filters

  -- The call of one client in `batchExchange`.
  unfoldable pub checked : Answer → Answer
  checked (err e) = err e
  checked (ok m) =
      if m.rcode == rcode_server_failure || m.rcode == rcode_refused
      then err server_failure
      else ok m

  unfoldable pub batch_exchange : List Client → Msg → Answer
  batch_exchange clients m =
      let fast = go_all (map checked (w.exchange clients m)) in
      elim (wait fast) [ none ↦ err (batch_error fast.error) | some msg ↦ ok msg ]

  -- `ipExchange` when the main servers have answered and there is a fallback.
  unfoldable pub keeps_main : Resolver → Answer → Bool
  keeps_main r (err e) = false
  keeps_main r (ok msg) = elim (msg_to_ip msg.answer) [
    | [] ↦ false
    | ip ∷ _ ↦ not (should_ip_fallback r ip)
  ]

  unfoldable pub ip_exchange : Resolver → Msg → Answer
  ip_exchange r m =
      if not (is_empty_list (match_policy r m))
      then batch_exchange (match_policy r m) m
      else if should_only_query_fallback r m
      then batch_exchange (or_empty r.fallback) m
      else elim r.fallback [
        | none ↦ batch_exchange r.main m
        | some fallback ↦
            let res = batch_exchange r.main m in
            if keeps_main r res then res else batch_exchange fallback m
      ]

  unfoldable pub exchange_question : Resolver → Question → Msg → Answer
  exchange_question r q m =
      if is_ip_request q
      then ip_exchange r m
      else if not (is_empty_list (match_policy r m))
      then batch_exchange (match_policy r m) m
      else batch_exchange r.main m

  unfoldable pub exchange_without_cache : ℕ → Question → Msg → Resolver → Resolver × Answer
  exchange_without_cache now q m r = elim (exchange_question r q m) [
    | err e ↦ (r, err e)
    | ok msg ↦ (
      record r {
        lru_cache = put_msg_to_cache library now (library.question_string q) msg r.lru_cache;
      },
      ok msg,
    )
  ]

  -- A hit: the message with its times to live, and whether the answer is fetched again meanwhile.
  unfoldable pub from_cache : ℕ → Msg × ℕ → Msg × Bool
  from_cache now (msg, expire_time) =
      if ltb (expire_time * second) now
      then (set_msg_ttl msg 1, true)
      else (update_msg_ttl library msg ((expire_time * second - now) / second % u32), false)

  -- The goroutine of a stale hit is taken to end before the next request.
  unfoldable pub refetch : Bool → ℕ → Question → Msg → Resolver → Resolver
  refetch false now q m r = r
  refetch true now q m r = (exchange_without_cache now q m r).0

  unfoldable pub exchange_context : ℕ → Msg → Resolver → Resolver × Answer
  exchange_context now m r = elim m.question [
    | [] ↦ (r, err no_question)
    | q ∷ _ ↦
        let (cache, hit) =
          Lru.get_with_expire Text-discrete (now / second) (now / second)
            (library.question_string q) r.lru_cache in
        let r' = record r { lru_cache = cache } in
        elim hit [
          | none ↦ exchange_without_cache now q m r'
          | some found ↦
              let (msg, stale) = from_cache now found in (refetch stale now q m r', ok msg)
        ]
  ]
