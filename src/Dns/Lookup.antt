-- ===== src/Dns/Lookup.antt =====
-- The lookups of dns/resolver.go, by which the program resolves a host.
use clash_flt.Prelude.{ℕ, none, some, List, [], ◌∷◌, ◌++◌, ◌==◌, if◌then◌else◌, get_elem?, length}
use clash_flt.Prelude.Text.{Text}
use clash_flt.Picker.{Result, ok, err}
use clash_flt.Metadata.{Ip}
use clash_flt.FakeIp.{to4}
use clash_flt.Dns.{type_a, type_aaaa, msg_to_ip}
use clash_flt.Dns.Resolver.{DnsError, ip_version, ip_not_found, Resolver, Network, exchange_context}

module _ (w : Network) where
  open w use {library}

  -- The loop over the search domains.
  unfoldable pub search_serially :
      ℕ → Text → ℕ → List Text → Resolver → Resolver × Result DnsError (List Ip)
  search_serially now host dns_type [] r = (r, err ip_not_found)
  search_serially now host dns_type (domain ∷ domains) r =
      let q = library.set_question (host ++ b'.' ∷ domain) dns_type in
      let step = exchange_context w now q r in
      let rest = search_serially now host dns_type domains step.0 in
      elim step.1 [
        | err e ↦ (step.0, err e)
        | ok msg ↦ elim (msg_to_ip msg.answer) [ [] ↦ rest | ip ∷ ips ↦ (step.0, ok (ip ∷ ips)) ]
      ]

  unfoldable pub parsed_ip : Ip → ℕ → Result DnsError (List Ip)
  parsed_ip ip dns_type = elim (to4 ip) [
    | none ↦ if dns_type == type_aaaa then ok (ip ∷ []) else err ip_version
    | some v4 ↦
        if dns_type == type_a then ok ((v4.a ∷ v4.b ∷ v4.c ∷ v4.d ∷ []) ∷ []) else err ip_version
  ]

  unfoldable pub query_ip : ℕ → Text → ℕ → Resolver → Resolver × Result DnsError (List Ip)
  query_ip now host dns_type r =
      let step = exchange_context w now (library.set_question host dns_type) r in
      elim step.1 [
        | err e ↦ (step.0, err e)
        | ok msg ↦ elim (msg_to_ip msg.answer) [
          | [] ↦ search_serially now host dns_type r.search_domains step.0
          | ip ∷ ips ↦ (step.0, ok (ip ∷ ips))
        ]
      ]

  unfoldable pub lookup_one : ℕ → Text → ℕ → Resolver → Resolver × Result DnsError (List Ip)
  lookup_one now host dns_type r = elim (w.parse_ip host) [
    | some ip ↦ (r, parsed_ip ip dns_type)
    | none ↦ query_ip now host dns_type r
  ]

  unfoldable pub lookup_ipv4 : ℕ → Text → Resolver → Resolver × Result DnsError (List Ip)
  lookup_ipv4 now host = lookup_one now host type_a

  unfoldable pub lookup_ipv6 : ℕ → Text → Resolver → Resolver × Result DnsError (List Ip)
  lookup_ipv6 now host = lookup_one now host type_aaaa

  -- The goroutine for the AAAA records is taken to go first; its error only says "not found".
  unfoldable pub prefer_a :
      Result DnsError (List Ip) → Result DnsError (List Ip) → Result DnsError (List Ip)
  prefer_a (ok ips) six = ok ips
  prefer_a (err e) (ok ips) = ok ips
  prefer_a (err e) (err e') = err ip_not_found

  unfoldable pub lookup_ip : ℕ → Text → Resolver → Resolver × Result DnsError (List Ip)
  lookup_ip now host r =
      let (r1, six) = lookup_one now host type_aaaa r in
      let (r2, four) = lookup_one now host type_a r1 in (r2, prefer_a four six)

  -- `ips[rand.Intn(len(ips))]`, with the number drawn.
  unfoldable pub pick : (ℕ → ℕ) → Result DnsError (List Ip) → Result DnsError Ip
  pick rand (err e) = err e
  pick rand (ok ips) = elim (get_elem? ips (rand (length ips))) [
    | none ↦ err ip_not_found
    | some ip ↦ ok ip
  ]
