-- ===== src/Dns/Fallback.antt =====
-- When the answer of the main servers is taken although there are fallback servers.
use clash_flt.Prelude.{
  ◌≡◌, ◌∙◌, refl, sym, ap, subst, ◌⊎◌, inl, inr, true, false, some, List, [], ◌∷◌, All, Bool-cases,
  arith,
}
use clash_flt.Prelude.Text.{Text}
use clash_flt.Metadata.{Ip, is_some}
use clash_flt.Trie
use clash_flt.Trie.{Node}
use clash_flt.Picker.{ok}
use clash_flt.Dns.{Msg, msg_to_ip}
use clash_flt.Dns.Resolver.{
  Client, IpFilter, Resolver, Network, is_empty_list, match_policy, should_only_query_fallback,
  domain_matches, msg_to_domain, filter_match, any_filter, should_ip_fallback, batch_exchange,
  keeps_main, ip_exchange,
}

-- No domain filter matches the domain that is asked for, if there is one.
abbrev pub Unfiltered : Resolver → Msg → Type 0
Unfiltered r m =
    (msg_to_domain m ≡ [])
    ⊎ All (λ df. is_some (Trie.search (msg_to_domain m) df) ≡ false) r.fallback_domain_filters

domain_matches-false :
    (domain : Text) (filters : List (Node (Unit {0})))
    → domain_matches domain filters ≡ false
    → All (λ df. is_some (Trie.search domain df) ≡ false) filters
unfolding domain_matches
domain_matches-false domain [] h = tt
domain_matches-false domain (df ∷ filters) h =
    (ground arith, domain_matches-false domain filters (ground arith))

is_empty_list-true {ℓ} : {A : Type ℓ} (l : List A) → is_empty_list l ≡ true → l ≡ []
unfolding is_empty_list
is_empty_list-true [] h = refl
is_empty_list-true (x ∷ l) h = absurd (ground arith)

only-false :
    (r : Resolver) (m : Msg) (fallback : List Client)
    → r.fallback ≡ some fallback
    → should_only_query_fallback r m ≡ false
    → Unfiltered r m
unfolding should_only_query_fallback
only-false r m fallback has h = elim (Bool-cases (is_empty_list r.fallback_domain_filters)) [
  | inl no_filters ↦ inr (
      subst (All (λ df. is_some (Trie.search (msg_to_domain m) df) ≡ false))
        (sym (is_empty_list-true r.fallback_domain_filters no_filters)) tt)
  | inr filters ↦ elim (Bool-cases (is_empty_list (msg_to_domain m))) [
    | inl no_domain ↦ inl (is_empty_list-true (msg_to_domain m) no_domain)
    | inr domain ↦
        inr (domain_matches-false (msg_to_domain m) r.fallback_domain_filters (ground arith))
  ]
]

module _ (w : Network) where
  any_filter-false :
      (ip : Ip) (filters : List IpFilter)
      → any_filter w ip filters ≡ false
      → All (λ f. filter_match w ip f ≡ false) filters
  unfolding any_filter
  any_filter-false ip [] h = tt
  any_filter-false ip (f ∷ filters) h = (ground arith, any_filter-false ip filters (ground arith))

  -- The message's first address passes every address filter.
  abbrev pub Passes : Resolver → Msg → Type 0
  Passes r msg =
      (ip : Ip) × (rest : List Ip) × (msg_to_ip msg.answer ≡ ip ∷ rest)
      × All (λ f. filter_match w ip f ≡ false) r.fallback_ip_filters

  Ip-cases : (l : List Ip) → (l ≡ []) ⊎ ((ip : Ip) × (rest : List Ip) × (l ≡ ip ∷ rest))
  Ip-cases [] = inl refl
  Ip-cases (ip ∷ rest) = inr (ip, rest, refl)

  keeps_main-Passes : (r : Resolver) (msg : Msg) → keeps_main w r (ok msg) ≡ true → Passes r msg
  unfolding keeps_main should_ip_fallback
  keeps_main-Passes r msg h = elim (Ip-cases (msg_to_ip msg.answer)) [
    | inl empty ↦ absurd (ground arith)
    | inr (ip, rest, e) ↦ (ip, rest, e, any_filter-false ip r.fallback_ip_filters (ground arith))
  ]

  -- With fallback servers and no policy for the name, an answer that `ipExchange` returns is either
  -- the fallback servers' answer; or it is the main servers' answer, its first address matches no
  -- address filter, and no domain filter matches the name that is asked for, if there is one.
  pub ip_exchange-Passes :
      (r : Resolver) (m msg : Msg) (fallback : List Client)
      → match_policy r m ≡ []
      → r.fallback ≡ some fallback
      → ip_exchange w r m ≡ ok msg
      → (batch_exchange w fallback m ≡ ok msg)
        ⊎ ((batch_exchange w r.main m ≡ ok msg) × Unfiltered r m × Passes r msg)
  unfolding ip_exchange is_empty_list
  ip_exchange-Passes r m msg fallback no_policy has h =
      elim (Bool-cases (should_only_query_fallback r m)) [
        | inl only ↦ inl (ground arith)
        | inr both ↦ elim (Bool-cases (keeps_main w r (batch_exchange w r.main m))) [
          | inl kept ↦
              let main : batch_exchange w r.main m ≡ ok msg = ground arith in
              inr (
                main,
                only-false r m fallback has both,
                keeps_main-Passes r msg (ap (keeps_main w r) (sym main) ∙ kept),
              )
          | inr dropped ↦ inl (ground arith)
        ]
      ]
