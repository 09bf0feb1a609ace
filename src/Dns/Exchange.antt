-- ===== src/Dns/Exchange.antt =====
-- Which server's answer a request gets.
use mathlib.Core.List.{foldl}
use clash_flt.Prelude.{
  ◌≡◌, ◌≢◌, refl, ap, ◌⊎◌, inl, inr, none, some, List, [], ◌∷◌, ◌++◌, map, All, ◌==◌, Bool-cases,
  arith,
}
use clash_flt.Picker.{ok, err, Picker, new_picker, returned, go_all, wait}
use clash_flt.Dns.{Msg, rcode_server_failure, rcode_refused}
use clash_flt.Dns.Resolver.{
  Client, DnsError, server_failure, Answer, Network, checked, batch_exchange,
}

-- An answer that does not count: an error, or a server's failure or refusal.
abbrev pub IsBad : Answer → Type 0
IsBad (err e) = Unit
IsBad (ok m) = (m.rcode ≡ rcode_server_failure) ⊎ (m.rcode ≡ rcode_refused)

-- The result of a batch on the answers in their order: the first that counts, or an error if none does.
abbrev pub Decided : List Answer → Answer → Type 0
Decided answers (ok msg) =
    (before after : List Answer) × (answers ≡ before ++ ok msg ∷ after)
    × All IsBad before
    × (msg.rcode ≢ rcode_server_failure)
    × (msg.rcode ≢ rcode_refused)
Decided answers (err e) = All IsBad answers

module _ (w : Network) where
  abbrev fast : Picker DnsError Msg → List Answer → Picker DnsError Msg
  fast p answers = foldl returned p (map (checked w) answers)

  result-kept :
      (p : Picker DnsError Msg) (m : Msg) (answers : List Answer)
      → p.result ≡ some m
      → (fast p answers).result ≡ some m
  unfolding returned
  result-kept p m [] kept = kept
  result-kept p m (r ∷ answers) kept =
      result-kept (returned p (checked w r)) m answers (kept_once p (checked w r) kept)
    where
      kept_once :
          (p : Picker DnsError Msg) (r : Answer)
          → p.result ≡ some m
          → (returned p r).result ≡ some m
      kept_once p (ok n) kept = rw kept refl
      kept_once p (err e) kept = kept

  abbrev Found : Picker DnsError Msg → List Answer → Type 0
  Found p answers =
      ((m : Msg) × ((fast p answers).result ≡ some m) × Decided answers (ok m))
      ⊎ (((fast p answers).result ≡ none) × All IsBad answers)

  -- A client's message counts unless its code is one of two.
  checked_cases :
      (m : Msg)
      → ((checked w (ok m) ≡ err server_failure) × IsBad (ok m))
        ⊎ ((checked w (ok m) ≡ ok m) × (m.rcode ≢ rcode_server_failure) × (m.rcode ≢ rcode_refused))
  unfolding checked
  checked_cases m = elim (Bool-cases (m.rcode == 2)) [
    | inl failure ↦ inl (rw (failure, checked) refl, inl (ground arith))
    | inr good ↦ elim (Bool-cases (m.rcode == 5)) [
      | inl refused ↦ inl (rw (good, refused, checked) refl, inr (ground arith))
      | inr good' ↦ inr (rw (good, good', checked) refl, ground arith, ground arith)
    ]
  ]

  -- A call that does not count leaves the picker without a result.
  skip :
      (p : Picker DnsError Msg) (r : Answer) (e : DnsError) (answers : List Answer)
      → checked w r ≡ err e
      → IsBad r
      → Found (returned p (err e)) answers
      → Found p (r ∷ answers)
  skip p r e answers c bad (inl (m, found, (before, after, split, bads, ok2, ok5))) =
      inl (m, rw c found, (r ∷ before, after, ap (λ l. r ∷ l) split, (bad, bads), ok2, ok5))
  skip p r e answers c bad (inr (missing, bads)) = inr (rw c missing, (bad, bads))

  Found-first :
      (p : Picker DnsError Msg) (answers : List Answer) → p.result ≡ none → Found p answers
  unfolding returned new_picker checked
  Found-first p [] empty = inr (empty, tt)
  Found-first p (err e ∷ answers) empty =
      skip p (err e) e answers refl tt (Found-first (returned p (err e)) answers empty)
  Found-first p (ok m ∷ answers) empty = elim (checked_cases m) [
    | inl (c, bad) ↦
        skip p (ok m) server_failure answers c bad
          (Found-first (returned p (err server_failure)) answers empty)
    | inr (c, ok2, ok5) ↦ inl (
      m,
      rw (c, empty) (result-kept _ m answers (ground arith)),
      ([], answers, refl, tt, ok2, ok5),
    )
  ]

  -- `batchExchange` returns the first message, in the order in which the clients return, whose code
  -- is neither a server failure nor a refusal, and every answer before it is an error or has one of
  -- these codes; it returns an error exactly if all answers are such.
  pub batch_exchange-Decided :
      (clients : List Client) (m : Msg)
      → Decided (w.exchange clients m) (batch_exchange w clients m)
  unfolding batch_exchange go_all wait new_picker
  batch_exchange-Decided clients m = elim (Found-first new_picker (w.exchange clients m) refl) [
    | inl (msg, found, decided) ↦ rw (found, batch_exchange) decided
    | inr (missing, bads) ↦ rw (missing, batch_exchange) bads
  ]
