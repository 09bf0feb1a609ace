-- ===== src/Dns/Caching.antt =====
-- A request that is repeated is answered from the cache.
use clash_flt.Prelude.{
  ℕ, ◌≡◌, ◌∙◌, ◌+◌, ◌-◌, ◌*◌, ◌/◌, ◌%◌, ◌<◌, refl, ap, inl, inr, some, List, ◌∷◌, ltb,
  if◌then◌else◌, Bool-cases, arith,
}
use clash_flt.Prelude.Text.{Text, Text-discrete}
use clash_flt.Picker.{ok}
use clash_flt.Lru.{LruCache, get_with_expire, set_with_expire}
use clash_flt.Lru.Refine.{IsValid}
use clash_flt.Lru.Reads.{Fresh, get_with_expire-set_with_expire}
use clash_flt.FakeIp.{u32}
use clash_flt.Dns.{
  Msg, Question, Library, second, minimal_ttl, set_msg_ttl, update_msg_ttl, put_msg_to_cache,
}
use clash_flt.Dns.Resolver.{
  Client, Resolver, Network, Answer, exchange_without_cache, from_cache, exchange_context,
}

-- The second at which an answer that came at `now` expires.
abbrev pub expiry : Library → ℕ → Msg → ℕ
expiry lib now msg = (now + minimal_ttl lib msg.answer * second) / second

module _ (w : Network) where
  -- A request that went to a server leaves the answer in the cache.
  stored :
      (now : ℕ) (q : Question) (m msg : Msg) (r r' : Resolver)
      → exchange_without_cache w now q m r ≡ (r', ok msg)
      → r'.lru_cache ≡ put_msg_to_cache w.library now (w.library.question_string q) msg r.lru_cache
  unfolding exchange_without_cache
  stored now q m msg r r' h = ground arith

  put_msg_to_cache-expiry :
      (now : ℕ) (key : Text) (msg : Msg) (c : LruCache Text Msg)
      → 0 < minimal_ttl w.library msg.answer
      → put_msg_to_cache w.library now key msg c
        ≡ set_with_expire Text-discrete (now / second) key msg (expiry w.library now msg) c
  unfolding put_msg_to_cache
  put_msg_to_cache-expiry now key msg c p = ground arith

  exchange_context-hit :
      (later : ℕ) (m msg : Msg) (q : Question) (rest : List Question) (expire : ℕ) (r : Resolver)
      → m.question ≡ q ∷ rest
      → (get_with_expire Text-discrete
          (later / second)
          (later / second)
          (w.library.question_string q)
          r.lru_cache).1
        ≡ some (msg, expire)
      → (exchange_context w later m r).1 ≡ ok (from_cache w later (msg, expire)).0
  unfolding exchange_context
  exchange_context-hit later m msg q rest expire r asked hit =
      rw (asked, exchange_context, hit) refl

  ageless-Fresh :
      (c : LruCache Text Msg) (now expires : ℕ) → c.max_age ≡ 0 → Fresh c.config now expires
  ageless-Fresh c now expires ageless = inr (ground arith)

  from_cache-aged :
      (later : ℕ) (msg : Msg) (expires : ℕ)
      → (from_cache w later (msg, expires)).0 ≡ (
          if ltb (expires * second) later
          then set_msg_ttl msg 1
          else update_msg_ttl w.library msg ((expires * second - later) / second % u32))
  unfolding from_cache
  from_cache-aged later msg expires = elim (Bool-cases (ltb (expires * second) later)) [
    | inl stale ↦ rw (stale, from_cache) refl
    | inr young ↦ rw (young, from_cache) refl
  ]

module _ (w : Network) where
  -- After a request that the servers answered, with times to live above 0, on a valid cache without
  -- a greatest age: the same request at a later reading of the clock gets the same message,
  -- whatever the servers would say then. Its times to live are lowered to what is left of the least
  -- one, or are all set to 1 when that has run out.
  pub exchange_context-exchange_without_cache :
      (r r' : Resolver) (m msg : Msg) (q : Question) (rest : List Question) (now later : ℕ)
      (exchange : List Client → Msg → List Answer)
      → IsValid Text-discrete r.lru_cache
      → r.lru_cache.max_age ≡ 0
      → m.question ≡ q ∷ rest
      → exchange_without_cache w now q m r ≡ (r', ok msg)
      → 0 < minimal_ttl w.library msg.answer
      → (exchange_context (record w { exchange = exchange }) later m r').1
        ≡ ok (
            if ltb (expiry w.library now msg * second) later
            then set_msg_ttl msg 1
            else update_msg_ttl w.library msg
                ((expiry w.library now msg * second - later) / second % u32))
  exchange_context-exchange_without_cache r r' m msg q rest now later exchange valid ageless asked
        first positive =
      let key = w.library.question_string q in
      let expires = expiry w.library now msg in
      let kept =
        stored w now q m msg r r' first
        ∙ put_msg_to_cache-expiry w now key msg r.lru_cache positive in
      let read =
        get_with_expire-set_with_expire Text-discrete r.lru_cache (now / second) (later / second)
          (later / second) key msg expires valid
          (ageless-Fresh w r.lru_cache (now / second) expires ageless)
          (ageless-Fresh w r.lru_cache (later / second) expires ageless) (ground arith) in
      let other = record w { exchange = exchange } in
      exchange_context-hit other later m msg q rest expires r' asked (
        ap (λ c. (get_with_expire Text-discrete (later / second) (later / second) key c).1) kept
        ∙ read)
      ∙ ap ok (from_cache-aged other later msg expires)
