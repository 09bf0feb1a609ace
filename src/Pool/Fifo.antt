-- ===== src/Pool/Fifo.antt =====
-- What happens to the elements of a pool over a sequence of calls.
use mathlib.Core.List.{map-append}
use clash_flt.Prelude.{
  subst, ℕ, ◌≡◌, ◌∙◌, refl, sym, ap, ◌≤◌, Bool, true, Option, List, [], ◌∷◌, ◌++◌, map, append-nil,
  append_assoc, length, length-append, ltb, ltb→lt, arith, Bool-cases, inl, inr,
}
use clash_flt.Pool.{
  Entry, Pool, Got, pooled, made, is_expired, call_evict, receive, get_context, put,
}

-- A call at a time: `get_call` with what the factory would give.
pub data Call (A : Type 0) : Type 0 where
  get_call : ℕ → Option A → Call A
  put_call : ℕ → A → Call A

-- What went into the channel and what came out of it, evicted or returned, in order.
pub record Traffic (A : Type 0) : Type 0 where
  pub pool : Pool A
  pub accepted : List A
  pub gone : List A

module _ {A : Type 0} where
  abbrev pub elements : Pool A → List A
  elements p = map (λ e. e.elm) p.ch

  abbrev pub taken : Got A → List A
  taken (pooled a) = a ∷ []
  taken (made o) = []

  abbrev pub unless_evicted : A → List A → List A
  unless_evicted a [] = a ∷ []
  unless_evicted a (_ ∷ _) = []

  unfoldable pub call : Call A → Pool A → Traffic A
  call (get_call now fresh) p =
      let (q, evicted, got) = get_context now fresh p in
      record { pool = q; accepted = []; gone = evicted ++ taken got }
  call (put_call now item) p =
      let (q, evicted) = put now item p in
      record { pool = q; accepted = unless_evicted item evicted; gone = [] }

  unfoldable pub run : List (Call A) → Pool A → Traffic A
  run [] p = record { pool = p; accepted = []; gone = [] }
  run (c ∷ cs) p =
      let t = call c p in
      let u = run cs t.pool in
      record { pool = u.pool; accepted = t.accepted ++ u.accepted; gone = t.gone ++ u.gone }

  call_evict-on : (evict : Bool) (a : A) → evict ≡ true → call_evict evict a ≡ a ∷ []
  unfolding call_evict
  call_evict-on evict a on = rw on refl

  receive-gone :
      (now age : ℕ) (evict : Bool) (fresh : Option A) (ch : List (Entry A))
      → evict ≡ true
      → map (λ e. e.elm) ch
        ≡ (receive now age evict fresh ch).1
          ++ taken (receive now age evict fresh ch).2
          ++ map (λ e. e.elm) (receive now age evict fresh ch).0
  unfolding receive
  receive-gone now age evict fresh [] on = refl
  receive-gone now age evict fresh (e ∷ ch) on = elim (Bool-cases (is_expired now age e)) [
    | inl old ↦
        rw (old, call_evict-on evict e.elm on)
          (ap (λ l. e.elm ∷ l) (receive-gone now age evict fresh ch on))
    | inr young ↦ rw young refl
  ]

  put-gone :
      (now : ℕ) (item : A) (p : Pool A)
      → p.evict ≡ true
      → elements p ++ unless_evicted item (put now item p).1 ≡ elements (put now item p).0
  unfolding put
  put-gone now item p on = elim (Bool-cases (ltb (length p.ch) p.max_size)) [
    | inl room ↦
        rw (room, put) (sym (map-append (λ e. e.elm) p.ch (record { elm = item; time = now } ∷ [])))
    | inr full ↦ rw (full, call_evict-on p.evict item on, put) (append-nil (elements p))
  ]

  call-gone :
      (c : Call A) (p : Pool A)
      → p.evict ≡ true
      → elements p ++ (call c p).accepted ≡ (call c p).gone ++ elements (call c p).pool
  unfolding call get_context
  call-gone (get_call now fresh) p on =
      append-nil (elements p) ∙ receive-gone now p.max_age p.evict fresh p.ch on
  call-gone (put_call now item) p on = put-gone now item p on

  call-settings :
      (c : Call A) (p : Pool A)
      → ((call c p).pool.evict ≡ p.evict) × ((call c p).pool.max_size ≡ p.max_size)
  unfolding call get_context put
  call-settings (get_call now fresh) p = (refl, refl)
  call-settings (put_call now item) p = elim (Bool-cases (ltb (length p.ch) p.max_size)) [
    | inl room ↦ rw room (refl, refl)
    | inr full ↦ rw full (refl, refl)
  ]

  receive-length :
      (now age : ℕ) (evict : Bool) (fresh : Option A) (ch : List (Entry A))
      → length (receive now age evict fresh ch).0 ≤ length ch
  unfolding receive
  receive-length now age evict fresh [] = omega arith
  receive-length now age evict fresh (e ∷ ch) =
      ground (arith, receive-length now age evict fresh ch)

  call-length :
      (c : Call A) (p : Pool A) → length p.ch ≤ p.max_size → length (call c p).pool.ch ≤ p.max_size
  unfolding call get_context put
  call-length (get_call now fresh) p fits =
      omega (arith, receive-length now p.max_age p.evict fresh p.ch)
  call-length (put_call now item) p fits = elim (Bool-cases (ltb (length p.ch) p.max_size)) [
    | inl room ↦ ground (
      arith,
      ltb→lt (length p.ch) p.max_size room,
      length-append p.ch (record { elm = item; time = now } ∷ []),
    )
    | inr full ↦ rw full fits
  ]

  -- For a pool with an evict callback that holds no more elements than its size: over any sequence
  -- of calls, the elements that leave the channel, each once, either evicted for their age or
  -- returned, and then those still in it, are the elements that were in it and then those that
  -- `Put` took, in the same order; and the channel then holds no more elements than its size.
  pub run-gone :
      (cs : List (Call A)) (p : Pool A)
      → p.evict ≡ true
      → length p.ch ≤ p.max_size
      → (elements p ++ (run cs p).accepted ≡ (run cs p).gone ++ elements (run cs p).pool)
        × (length (run cs p).pool.ch ≤ p.max_size)
  unfolding run
  run-gone [] p on fits = (append-nil (elements p), fits)
  run-gone (c ∷ cs) p on fits =
      let t = call c p in
      let (same, size) = call-settings c p in
      let (order, bound) =
        run-gone cs t.pool (same ∙ on)
          (subst (λ n. length t.pool.ch ≤ n) (sym size) (call-length c p fits)) in
      let u = run cs t.pool in
      (
        sym (append_assoc (elements p) t.accepted u.accepted)
            ∙ ap (λ l. l ++ u.accepted) (call-gone c p on)
            ∙ append_assoc t.gone (elements t.pool) u.accepted
            ∙ ap (λ l. t.gone ++ l) order
            ∙ sym (append_assoc t.gone u.gone (elements u.pool)),
        subst (λ n. length u.pool.ch ≤ n) size bound,
      )
