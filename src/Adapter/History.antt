-- ===== src/Adapter/History.antt =====
-- The history of delay tests of a proxy, and the delay that the groups compare.
use clash_flt.Prelude.{
  ℕ, zero, suc, ◌-◌, ◌<◌, ◌≤◌, ◌==◌, Bool, none, some, List, [], ◌∷◌, ◌++◌, ltb, ◌≡◌, refl, arith,
  if◌then◌else◌, length, length-append, drop, Option-cases, Bool-cases, inl, inr, append-nil,
  append_assoc, sym, ap, ◌∙◌,
}
use clash_flt.Prelude.Text.{Text}
use clash_flt.Queue.{put, pop, last, queue_len}
use clash_flt.Adapter.{
  Proxy, DelayHistory, Probe, new_proxy, dial_context, max_delay, last_delay, measure, delay_record,
  drop_oldest, record_test, url_test,
}

-- The calls that change a proxy.
pub data Event : Type 0 where
  dialed : Bool → Event
  tested : Probe → Event

unfoldable pub apply : Event → Proxy → Proxy
apply (dialed connected) p = dial_context connected p
apply (tested b) p = (url_test b p).1

unfoldable pub apply_all : List Event → Proxy → Proxy
apply_all [] p = p
apply_all (e ∷ events) p = apply_all events (apply e p)

-- The records of the tests among the events, in order.
unfoldable pub records : List Event → List DelayHistory
records [] = []
records (dialed connected ∷ events) = records events
records (tested b ∷ events) = delay_record b.now (measure b) ∷ records events

-- The last ten of a list.
unfoldable pub last_ten : List DelayHistory → List DelayHistory
last_ten q = drop (length q - 10) q

drop-snoc :
    (n : ℕ) (q : List DelayHistory) (x : DelayHistory)
    → n ≤ length q
    → drop n (q ++ x ∷ []) ≡ drop n q ++ x ∷ []
drop-snoc zero q x h = refl
drop-snoc (suc n) [] x h = absurd (omega arith)
drop-snoc (suc n) (y ∷ q) x h = drop-snoc n q x (omega arith)

length-drop : (n : ℕ) (q : List DelayHistory) → length (drop n q) ≡ length q - n
length-drop zero q = omega arith
length-drop (suc n) [] = omega arith
length-drop (suc n) (y ∷ q) = omega (arith, length-drop n q)

drop-drop : (n : ℕ) (q : List DelayHistory) → drop 1 (drop n q) ≡ drop (suc n) q
drop-drop zero [] = refl
drop-drop zero (y ∷ q) = refl
drop-drop (suc n) [] = refl
drop-drop (suc n) (y ∷ q) = drop-drop n q

drop_oldest-long : (q : List DelayHistory) → 10 < length q → drop_oldest q ≡ drop 1 q
unfolding drop_oldest pop queue_len
drop_oldest-long [] h = absurd (omega arith)
drop_oldest-long (y ∷ q) h = ground arith

drop_oldest-short : (q : List DelayHistory) → length q ≤ 10 → drop_oldest q ≡ q
unfolding drop_oldest queue_len
drop_oldest-short q h = ground arith

last_ten-short : (q : List DelayHistory) → length q ≤ 10 → last_ten q ≡ q
unfolding last_ten
last_ten-short q h = let e : length q - 10 ≡ 0 = omega arith in ap (λ n. drop n q) e

length-snoc : (q : List DelayHistory) (x : DelayHistory) → length (q ++ x ∷ []) ≡ suc (length q)
length-snoc q x = omega (arith, length-append q (x ∷ []))

last_ten-long :
    (q : List DelayHistory) (x : DelayHistory)
    → 10 ≤ length q
    → last_ten (q ++ x ∷ []) ≡ drop (suc (length q - 10)) q ++ x ∷ []
unfolding last_ten
last_ten-long q x h =
    let e : length (q ++ x ∷ []) - 10 ≡ suc (length q - 10) = omega (arith, length-snoc q x) in
    ap (λ n. drop n (q ++ x ∷ [])) e ∙ drop-snoc (suc (length q - 10)) q x (omega arith)

drop_oldest-last_ten :
    (q : List DelayHistory) (x : DelayHistory)
    → drop_oldest (put (x ∷ []) (last_ten q)) ≡ last_ten (q ++ x ∷ [])
unfolding put last_ten
drop_oldest-last_ten q x = elim (Bool-cases (ltb (length q) 10)) [
  | inl short ↦
      ap (λ z. drop_oldest (z ++ x ∷ [])) (last_ten-short q (ground arith))
      ∙ drop_oldest-short (q ++ x ∷ []) (ground (arith, length-snoc q x))
      ∙ sym (last_ten-short (q ++ x ∷ []) (ground (arith, length-snoc q x)))
  | inr long ↦
      drop_oldest-long (drop (length q - 10) q ++ x ∷ [])
        (ground (arith, length-snoc (drop (length q - 10) q) x, length-drop (length q - 10) q))
      ∙ drop-snoc 1 (drop (length q - 10) q) x (ground (arith, length-drop (length q - 10) q))
      ∙ ap (λ z. z ++ x ∷ []) (drop-drop (length q - 10) q)
      ∙ sym (last_ten-long q x (ground arith))
]

apply_all-history :
    (events : List Event) (p : Proxy) (q : List DelayHistory)
    → p.history ≡ last_ten q
    → (apply_all events p).history ≡ last_ten (q ++ records events)
unfolding apply_all records apply dial_context url_test record_test
apply_all-history [] p q h = h ∙ ap last_ten (sym (append-nil q))
apply_all-history (dialed connected ∷ events) p q h =
    apply_all-history events (dial_context connected p) q h
apply_all-history (tested b ∷ events) p q h =
    let x = delay_record b.now (measure b) in
    apply_all-history events (record_test b.now (measure b) p) (q ++ x ∷ [])
      (ap (λ z. drop_oldest (put (x ∷ []) z)) h ∙ drop_oldest-last_ten q x)
    ∙ ap last_ten (append_assoc q (x ∷ []) (records events))

-- After any sequence of dials and delay tests on a new proxy, its history has the records of the
-- last ten tests, in order.
pub history-apply_all :
    (events : List Event) (name : Text) (support_udp : Bool)
    → (apply_all events (new_proxy name support_udp)).history ≡ last_ten (records events)
unfolding new_proxy last_ten
history-apply_all events name support_udp =
    apply_all-history events (new_proxy name support_udp) [] refl

last-snoc : (q : List DelayHistory) (x : DelayHistory) → last (q ++ x ∷ []) ≡ some x
unfolding last
last-snoc [] x = refl
last-snoc (y ∷ []) x = refl
last-snoc (y ∷ z ∷ q) x = last-snoc (z ∷ q) x

last-drop_oldest :
    (q : List DelayHistory) (x : DelayHistory) → last (drop_oldest (put (x ∷ []) q)) ≡ some x
unfolding drop_oldest put pop queue_len last
last-drop_oldest [] x = refl
last-drop_oldest (y ∷ q) x = ground (arith, last-snoc q x, last-snoc (y ∷ q) x)

-- The delay that the groups compare after a test is the measured one, wrapped to 16 bits; it is the
-- greatest 16-bit number if the test failed or the measured delay wraps to 0.
last_delay-url_test :
    (b : Probe) (p : Proxy)
    → last_delay (url_test b p).1
      ≡ elim (url_test b p).0 [ none ↦ max_delay | some r ↦ if r.0 == 0 then max_delay else r.0 ]
unfolding last_delay url_test record_test delay_record
last_delay-url_test b p =
    let e = last-drop_oldest p.history (delay_record b.now (measure b)) in
    elim (Option-cases (measure b)) [
      | inl failed ↦ ground arith
      | inr (r, done) ↦ ground (arith, e)
    ]
