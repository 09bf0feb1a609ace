-- ===== src/Lru/Run.antt =====
-- Whole runs: any sequence of calls, against the specification.
use clash_flt.Prelude.{
  ℕ, ◌≡◌, refl, ap, Bool, true, false, Option, none, some, List, [], ◌∷◌, ap₂, arith, ltb,
  if◌then◌else◌, ◌+◌,
}
use clash_flt.Lru.{Config, Entry, LruCache, set_with_expire, set, get, exist, delete}
use clash_flt.Lru.Spec.{lookup, remove, set_entries, get_entries}
use clash_flt.Lru.Elements.{entries}
use clash_flt.Lru.Refine.{IsValid, Shows}
use clash_flt.Lru.Operations.{set_with_expire-Shows, get_entry-Shows, delete-Shows, absent, present}

-- A call with the readings of the clock that it makes.
pub data Call {ℓ} (K V : Type ℓ) : Type ℓ where
  get_call : ℕ → ℕ → K → Call K V
  set_call : ℕ → ℕ → K → V → Call K V
  set_with_expire_call : ℕ → K → V → ℕ → Call K V
  exist_call delete_call : K → Call K V

pub data Answer {ℓ} (V : Type ℓ) : Type ℓ where
  found : Option V → Answer V
  exists : Bool → Answer V
  done : Answer V

module _ {ℓ} {K V : Type ℓ} (dec : Discrete K) where
  pub call : Call K V → LruCache K V → LruCache K V × Answer V
  call (get_call now now' k) c = let (d, r) = get dec now now' k c in (d, found r)
  call (set_call now now' k x) c = (set dec now now' k x c, done)
  call (set_with_expire_call now k x e) c = (set_with_expire dec now k x e c, done)
  call (exist_call k) c = (c, exists (exist k c))
  call (delete_call k) c = (delete dec k c, done)

  pub run : List (Call K V) → LruCache K V → LruCache K V × List (Answer V)
  run [] c = (c, [])
  run (x ∷ xs) c = let (d, r) = call x c in let (e, rs) = run xs d in (e, r ∷ rs)

  -- The same calls on a plain list of entries.
  pub call_entries : Config → Call K V → List (Entry K V) → List (Entry K V) × Answer V
  call_entries g (get_call now now' k) l =
      let (m, r) = get_entries dec g now now' k l in
      (m, found (elim r [ none ↦ none | some e ↦ some e.value ]))
  call_entries g (set_call now now' k x) l =
      (set_entries dec g now' k x (if ltb 0 g.max_age then now + g.max_age else 0) l, done)
  call_entries g (set_with_expire_call now k x e) l = (set_entries dec g now k x e l, done)
  call_entries g (exist_call k) l =
      (l, exists (elim (lookup dec k l) [ none ↦ false | some _ ↦ true ]))
  call_entries g (delete_call k) l = (remove dec k l, done)

  pub run_entries : Config → List (Call K V) → List (Entry K V) → List (Entry K V) × List (Answer V)
  run_entries g [] l = (l, [])
  run_entries g (x ∷ xs) l =
      let (m, r) = call_entries g x l in let (e, rs) = run_entries g xs m in (e, r ∷ rs)

  pub exist-lookup :
      (c : LruCache K V) (k : K)
      → IsValid dec c
      → exist k c ≡ elim (lookup dec k (entries c.lru)) [ none ↦ false | some _ ↦ true ]
  unfolding exist
  exist-lookup c k v = grind (arith, absent dec c k v, present dec c k)

  call-Shows :
      (x : Call K V) (c : LruCache K V)
      → IsValid dec c
      → Shows dec c.config (call x c).0 (call_entries c.config x (entries c.lru)).0
        × ((call x c).1 ≡ (call_entries c.config x (entries c.lru)).1)
  unfolding call call_entries get set
  call-Shows (get_call now now' k) c v =
      let (s, e) = get_entry-Shows dec c now now' k v in
      (s, ap (λ r. found (elim r [ none ↦ none | some x ↦ some x.value ])) e)
  call-Shows (set_call now now' k x) c v = (set_with_expire-Shows dec c now' k x _ v, refl)
  call-Shows (set_with_expire_call now k x e) c v = (set_with_expire-Shows dec c now k x e v, refl)
  call-Shows (exist_call k) c v =
      (record { valid = v; shown = refl; settings = refl }, ap exists (exist-lookup c k v))
  call-Shows (delete_call k) c v = (delete-Shows dec c k v, refl)

  call-follows :
      {g : Config} {l : List (Entry K V)} (x : Call K V) (c : LruCache K V)
      → Shows dec g c l
      → Shows dec g (call x c).0 (call_entries g x l).0 × ((call x c).1 ≡ (call_entries g x l).1)
  call-follows x c s = rw (← s.shown, ← s.settings) (call-Shows x c s.valid)

  -- Any sequence of calls on a valid cache leaves a valid cache with the same settings, gives the
  -- answers that the same calls give on the plain list of entries, and leaves the entries that they
  -- leave, in order.
  pub run-Shows :
      {g : Config} (xs : List (Call K V)) (c : LruCache K V) {l : List (Entry K V)}
      → Shows dec g c l
      → Shows dec g (run xs c).0 (run_entries g xs l).0 × ((run xs c).1 ≡ (run_entries g xs l).1)
  unfolding run run_entries
  run-Shows [] c s = (s, refl)
  run-Shows {g} (x ∷ xs) c {l} s =
      let (t, e) = call-follows x c s in
      let (u, es) = run-Shows xs (call x c).0 {l = (call_entries g x l).0} t in (u, ap₂ ◌∷◌ e es)
