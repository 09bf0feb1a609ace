-- ===== src/Lru/Reads.antt =====
-- What a client reads after a write: the value that it stored, and never more entries than the size.
use clash_flt.Prelude.{
  ℕ, ◌+◌, ◌≤◌, ◌<◌, ◌≡◌, refl, sym, ap, subst, ◌∙◌, ◌⊎◌, inl, inr, false, ◌&&◌, not, Option, none,
  some, List, [], ◌∷◌, ◌++◌, arith, ltb, leb, length, length-append, Bool-cases, Option-cases,
}
use clash_flt.Lru.{
  Config, Entry, Element, LruCache, is_over, set_with_expire, get, get_entry, get_with_expire,
}
use clash_flt.Lru.Spec.{
  prune, prune_by, trim, lookup, remove, set_entries, renew, is_stale, hit_entries, get_entries,
}
use clash_flt.Lru.Elements.{entries, length-entries, DistinctKeys, index-none}
use clash_flt.Lru.Refine.{IsValid, Shows}
use clash_flt.Lru.Operations.{set_with_expire-Shows, get_entry-Shows}

-- Under the settings an entry with this expiry is not dropped at `now`: it expires later, or nothing
-- expires.
abbrev pub Fresh : Config → ℕ → ℕ → Type 0
Fresh g now expires = (now < expires) ⊎ ((not g.stale_return && ltb 0 g.max_age) ≡ false)

module _ {ℓ} {K V : Type ℓ} where
  length-prune-le : (now : ℕ) (l : List (Entry K V)) → length (prune now l) ≤ length l
  unfolding prune
  length-prune-le now [] = omega arith
  length-prune-le now (e ∷ l) = ground (arith, length-prune-le now l)

  length-prune_by-le :
      (g : Config) (now : ℕ) (l : List (Entry K V)) → length (prune_by g now l) ≤ length l
  unfolding prune_by
  length-prune_by-le g now l = ground (arith, length-prune-le now l)

  length-trim-le :
      (size : ℕ) (l : List (Entry K V)) (e : Entry K V)
      → 0 < size
      → length l ≤ size
      → length (trim size (l ++ e ∷ [])) ≤ size
  unfolding trim is_over
  length-trim-le size [] e p h = ground arith
  length-trim-le size (x ∷ l) e p h = ground (arith, length-append l (e ∷ []))

  -- An entry at the back that has not expired survives the pruning.
  prune-back :
      (now : ℕ) (l : List (Entry K V)) (e : Entry K V)
      → now < e.expires
      → (m : List (Entry K V)) × (prune now (l ++ e ∷ []) ≡ m ++ e ∷ [])
  unfolding prune
  prune-back now [] e h = ([], ground arith)
  prune-back now (x ∷ l) e h =
      let (m, kept) = prune-back now l e h in
      elim (Bool-cases (leb x.expires now)) [
        | inl old ↦ (m, rw old kept)
        | inr young ↦ (x ∷ l, rw young)
      ]

  prune_by-back :
      (g : Config) (now : ℕ) (l : List (Entry K V)) (e : Entry K V)
      → Fresh g now e.expires
      → (m : List (Entry K V)) × (prune_by g now (l ++ e ∷ []) ≡ m ++ e ∷ [])
  unfolding prune_by
  prune_by-back g now l e (inr off) = (l, rw off)
  prune_by-back g now l e (inl young) =
      let (m, kept) = prune-back now l e young in
      elim (Bool-cases (not g.stale_return && ltb 0 g.max_age)) [
        | inl on ↦ (m, rw on kept)
        | inr off ↦ (l, rw off)
      ]

  trim-back :
      (size : ℕ) (l : List (Entry K V)) (e : Entry K V)
      → (m : List (Entry K V)) × (trim size (l ++ e ∷ []) ≡ m ++ e ∷ [])
  unfolding trim is_over
  trim-back size [] e = ([], ground arith)
  trim-back size (x ∷ l) e = elim (Bool-cases (is_over size (length ((x ∷ l) ++ e ∷ [])))) [
    | inl full ↦ (l, rw full)
    | inr fits ↦ (x ∷ l, rw fits)
  ]

module _ {ℓ} {K V : Type ℓ} (dec : Discrete K) where
  length-remove :
      (k : K) (l : List (Entry K V)) (e : Entry K V)
      → lookup dec k l ≡ some e
      → length (remove dec k l) + 1 ≡ length l
  unfolding lookup remove
  length-remove k [] e h = ground arith
  length-remove k (x ∷ l) e h = ground (arith, length-remove k l e)

  length-set_entries-le :
      (g : Config) (now : ℕ) (k : K) (x : V) (expires : ℕ) (l : List (Entry K V))
      → 0 < g.max_size
      → length l ≤ g.max_size
      → length (set_entries dec g now k x expires l) ≤ g.max_size
  unfolding set_entries
  length-set_entries-le g now k x expires l p h = elim (Option-cases (lookup dec k l)) [
    | inl miss ↦
        let e : Entry K V = record { key = k; value = x; expires = expires } in
        rw (miss, set_entries)
          (omega (
            arith,
            length-prune_by-le g now (trim g.max_size (l ++ e ∷ [])),
            length-trim-le g.max_size l e p h,
          ))
    | inr (e, hit) ↦
        let e' : Entry K V = record e { value = x; expires = expires } in
        rw (hit, set_entries)
          (omega (
            arith,
            length-prune_by-le g now (remove dec k l ++ e' ∷ []),
            length-append (remove dec k l) (e' ∷ []),
            length-remove k l e hit,
          ))
  ]

  -- With a positive size, `SetWithExpire` on a valid cache that has no more entries than the size
  -- leaves no more entries than the size.
  length-set_with_expire-le :
      (c : LruCache K V) (now : ℕ) (k : K) (x : V) (expires : ℕ)
      → IsValid dec c
      → 0 < c.max_size
      → length c.lru ≤ c.max_size
      → length (set_with_expire dec now k x expires c).lru ≤ c.max_size
  length-set_with_expire-le c now k x expires v p h =
      let s = set_with_expire-Shows dec c now k x expires v in
      omega (
        arith,
        length-entries (set_with_expire dec now k x expires c).lru,
        length-entries c.lru,
        ap length s.shown,
        length-set_entries-le c.config now k x expires (entries c.lru) p,
      )

  lookup-key : (k : K) (l : List (Entry K V)) (e : Entry K V) → lookup dec k l ≡ some e → e.key ≡ k
  unfolding lookup
  lookup-key k [] e h = ground arith
  lookup-key k (x ∷ l) e h = ground (arith, lookup-key k l e)

  -- No key occurs twice among the entries.
  abbrev pub Distinct : List (Entry K V) → Type ℓ
  Distinct [] = Unit
  Distinct (e ∷ l) = (lookup dec e.key l ≡ none) × Distinct l

  entries-Distinct : (xs : List (Element K V)) → DistinctKeys dec xs → Distinct (entries xs)
  entries-Distinct [] d = tt
  entries-Distinct (x ∷ xs) d = (index-none dec x.entry.key xs d.0, entries-Distinct xs d.1)

  pub shown-Distinct :
      {g : Config} {c : LruCache K V} {l : List (Entry K V)} → Shows dec g c l → Distinct l
  shown-Distinct {c} s = subst Distinct s.shown (entries-Distinct c.lru s.valid.keys)

  lookup_back :
      (m : List (Entry K V)) (e : Entry K V)
      → Distinct (m ++ e ∷ [])
      → lookup dec e.key (m ++ e ∷ []) ≡ some e
  unfolding lookup
  lookup_back [] e d = ground arith
  lookup_back (x ∷ m) e d = elim (dec x.key e.key) [
    | yes p ↦ absurd (ground (arith, ap (λ q. lookup dec q (m ++ e ∷ [])) p, lookup_back m e d.1))
    | no p ↦ ground (arith, lookup_back m e d.1)
  ]

  -- The entry written by `SetWithExpire` is the last one.
  set_back :
      (g : Config) (now : ℕ) (k : K) (x : V) (expires : ℕ) (l : List (Entry K V))
      → Fresh g now expires
      → (m : List (Entry K V)) × (e : Entry K V) × (set_entries dec g now k x expires l
          ≡ m ++ e ∷ [])
        × (e.key ≡ k)
        × (e.value ≡ x)
        × (e.expires ≡ expires)
  unfolding set_entries
  set_back g now k x expires l f = elim (Option-cases (lookup dec k l)) [
    | inl miss ↦
        let e : Entry K V = record { key = k; value = x; expires = expires } in
        let (m, trimmed) = trim-back g.max_size l e in
        let (n, kept) = prune_by-back g now m e f in
        (n, e, rw (miss, set_entries, trimmed) kept, refl, refl, refl)
    | inr (e, hit) ↦
        let e' : Entry K V = record e { value = x; expires = expires } in
        let (n, kept) = prune_by-back g now (remove dec k l) e' f in
        (n, e', rw (hit, set_entries) kept, lookup-key k l e hit, refl, refl)
  ]

  -- A hit that is not expired is answered with the stored value.
  get_entries_found :
      (g : Config) (t t' : ℕ) (k : K) (l : List (Entry K V)) (e : Entry K V)
      → lookup dec k l ≡ some e
      → Fresh g t e.expires
      → (get_entries dec g t t' k l).1 ≡ some (renew g t' e)
  unfolding get_entries hit_entries is_stale
  get_entries_found g t t' k l e h (inr off) = rw (h, get_entries, off)
  get_entries_found g t t' k l e h (inl young) =
      let still : leb e.expires t ≡ false = ground arith in rw (h, get_entries) (ground arith)

  renew_value : (g : Config) (t : ℕ) (e : Entry K V) → (renew g t e).value ≡ e.value
  unfolding renew
  renew_value g t e = ground arith

  -- The entry that is read after it was written, with its age renewed if the settings say so.
  entry-set_with_expire :
      (c : LruCache K V) (now t t' : ℕ) (k : K) (x : V) (expires : ℕ)
      → IsValid dec c
      → Fresh c.config now expires
      → Fresh c.config t expires
      → (e : Entry K V) × ((get_entry dec t t' k (set_with_expire dec now k x expires c)).1
          ≡ some (renew c.config t' e))
        × (e.value ≡ x)
        × (e.expires ≡ expires)
  entry-set_with_expire c now t t' k x expires v f f' =
      let d = set_with_expire dec now k x expires c in
      let s = set_with_expire-Shows dec c now k x expires v in
      let (m, e, back, key, value, exp) = set_back c.config now k x expires (entries c.lru) f in
      let shown : entries d.lru ≡ m ++ e ∷ [] = s.shown ∙ back in
      let found : lookup dec k (entries d.lru) ≡ some e =
        ap (lookup dec k) shown
        ∙ (ap (λ q. lookup dec q (m ++ e ∷ [])) (sym key)
            ∙ lookup_back m e (subst Distinct back (shown-Distinct s))) in
      let (_, answer) = get_entry-Shows dec d t t' k s.valid in
      let hit =
        get_entries_found d.config t t' k (entries d.lru) e found (rw (s.settings, exp) f') in
      (e, answer ∙ hit ∙ ap (λ g. some (renew g t' e)) s.settings, value, exp)

  -- A `Get` right after `SetWithExpire` on a valid cache returns the value, unless it has expired
  -- at the reading of the clock of either call.
  get-set_with_expire :
      (c : LruCache K V) (now t t' : ℕ) (k : K) (x : V) (expires : ℕ)
      → IsValid dec c
      → Fresh c.config now expires
      → Fresh c.config t expires
      → (get dec t t' k (set_with_expire dec now k x expires c)).1 ≡ some x
  unfolding get
  get-set_with_expire c now t t' k x expires v f f' =
      let (e, answer, value, _) = entry-set_with_expire c now t t' k x expires v f f' in
      ap {B = Option V} (λ r. elim r [ none ↦ none | some y ↦ some y.value ]) answer
      ∙ ap some (renew_value c.config t' e ∙ value)

  -- The same for `GetWithExpire`, where a read does not renew an age.
  pub get_with_expire-set_with_expire :
      (c : LruCache K V) (now t t' : ℕ) (k : K) (x : V) (expires : ℕ)
      → IsValid dec c
      → Fresh c.config now expires
      → Fresh c.config t expires
      → (ltb 0 c.max_age && c.update_age_on_get) ≡ false
      → (get_with_expire dec t t' k (set_with_expire dec now k x expires c)).1 ≡ some (x, expires)
  unfolding get_with_expire renew
  get_with_expire-set_with_expire c now t t' k x expires v f f' off =
      let (e, answer, value, exp) = entry-set_with_expire c now t t' k x expires v f f' in
      ground (arith, answer)
