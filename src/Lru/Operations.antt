-- ===== src/Lru/Operations.antt =====
-- Every public operation of the cache acts on the entries as the specification says, and keeps the
-- map and the list in step.
use clash_flt.Prelude.{
  ℕ, ◌≡◌, refl, sym, ap, ◌∙◌, inl, inr, ◌&&◌, not, none, some, List, [], ◌∷◌, ◌++◌, append-nil,
  append_assoc, subst, arith, Bool-cases, Option-cases, leb, ltb,
}
use clash_flt.Lru.{
  Config, Entry, Element, LruCache, find_element, push_back, set_with_expire, is_expired, touch,
  on_hit, get_entry, delete, push_all, clone_to, CacheOption, new,
}
use clash_flt.Lru.Spec.{lookup, remove, set_entries, renew, is_stale, hit_entries, get_entries}
use clash_flt.Lru.Elements.{
  entries, DistinctIds, index, DistinctKeys, index-none, index-some, index-append,
}
use clash_flt.Lru.Refine.{
  IsValid, Shows, delete_element-Shows, maybe_delete_oldest-Shows, move_to_back-Shows,
  push_back-Shows, drop_excess-Shows,
}

renew_key {ℓ} : {K V : Type ℓ} (g : Config) (now : ℕ) (e : Entry K V) → (renew g now e).key ≡ e.key
unfolding renew
renew_key g now e = ground arith

module _ {ℓ} {K V : Type ℓ} (dec : Discrete K) where
  -- What a map lookup tells of the entries.
  pub absent :
      (c : LruCache K V) (k : K)
      → IsValid dec c
      → c.cache k ≡ none
      → (index dec k c.lru ≡ none) × (lookup dec k (entries c.lru) ≡ none)
  absent c k v h = let gone = sym (v.indexed k) ∙ h in (gone, index-none dec k c.lru gone)

  pub present :
      (c : LruCache K V) (k : K) (i : ℕ)
      → IsValid dec c
      → c.cache k ≡ some i
      → (e : Entry K V) × (index dec k c.lru ≡ some i)
        × (find_element i c.lru ≡ some e)
        × (lookup dec k (entries c.lru) ≡ some e)
        × (e.key ≡ k)
  present c k i v h =
      let here = sym (v.indexed k) ∙ h in
      let (e, found, looked, key, _) = index-some dec k i c.lru v.ids here in
      (e, here, found, looked, key)

  remove_absent : (k : K) (l : List (Entry K V)) → lookup dec k l ≡ none → remove dec k l ≡ l
  unfolding lookup remove
  remove_absent k [] h = refl
  remove_absent k (e ∷ l) h = ground (arith, remove_absent k l)

  self-Shows : (c : LruCache K V) → IsValid dec c → Shows dec c.config c (entries c.lru)
  self-Shows c v = record { valid = v; shown = refl; settings = refl }

  -- `SetWithExpire` acts on the entries as `set_entries`, and keeps the cache valid.
  pub set_with_expire-Shows :
      (c : LruCache K V) (now : ℕ) (k : K) (x : V) (expires : ℕ)
      → IsValid dec c
      → Shows dec c.config
          (set_with_expire dec now k x expires c)
          (set_entries dec c.config now k x expires (entries c.lru))
  unfolding set_with_expire set_entries
  set_with_expire-Shows c now k x expires v = elim (Option-cases (c.cache k)) [
    | inl miss ↦
        let (gone, looked) = absent c k v miss in
        let e : Entry K V = record { key = k; value = x; expires = expires } in
        rw (miss, set_with_expire, looked, set_entries)
          (maybe_delete_oldest-Shows dec now _ _ (
            drop_excess-Shows dec (push_back dec c e)
              (push_back-Shows dec c e (self-Shows c v) gone)))
    | inr (i, hit) ↦
        let (e, here, found, looked, key) = present c k i v hit in
        rw (hit, set_with_expire, looked, set_entries, found)
          (maybe_delete_oldest-Shows dec now _ _ (
            move_to_back-Shows dec c k i (record e { value = x; expires = expires })
              (self-Shows c v) here key))
  ]

  -- The hit branch of `get`, whether the entry is expired or not.
  hit-Shows :
      (c : LruCache K V) (now now' : ℕ) (k : K) (i : ℕ) (e : Entry K V)
      → IsValid dec c
      → index dec k c.lru ≡ some i
      → e.key ≡ k
      → Shows dec c.config
          (on_hit dec now now' i e c).0
          (hit_entries dec c.config now now' k e (entries c.lru)).0
        × ((on_hit dec now now' i e c).1
            ≡ (hit_entries dec c.config now now' k e (entries c.lru)).1)
  unfolding on_hit hit_entries is_expired is_stale touch renew
  hit-Shows c now now' k i e v here key =
      let whole = self-Shows c v in
      elim (Bool-cases ((not c.stale_return && ltb 0 c.max_age) && leb e.expires now)) [
        | inl old ↦
            rw (old, ← key)
              (
                maybe_delete_oldest-Shows dec now' _ _
                    (delete_element-Shows dec c i e whole (ap (λ q. index dec q c.lru) key ∙ here)),
                refl,
              )
        | inr young ↦ rw young (
          move_to_back-Shows dec c k i (renew c.config now' e) whole here
              (renew_key c.config now' e ∙ key),
          refl,
        )
      ]

  -- `get` acts on the entries as `get_entries`, answers what it answers, and keeps the cache valid.
  pub get_entry-Shows :
      (c : LruCache K V) (now now' : ℕ) (k : K)
      → IsValid dec c
      → Shows dec c.config
          (get_entry dec now now' k c).0
          (get_entries dec c.config now now' k (entries c.lru)).0
        × ((get_entry dec now now' k c).1 ≡ (get_entries dec c.config now now' k (entries c.lru)).1)
  unfolding get_entry get_entries
  get_entry-Shows c now now' k v = elim (Option-cases (c.cache k)) [
    | inl miss ↦
        let (gone, looked) = absent c k v miss in
        rw (miss, get_entry, looked, get_entries) (self-Shows c v, refl)
    | inr (i, hit) ↦
        let (e, here, found, looked, key) = present c k i v hit in
        rw (hit, get_entry, looked, get_entries, found) (hit-Shows c now now' k i e v here key)
  ]

  -- `Delete` removes the key's entry, and keeps the cache valid.
  pub delete-Shows :
      (c : LruCache K V) (k : K)
      → IsValid dec c
      → Shows dec c.config (delete dec k c) (remove dec k (entries c.lru))
  unfolding delete
  delete-Shows c k v = elim (Option-cases (c.cache k)) [
    | inl miss ↦
        let (gone, looked) = absent c k v miss in
        rw (miss, delete)
          (record {
            valid = v;
            shown = sym (remove_absent k (entries c.lru) looked);
            settings = refl;
          })
    | inr (i, hit) ↦
        let (e, here, found, looked, key) = present c k i v hit in
        rw (hit, delete, found, ← key)
          (delete_element-Shows dec c i e (self-Shows c v) (ap (λ q. index dec q c.lru) key ∙ here))
  ]

  -- No key of `xs` has an element in `c`.
  abbrev Apart : List (Element K V) → LruCache K V → Type ℓ
  Apart [] c = Unit
  Apart (x ∷ xs) c = (index dec x.entry.key c.lru ≡ none) × Apart xs c

  Apart-push :
      (xs : List (Element K V)) (c : LruCache K V) (e : Entry K V)
      → Apart xs c
      → index dec e.key xs ≡ none
      → Apart xs (push_back dec c e)
  unfolding push_back index
  Apart-push [] c e a h = tt
  Apart-push (x ∷ xs) c e a h = (
    ground (
      arith,
      index-append dec x.entry.key c.lru (record { id = c.next_id; entry = e }),
      a.0,
      h,
      λ (p : e.key ≡ x.entry.key). sym p,
    ),
    Apart-push xs c e a.1 (ground arith),
  )

  push_all-Shows :
      {g : Config} (xs : List (Element K V)) (c : LruCache K V) {l : List (Entry K V)}
      → Shows dec g c l
      → DistinctKeys dec xs
      → Apart xs c
      → Shows dec g (push_all dec xs c) (l ++ entries xs)
  unfolding push_all
  push_all-Shows [] c {l} s d a = rw append-nil s
  push_all-Shows (x ∷ xs) c {l} s d a = rw (append_assoc l (x.entry ∷ []) (entries xs)) at (
      push_all-Shows xs (push_back dec c x.entry) (push_back-Shows dec c x.entry s a.0) d.1
        (Apart-push xs c x.entry a.1 d.0))

  Apart-empty : (xs : List (Element K V)) (c : LruCache K V) → c.lru ≡ [] → Apart xs c
  unfolding index
  Apart-empty [] c e = tt
  Apart-empty (x ∷ xs) c e = (ap (index dec x.entry.key) e, Apart-empty xs c e)

  pub empty-IsValid : (c : LruCache K V) → c.lru ≡ [] → ((k : K) → c.cache k ≡ none) → IsValid dec c
  unfolding index find_element
  empty-IsValid c e h = record {
    indexed = λ k. h k ∙ sym (ap (index dec k) e);
    ids = subst DistinctIds (sym e) tt;
    keys = subst (DistinctKeys dec) (sym e) tt;
    fresh = λ i _. ap (find_element i) e;
  }

  -- `CloneTo` from a valid cache leaves the other cache valid, with its own settings and exactly
  -- the first cache's entries in the same order, whatever it held before.
  pub clone_to-Shows :
      (c n : LruCache K V) → IsValid dec c → Shows dec n.config (clone_to dec c n) (entries c.lru)
  unfolding clone_to
  clone_to-Shows c n v =
      let cleared : LruCache K V = record n { lru = []; cache = λ _. none } in
      push_all-Shows c.lru cleared
        (record { valid = empty-IsValid cleared refl (λ _. refl); shown = refl; settings = refl })
        v.keys (Apart-empty c.lru cleared refl)

  pub new-Shows :
      (options : List CacheOption)
      → Shows dec (new {K = K} {V = V} options).config (new {K = K} {V = V} options) []
  unfolding new
  new-Shows options = record {
    valid = empty-IsValid (new {K = K} {V = V} options) refl (λ _. refl);
    shown = refl;
    settings = refl;
  }
