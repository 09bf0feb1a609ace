-- ===== src/FakeIp/Memory.antt =====
-- The memory store keeps its entries in pairs through every method, and never panics.
use mathlib.Core.List.{tail}
use clash_flt.Prelude.{
  ℕ, ◌+◌, ◌*◌, ◌≡◌, sym, ap, subst, ◌∙◌, ◌⊎◌, inl, inr, false, Option, none, some, List, [], ◌∷◌,
  ◌++◌, append_assoc, arith, ltb, if◌then◌else◌,
}
use clash_flt.Prelude.Text.{Text}
use clash_flt.Lru.{Config, set, get, delete, set_with_expire}
use clash_flt.Lru.Spec.{
  lookup, remove, trim, prune_by, set_entries, get_entries, hit_entries, is_stale, renew,
}
use clash_flt.Lru.Refine.{Shows}
use clash_flt.Lru.Operations.{set_with_expire-Shows, get_entry-Shows, delete-Shows}
use clash_flt.Lru.Reads.{shown-Distinct}
use clash_flt.FakeIp.{
  Ipv4, Key, Value, host_key, ip_key, ip_to_uint, MemoryStore, cache_get, cache_set,
}
use clash_flt.FakeIp.Pairs.{
  Item, Link, Mates, Paired, Paired-append, Paired-tail, remove_pair, remove_pair-Paired, find_mate,
  remove-append, lookup-append,
}
use clash_flt.FakeIp.Trimming.{Bounded, Bounded-touch}

-- What `New` makes of the pool's options: no age, and an even size.
abbrev pub settings : ℕ → Config
settings size = record {
  max_age = 0;
  max_size = size * 2;
  update_age_on_get = false;
  stale_return = false;
  on_evict = false;
}

abbrev pub item : Key → Value → Item
item k v = record { key = k; value = v; expires = 0 }

-- The mate of a host's entry holds the address, and the other way round.
pub host-Link :
    (h : Text) (e f : Item) → Mates e f → e.key ≡ host_key h → (ip : Ipv4) × Link h ip e f
host-Link h e f (h', ip, inl l) key =
    let same : h' ≡ h = cc (l.0, key) in (ip, subst (λ z. Link z ip e f) same l)
host-Link h e f (h', ip, inr l) key = absurd (cc (l.2, key))

pub ip-Link :
    (n : ℕ) (e f : Item)
    → Mates e f
    → e.key ≡ ip_key n
    → (h : Text) × (ip : Ipv4) × Link h ip f e × (ip_to_uint ip ≡ n)
ip-Link n e f (h, ip, inl l) key = absurd (cc (l.0, key))
ip-Link n e f (h, ip, inr l) key = (h, ip, l, cc (l.2, key))

pub kept-Paired : (l l' : List Item) → Paired l → (l' ≡ l) ⊎ (l' ≡ tail (tail l)) → Paired l'
kept-Paired l l' p (inl e) = subst Paired (sym e) p
kept-Paired l l' p (inr e) = subst Paired (sym e) (Paired-tail l p)

module _ (dec : Discrete Key) where
  -- A store whose entries are `l`, in pairs and within the size.
  pub record Holds (size : ℕ) (m : MemoryStore) (l : List Item) : Type 0 where
    pub shows : Shows dec (settings size) m l
    pub paired : Paired l
    pub bounded : Bounded size l

  -- `Get` on a cache without an age.
  value_of : Option Item → Option Value
  value_of o = elim o [ none ↦ none | some e ↦ some e.value ]

  follow_get :
      {g : Config} (k : Key) (m : MemoryStore) (l : List Item)
      → Shows dec g m l
      → Shows dec g (cache_get dec k m).0 (get_entries dec g 0 0 k l).0
        × ((cache_get dec k m).1 ≡ value_of (get_entries dec g 0 0 k l).1)
  unfolding cache_get get value_of
  follow_get k m l s =
      rw (← s.shown, ← s.settings)
        (let (t, e) = get_entry-Shows dec m 0 0 k s.valid in (t, ap value_of e))

  pub cache_get-miss :
      (size : ℕ) (k : Key) (m : MemoryStore) (l : List Item)
      → Shows dec (settings size) m l
      → lookup dec k l ≡ none
      → Shows dec (settings size) (cache_get dec k m).0 l × ((cache_get dec k m).1 ≡ none)
  unfolding get_entries value_of
  cache_get-miss size k m l s h = rw (h, get_entries) at (follow_get k m l s)

  pub cache_get-hit :
      (size : ℕ) (k : Key) (m : MemoryStore) (l : List Item) (e : Item)
      → Shows dec (settings size) m l
      → lookup dec k l ≡ some e
      → Shows dec (settings size) (cache_get dec k m).0 (remove dec k l ++ e ∷ [])
        × ((cache_get dec k m).1 ≡ some e.value)
  unfolding get_entries hit_entries is_stale renew value_of
  cache_get-hit size k m l e s h = rw (h, get_entries) at (follow_get k m l s)

  follow_set :
      {g : Config} (k : Key) (v : Value) (x : ℕ) (m : MemoryStore) (l : List Item)
      → Shows dec g m l
      → Shows dec g (set_with_expire dec 0 k v x m) (set_entries dec g 0 k v x l)
  follow_set k v x m l s =
      rw (← s.shown, ← s.settings) (set_with_expire-Shows dec m 0 k v x s.valid)

  pub cache_set-new :
      (size : ℕ) (k : Key) (v : Value) (m : MemoryStore) (l : List Item)
      → Shows dec (settings size) m l
      → lookup dec k l ≡ none
      → Shows dec (settings size) (cache_set dec k v m) (trim (size * 2) (l ++ item k v ∷ []))
  unfolding cache_set set set_entries prune_by
  cache_set-new size k v m l s h =
      let no_age : (if ltb 0 m.max_age then 0 + m.max_age else 0) ≡ 0 =
        ground (arith, ap (λ (c : Config). c.max_age) s.settings) in
      subst
        (λ a.
          Shows dec (settings size) (set_with_expire dec 0 k v a m)
            (trim (size * 2) (l ++ item k v ∷ [])))
        (sym no_age) (rw (h, set_entries) at (follow_set k v 0 m l s))

  pub follow_delete :
      {g : Config} (k : Key) (m : MemoryStore) (l : List Item)
      → Shows dec g m l
      → Shows dec g (delete dec k m) (remove dec k l)
  follow_delete k m l s = rw (← s.shown, ← s.settings) (delete-Shows dec m k s.valid)

  -- The two `Get` calls of a hit move the pair of the key to the back.
  pub touch_pair :
      (size : ℕ) (k : Key) (m : MemoryStore) (l : List Item) (e : Item)
      → Holds size m l
      → lookup dec k l ≡ some e
      → (f : Item) × Mates e f
        × (e.key ≡ k)
        × ((cache_get dec k m).1 ≡ some e.value)
        × Holds size
            (cache_get dec f.key (cache_get dec k m).0).0
            (remove_pair dec k l ++ e ∷ f ∷ [])
  touch_pair size k m l e s h =
      let (f, mates, key, looked, gone, ne) =
        find_mate dec k l e s.paired (shown-Distinct dec s.shows) h in
      let (s1, answer) = cache_get-hit size k m l e s.shows h in
      let (s2, _) =
        cache_get-hit size f.key (cache_get dec k m).0 (remove dec k l ++ e ∷ []) f s1
          (lookup-append dec f.key (remove dec k l) (e ∷ []) f looked) in
      let order : remove dec f.key (remove dec k l ++ e ∷ []) ++ f ∷ []
          ≡ remove_pair dec k l ++ e ∷ f ∷ [] =
        ap (λ z. z ++ f ∷ []) (remove-append dec f.key (remove dec k l) (e ∷ []) f looked)
        ∙ (append_assoc (remove dec f.key (remove dec k l)) (e ∷ []) (f ∷ [])
            ∙ ap (λ z. z ++ e ∷ f ∷ []) gone) in
      (
        f,
        mates,
        key,
        answer,
        record {
          shows = subst (Shows dec (settings size) _) order s2;
          paired =
              Paired-append (remove_pair dec k l) e f (remove_pair-Paired dec k l s.paired) mates;
          bounded = Bounded-touch dec size k l e f s.paired h s.bounded;
        },
      )
