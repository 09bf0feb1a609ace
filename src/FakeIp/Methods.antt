-- ===== src/FakeIp/Methods.antt =====
-- The methods of component/fakeip/memory.go, each on a store that holds its entries in pairs.
use mathlib.Core.List.{tail}
use clash_flt.Prelude.{
  ℕ, ◌*◌, ◌≡◌, refl, ap, subst, ◌∙◌, ◌⊎◌, inr, true, false, none, some, List, [], ◌∷◌, ◌++◌,
}
use clash_flt.Prelude.Text.{Text}
use clash_flt.Lru.{delete}
use clash_flt.Lru.Spec.{lookup, remove}
use clash_flt.Lru.Refine.{Shows}
use clash_flt.Lru.Reads.{shown-Distinct}
use clash_flt.Lru.Run.{exist-lookup}
use clash_flt.FakeIp.{
  Ipv4, Key, host_key, ip_key, host_value, ip_value, ip_to_uint, MemoryStore, as_ip, as_host,
  cache_get, cache_set, get_by_host, put_by_host, get_by_ip, put_by_ip, del_by_ip, store_exist,
}
use clash_flt.FakeIp.Pairs.{
  Item, Link, Paired-append, remove_pair, remove_pair-Paired, find_mate, remove-append,
  absent-remove,
}
use clash_flt.FakeIp.Trimming.{trim_pair, Bounded-remove}
use clash_flt.FakeIp.Keys.{
  lookup-remove_self, remove-absent_back, remove-absent, absent-trim, absent-append,
}
use clash_flt.FakeIp.Memory.{
  settings, item, host-Link, ip-Link, kept-Paired, Holds, cache_get-miss, cache_get-hit,
  cache_set-new, follow_delete, touch_pair,
}

module _ (dec : Discrete Key) where
  -- `GetByHost` of an unknown host answers none and changes no entry.
  pub get_by_host-miss :
      (size : ℕ) (h : Text) (m : MemoryStore) (l : List Item)
      → Holds dec size m l
      → lookup dec (host_key h) l ≡ none
      → (m' : MemoryStore) × (get_by_host dec h m ≡ some (m', none)) × Holds dec size m' l
  unfolding get_by_host
  get_by_host-miss size h m l s miss =
      let (t, answer) = cache_get-miss dec size (host_key h) m l s.shows miss in
      (
        (cache_get dec (host_key h) m).0,
        rw (answer, get_by_host),
        record { shows = t; paired = s.paired; bounded = s.bounded },
      )

  -- `GetByHost` of a known host answers its address and moves its pair to the back.
  pub get_by_host-hit :
      (size : ℕ) (h : Text) (m : MemoryStore) (l : List Item) (e : Item)
      → Holds dec size m l
      → lookup dec (host_key h) l ≡ some e
      → (m' : MemoryStore) × (ip : Ipv4) × (f : Item) × (get_by_host dec h m ≡ some (m', some ip))
        × Link h ip e f
        × Holds dec size m' (remove_pair dec (host_key h) l ++ e ∷ f ∷ [])
  unfolding get_by_host as_ip
  get_by_host-hit size h m l e s hit =
      let (f, mates, key, answer, t) = touch_pair dec size (host_key h) m l e s hit in
      let (ip, link) = host-Link h e f mates key in
      (
        (cache_get dec (ip_key (ip_to_uint ip)) (cache_get dec (host_key h) m).0).0,
        ip,
        f,
        rw (answer, link.1, get_by_host),
        link,
        subst
            (λ z.
              Holds dec size (cache_get dec z (cache_get dec (host_key h) m).0).0
                (remove_pair dec (host_key h) l ++ e ∷ f ∷ []))
            link.2 t,
      )

  -- `GetByIP` of an unknown address answers none and changes no entry.
  pub get_by_ip-miss :
      (size : ℕ) (ip : Ipv4) (m : MemoryStore) (l : List Item)
      → Holds dec size m l
      → lookup dec (ip_key (ip_to_uint ip)) l ≡ none
      → (m' : MemoryStore) × (get_by_ip dec ip m ≡ some (m', none)) × Holds dec size m' l
  unfolding get_by_ip
  get_by_ip-miss size ip m l s miss =
      let (t, answer) = cache_get-miss dec size (ip_key (ip_to_uint ip)) m l s.shows miss in
      (
        (cache_get dec (ip_key (ip_to_uint ip)) m).0,
        rw (answer, get_by_ip),
        record { shows = t; paired = s.paired; bounded = s.bounded },
      )

  -- `GetByIP` of a known address answers its host and moves its pair to the back.
  pub get_by_ip-hit :
      (size : ℕ) (ip : Ipv4) (m : MemoryStore) (l : List Item) (e : Item)
      → Holds dec size m l
      → lookup dec (ip_key (ip_to_uint ip)) l ≡ some e
      → (m' : MemoryStore) × (h : Text) × (f : Item) × (get_by_ip dec ip m ≡ some (m', some h))
        × (e.value ≡ host_value h)
        × (f.key ≡ host_key h)
        × Holds dec size m' (remove_pair dec (ip_key (ip_to_uint ip)) l ++ e ∷ f ∷ [])
  unfolding get_by_ip as_host
  get_by_ip-hit size ip m l e s hit =
      let k = ip_key (ip_to_uint ip) in
      let (f, mates, key, answer, t) = touch_pair dec size k m l e s hit in
      let (h, ip', link, _) = ip-Link (ip_to_uint ip) e f mates key in
      (
        (cache_get dec (host_key h) (cache_get dec k m).0).0,
        h,
        f,
        rw (answer, link.3, get_by_ip),
        link.3,
        link.0,
        subst
            (λ z.
              Holds dec size (cache_get dec z (cache_get dec k m).0).0
                (remove_pair dec k l ++ e ∷ f ∷ []))
            link.0 t,
      )

  -- `DelByIP` removes the pair of the address, and nothing else.
  pub del_by_ip-hit :
      (size : ℕ) (ip : Ipv4) (m : MemoryStore) (l : List Item) (e : Item)
      → Holds dec size m l
      → lookup dec (ip_key (ip_to_uint ip)) l ≡ some e
      → (m' : MemoryStore) × (del_by_ip dec ip m ≡ some m')
        × Holds dec size m' (remove_pair dec (ip_key (ip_to_uint ip)) l)
  unfolding del_by_ip as_host
  del_by_ip-hit size ip m l e s hit =
      let k = ip_key (ip_to_uint ip) in
      let distinct = shown-Distinct dec s.shows in
      let (f, mates, key, looked, gone, ne) = find_mate dec k l e s.paired distinct hit in
      let (h, ip', link, _) = ip-Link (ip_to_uint ip) e f mates key in
      let (s1, answer) = cache_get-hit dec size k m l e s.shows hit in
      let m1 = (cache_get dec k m).0 in
      let s2 = follow_delete dec f.key m1 (remove dec k l ++ e ∷ []) s1 in
      let s3 = follow_delete dec k (delete dec f.key m1) _ s2 in
      let first : remove dec f.key (remove dec k l ++ e ∷ []) ≡ remove_pair dec k l ++ e ∷ [] =
        remove-append dec f.key (remove dec k l) (e ∷ []) f looked ∙ ap (λ z. z ++ e ∷ []) gone in
      let absent : lookup dec k (remove_pair dec k l) ≡ none =
        subst (λ z. lookup dec k z ≡ none) gone
          (absent-remove dec f.key k (remove dec k l) (lookup-remove_self dec k l distinct)) in
      (
        delete dec k (delete dec (host_key h) m1),
        rw (answer, link.3, del_by_ip),
        record {
          shows =
              subst
                (λ z.
                  Shows dec (settings size) (delete dec k (delete dec z m1)) (remove_pair dec k l))
                link.0
                (subst (Shows dec (settings size) _)
                  (ap (remove dec k) first
                    ∙ remove-absent_back dec k (remove_pair dec k l) e absent key)
                  s3);
          paired = remove_pair-Paired dec k l s.paired;
          bounded = Bounded-remove dec size k l e s.paired hit s.bounded;
        },
      )

  pub del_by_ip-miss :
      (size : ℕ) (ip : Ipv4) (m : MemoryStore) (l : List Item)
      → Holds dec size m l
      → lookup dec (ip_key (ip_to_uint ip)) l ≡ none
      → (m' : MemoryStore) × (del_by_ip dec ip m ≡ some m') × Holds dec size m' l
  unfolding del_by_ip
  del_by_ip-miss size ip m l s miss =
      let k = ip_key (ip_to_uint ip) in
      let (t, answer) = cache_get-miss dec size k m l s.shows miss in
      (
        delete dec k (cache_get dec k m).0,
        rw (answer, del_by_ip),
        record {
          shows =
              subst (Shows dec (settings size) _) (remove-absent dec k l miss)
                (follow_delete dec k (cache_get dec k m).0 l t);
          paired = s.paired;
          bounded = s.bounded;
        },
      )

  pub store_exist-lookup :
      (size : ℕ) (ip : Ipv4) (m : MemoryStore) (l : List Item)
      → Holds dec size m l
      → store_exist ip m
        ≡ elim (lookup dec (ip_key (ip_to_uint ip)) l) [ none ↦ false | some _ ↦ true ]
  unfolding store_exist
  store_exist-lookup size ip m l s =
      exist-lookup dec m (ip_key (ip_to_uint ip)) s.shows.valid
      ∙ ap (λ z. elim (lookup dec (ip_key (ip_to_uint ip)) z) [ none ↦ false | some _ ↦ true ])
          s.shows.shown

  -- `PutByIP` and then `PutByHost`, for an address and a host that are both new, append the pair;
  -- at the size limit the least recent pair leaves.
  pub put-pair :
      (size : ℕ) (h : Text) (ip : Ipv4) (m : MemoryStore) (l : List Item)
      → Holds dec size m l
      → lookup dec (host_key h) l ≡ none
      → lookup dec (ip_key (ip_to_uint ip)) l ≡ none
      → (l' : List Item) × ((l' ≡ l) ⊎ (l' ≡ tail (tail l)))
        × Holds dec size (put_by_host dec h ip (put_by_ip dec ip h m)) (
            l'
            ++ item (ip_key (ip_to_uint ip)) (host_value h) ∷ item (host_key h) (ip_value ip) ∷ [])
  unfolding put_by_host put_by_ip
  put-pair size h ip m l s no_host no_ip =
      let k = ip_key (ip_to_uint ip) in
      let e = item k (host_value h) in
      let f = item (host_key h) (ip_value ip) in
      let s1 = cache_set-new dec size k (host_value h) m l s.shows no_ip in
      let s2 =
        cache_set-new dec size (host_key h) (ip_value ip) (cache_set dec k (host_value h) m) _ s1 (
          absent-trim dec (host_key h) (size * 2) (l ++ e ∷ [])
            (absent-append dec (host_key h) l e no_host (λ q. cc))) in
      let (l', which, trimmed, bounded) = trim_pair size l e f s.paired s.bounded in
      (
        l',
        which,
        record {
          shows = subst (Shows dec (settings size) _) trimmed s2;
          paired =
              Paired-append l' e f (kept-Paired l l' s.paired which)
                (h, ip, inr (refl, refl, refl, refl));
          bounded = bounded;
        },
      )
