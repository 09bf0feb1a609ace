-- ===== src/Lru/Refine.antt =====
-- The map and the list of elements stay in step, and each step of an operation acts on the entries
-- as the specification says.
use mathlib.Core.List.{tail}
use clash_flt.Prelude.{
  ℕ, zero, suc, ◌≤◌, ◌≡◌, refl, sym, ap, ◌∙◌, inl, inr, ◌&&◌, not, none, some, List, [], ◌∷◌, ◌++◌,
  arith, length, Bool-cases, leb, ltb,
}
use clash_flt.Lru.{
  Config, Entry, Element, LruCache, remove_element, find_element, update, delete_element,
  delete_expired, maybe_delete_oldest, move_to_back, push_back, is_over, delete_front, drop_excess,
}
use clash_flt.Lru.Spec.{prune, prune_by, trim, remove}
use clash_flt.Lru.Elements.{
  entries, DistinctIds, entries-append, length-entries, find-remove, find-append,
  remove-DistinctIds, append-DistinctIds, find-remove_self, index, DistinctKeys, find-index,
  index-some, index-remove_ne, index-remove_self, remove-DistinctKeys, index-append,
  append-DistinctKeys,
}

module _ {ℓ} {K V : Type ℓ} (dec : Discrete K) where
  -- The map sends each key to its element, no identity and no key occurs twice, and identities
  -- from `next_id` on are unused.
  pub record IsValid (c : LruCache K V) : Type ℓ where
    pub indexed : (k : K) → c.cache k ≡ index dec k c.lru
    pub ids : DistinctIds c.lru
    pub keys : DistinctKeys dec c.lru
    pub fresh : (i : ℕ) → c.next_id ≤ i → find_element i c.lru ≡ none

  delete_element-IsValid :
      (c : LruCache K V) (i : ℕ) (e : Entry K V)
      → IsValid c
      → index dec e.key c.lru ≡ some i
      → IsValid (delete_element dec c i e)
  unfolding delete_element update
  delete_element-IsValid c i e v h = record {
    indexed = λ k. elim (dec e.key k) [
      | yes p ↦ ground (
        arith,
        ap (λ q. index dec q (remove_element i c.lru)) p,
        index-remove_self dec e.key i c.lru v.ids v.keys h,
      )
      | no p ↦ ground (arith, v.indexed k, index-remove_ne dec e.key k i c.lru v.ids h p)
    ];
    ids = remove-DistinctIds i c.lru v.ids;
    keys = remove-DistinctKeys dec i c.lru v.keys;
    fresh = λ j le. find-remove i j c.lru (v.fresh j le);
  }

  -- A valid cache with the settings `g` whose entries, in order, are `l`.
  pub record Shows (g : Config) (c : LruCache K V) (l : List (Entry K V)) : Type ℓ where
    pub valid : IsValid c
    pub shown : entries c.lru ≡ l
    pub settings : c.config ≡ g

  pub delete_element-Shows :
      {g : Config} (c : LruCache K V) (i : ℕ) (e : Entry K V) {l : List (Entry K V)}
      → Shows g c l
      → index dec e.key c.lru ≡ some i
      → Shows g (delete_element dec c i e) (remove dec e.key l)
  delete_element-Shows c i e s h =
      let (_, _, _, _, rest) = index-some dec e.key i c.lru s.valid.ids h in
      record {
        valid = delete_element-IsValid c i e s.valid h;
        shown = unfold delete_element in rest ∙ ap (remove dec e.key) s.shown;
        settings = unfold delete_element in s.settings;
      }

  -- Deleting the front element leaves the rest of the list.
  index_front :
      (x : Element K V) (xs : List (Element K V)) → index dec x.entry.key (x ∷ xs) ≡ some x.id
  unfolding index
  index_front x xs = ground arith

  delete_head :
      {g : Config} (c : LruCache K V) (x : Element K V) (xs : List (Element K V))
      → IsValid c
      → c.config ≡ g
      → c.lru ≡ x ∷ xs
      → Shows g (delete_element dec c x.id x.entry) (entries xs)
        × ((delete_element dec c x.id x.entry).lru ≡ xs)
  unfolding delete_element remove_element
  delete_head c x xs v s e =
      let left : remove_element x.id c.lru ≡ xs = ap (remove_element x.id) e ∙ ground arith in
      let here = ap (index dec x.entry.key) e ∙ index_front x xs in
      (
        record {
          valid = delete_element-IsValid c x.id x.entry v here;
          shown = ap entries left;
          settings = s;
        },
        left,
      )

  -- As many rounds as there are elements are enough for the loop of `maybeDeleteOldest`.
  delete_expired-Shows :
      {g : Config} (f now : ℕ) (c : LruCache K V) (xs : List (Element K V))
      → IsValid c
      → c.config ≡ g
      → c.lru ≡ xs
      → length xs ≤ f
      → Shows g (delete_expired dec f now c) (prune now (entries xs))
  unfolding delete_expired prune
  delete_expired-Shows zero now c [] v s e h = record {
    valid = v;
    shown = ap entries e;
    settings = s;
  }
  delete_expired-Shows zero now c (x ∷ xs) v s e h = absurd (omega arith)
  delete_expired-Shows (suc f) now c [] v s e h =
      rw (e, delete_expired) (record { valid = v; shown = ap entries e; settings = s })
  delete_expired-Shows (suc f) now c (x ∷ xs) v s e h =
      let (head, rest) = delete_head c x xs v s e in
      let ih =
        delete_expired-Shows f now (delete_element dec c x.id x.entry) xs head.valid head.settings
          rest (omega arith) in
      elim (Bool-cases (leb x.entry.expires now)) [
        | inl old ↦ rw (e, delete_expired, old) ih
        | inr young ↦
            rw (e, delete_expired, young) (record { valid = v; shown = ap entries e; settings = s })
      ]

  pub maybe_delete_oldest-Shows :
      {g : Config} (now : ℕ) (c : LruCache K V) (l : List (Entry K V))
      → Shows g c l
      → Shows g (maybe_delete_oldest dec now c) (prune_by g now l)
  unfolding maybe_delete_oldest prune_by
  maybe_delete_oldest-Shows now c l s =
      rw (← s.settings, ← s.shown)
        (elim (Bool-cases (not c.stale_return && ltb 0 c.max_age)) [
          | inl on ↦
              rw on
                (delete_expired-Shows (length c.lru) now c c.lru s.valid refl refl (omega arith))
          | inr off ↦ rw off (record { valid = s.valid; shown = refl; settings = refl })
        ])

  -- Without the element of a key, the other keys are found as before.
  index-rest :
      (c : LruCache K V) (k : K) (i : ℕ) (j : K)
      → IsValid c
      → index dec k c.lru ≡ some i
      → index dec j (remove_element i c.lru)
        ≡ elim (dec k j) [ yes _ ↦ none | no _ ↦ index dec j c.lru ]
  index-rest c k i j v h = elim (dec k j) [
    | yes p ↦ ground (
      arith,
      ap (λ q. index dec q (remove_element i c.lru)) p,
      index-remove_self dec k i c.lru v.ids v.keys h,
    )
    | no p ↦ ground (arith, index-remove_ne dec k j i c.lru v.ids h p)
  ]

  index-one :
      (j : K) (x : Element K V)
      → index dec j (x ∷ []) ≡ elim (dec x.entry.key j) [ yes _ ↦ some x.id | no _ ↦ none ]
  unfolding index
  index-one j x = refl

  pub move_to_back-Shows :
      {g : Config} (c : LruCache K V) (k : K) (i : ℕ) (e : Entry K V) {l : List (Entry K V)}
      → Shows g c l
      → index dec k c.lru ≡ some i
      → e.key ≡ k
      → Shows g (move_to_back c i e) (remove dec k l ++ e ∷ [])
  unfolding move_to_back
  move_to_back-Shows c k i e s h key =
      let v = s.valid in
      let (_, _, _, _, rest) = index-some dec k i c.lru v.ids h in
      let left = remove_element i c.lru in
      let back : Element K V = record { id = i; entry = e } in
      let gone = index-remove_self dec k i c.lru v.ids v.keys h in
      record {
        valid = record {
          indexed = λ j. ground (
            arith,
            v.indexed j,
            index-rest c k i j v h,
            index-append dec j left back,
            index-one j back,
            ap (λ q. index dec q c.lru) key,
          );
          ids =
              append-DistinctIds left back (remove-DistinctIds i c.lru v.ids)
                (find-remove_self i c.lru v.ids);
          keys =
              append-DistinctKeys dec left back (remove-DistinctKeys dec i c.lru v.keys)
                (ap (λ q. index dec q left) key ∙ gone);
          fresh = λ j le.
              find-append j left back (find-remove i j c.lru (v.fresh j le))
                (λ q. find-index dec j k c.lru (v.fresh j le) (h ∙ ap some (sym q)));
        };
        shown =
            entries-append left (back ∷ [])
            ∙ ap (λ l. l ++ e ∷ []) (rest ∙ ap (remove dec k) s.shown);
        settings = s.settings;
      }

  pub push_back-Shows :
      {g : Config} (c : LruCache K V) (e : Entry K V) {l : List (Entry K V)}
      → Shows g c l
      → index dec e.key c.lru ≡ none
      → Shows g (push_back dec c e) (l ++ e ∷ [])
  unfolding push_back update
  push_back-Shows c e s h =
      let v = s.valid in
      let back : Element K V = record { id = c.next_id; entry = e } in
      record {
        valid = record {
          indexed = λ j. ground (
            arith,
            v.indexed j,
            index-append dec j c.lru back,
            index-one j back,
            λ (p : e.key ≡ j). ap (λ q. index dec q c.lru) p,
          );
          ids = append-DistinctIds c.lru back v.ids (v.fresh c.next_id (omega arith));
          keys = append-DistinctKeys dec c.lru back v.keys h;
          fresh = λ j le. find-append j c.lru back (v.fresh j (omega arith)) (omega arith);
        };
        shown = entries-append c.lru (back ∷ []) ∙ ap (λ l. l ++ e ∷ []) s.shown;
        settings = s.settings;
      }

  delete_front-Shows :
      {g : Config} (c : LruCache K V) (xs : List (Element K V))
      → IsValid c
      → c.config ≡ g
      → c.lru ≡ xs
      → Shows g (delete_front dec c) (tail (entries xs))
  unfolding delete_front
  delete_front-Shows c [] v s e =
      rw (e, delete_front) (record { valid = v; shown = ap entries e; settings = s })
  delete_front-Shows c (x ∷ xs) v s e = rw (e, delete_front) (delete_head c x xs v s e).0

  pub drop_excess-Shows :
      {g : Config} (c : LruCache K V) {l : List (Entry K V)}
      → Shows g c l
      → Shows g (drop_excess dec c) (trim g.max_size l)
  unfolding drop_excess trim
  drop_excess-Shows c s =
      rw (← s.settings, ← s.shown, length-entries)
        (elim (Bool-cases (is_over c.max_size (length c.lru))) [
          | inl full ↦ rw full (delete_front-Shows c c.lru s.valid refl refl)
          | inr fits ↦ rw fits (record { valid = s.valid; shown = refl; settings = refl })
        ])
