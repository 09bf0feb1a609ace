-- ===== src/FakeIp/Assign.antt =====
-- `Lookup` and `LookBack` over the memory store.
use clash_flt.Prelude.{
  ℕ, ◌%◌, ◌<◌, ◌≡◌, refl, subst, ◌⊎◌, inl, inr, true, false, none, some, List, [], ◌∷◌, ◌++◌, arith,
  Option-cases,
}
use clash_flt.Prelude.Text.{Text, to_lower}
use clash_flt.Lru.Spec.{lookup as find}
use clash_flt.Lru.Reads.{Distinct, shown-Distinct}
use clash_flt.FakeIp.{
  Ipv4, Key, host_key, ip_key, host_value, ip_value, add32, sub32, ip_to_uint, MemoryStore, memory,
  Pool, address, get, lookup, put_by_host, put_by_ip, store_exist,
}
use clash_flt.FakeIp.Pairs.{Item, Link, remove_pair}
use clash_flt.FakeIp.Keys.{absent-remove_pair, lookup-remove_pair_self, lookup_last_two}
use clash_flt.FakeIp.Memory.{Holds, item}
use clash_flt.FakeIp.Methods.{
  get_by_host-miss, get_by_host-hit, del_by_ip-hit, store_exist-lookup, put-pair,
}
use clash_flt.FakeIp.Loop.{scan_ends}

module _ (dec : Discrete Key) where
  -- A pool whose offset lies in its range and whose store holds `l` in pairs.
  pub record IsValid (size : ℕ) (p : Pool MemoryStore) (l : List Item) : Type 0 where
    pub holds : Holds dec size p.store l
    pub in_range : p.offset < sub32 p.max p.min

  -- The address of an offset of the range.
  abbrev pub InRange : Pool MemoryStore → Ipv4 → Type 0
  InRange p ip = (o : ℕ) × (o < sub32 p.max p.min) × (ip ≡ address (memory dec) p o)

  absent_ip :
      (size : ℕ) (p : Pool MemoryStore) (l : List Item) (ip : Ipv4)
      → Holds dec size p.store l
      → store_exist ip p.store ≡ false
      → find dec (ip_key (ip_to_uint ip)) l ≡ none
  absent_ip size p l ip s h = ground (arith, store_exist-lookup dec size ip p.store l s)

  present_ip :
      (size : ℕ) (p : Pool MemoryStore) (l : List Item) (ip : Ipv4)
      → Holds dec size p.store l
      → store_exist ip p.store ≡ true
      → (e : Item) × (find dec (ip_key (ip_to_uint ip)) l ≡ some e)
  present_ip size p l ip s h = elim (Option-cases (find dec (ip_key (ip_to_uint ip)) l)) [
    | inl miss ↦ absurd (ground (arith, store_exist-lookup dec size ip p.store l s))
    | inr hit ↦ hit
  ]

  -- `get` of a host that the store does not know stores a new pair for it, with an address of the
  -- range that no other host holds then; it fails for no input.
  get-pair :
      (size : ℕ) (h : Text) (p : Pool MemoryStore) (l : List Item)
      → IsValid size p l
      → find dec (host_key h) l ≡ none
      → (q : Pool MemoryStore) × (ip : Ipv4) × (l' : List Item) × (get (memory dec) h p
          ≡ some (q, ip))
        × InRange p ip
        × (q.offset < sub32 q.max q.min)
        × ((q.max ≡ p.max) × (q.min ≡ p.min))
        × Holds dec size (put_by_host dec h ip q.store) (
            l'
            ++ item (ip_key (ip_to_uint ip)) (host_value h) ∷ item (host_key h) (ip_value ip) ∷ [])
  unfolding get memory
  get-pair size h p l v fresh = elim (scan_ends (memory dec) p v.in_range) [
    | inl (o, ends, ho, vacant) ↦
        let ip = address (memory dec) p o in
        let (l', _, holds) =
          put-pair dec size h ip p.store l v.holds fresh (absent_ip size p l ip v.holds vacant) in
        (
          record p { offset = o; store = put_by_ip dec ip h p.store },
          ip,
          l',
          rw (ends, get),
          (o, ho, refl),
          ho,
          (refl, refl),
          holds,
        )
    | inr (ends, taken) ↦
        let next = add32 p.offset 1 % sub32 p.max p.min in
        let inside : next < sub32 p.max p.min = omega arith in
        let ip = address (memory dec) p next in
        let (e, found) = present_ip size p l ip v.holds (taken next inside) in
        let (m, deleted, left) = del_by_ip-hit dec size ip p.store l e v.holds found in
        let k = ip_key (ip_to_uint ip) in
        let (l', _, holds) =
          put-pair dec size h ip m (remove_pair dec k l) left
            (absent-remove_pair dec (host_key h) k l fresh)
            (lookup-remove_pair_self dec k l e v.holds.paired (shown-Distinct dec v.holds.shows)
              found) in
        (
          record p { offset = next; store = put_by_ip dec ip h m },
          ip,
          l',
          rw (ends, get) (rw deleted),
          (next, inside, refl),
          inside,
          (refl, refl),
          holds,
        )
  ]

  -- The store sends the host to the address and the address to the host.
  pub record Bound (h : Text) (ip : Ipv4) (l : List Item) : Type 0 where
    pub host_item : Item
    pub ip_item : Item
    pub host_found : find dec (host_key h) l ≡ some host_item
    pub host_to_ip : host_item.value ≡ ip_value ip
    pub ip_found : find dec (ip_key (ip_to_uint ip)) l ≡ some ip_item
    pub ip_to_host : ip_item.value ≡ host_value h

  Bound-last :
      (h : Text) (ip : Ipv4) (m : List Item) (e f : Item)
      → Link h ip e f
      → Distinct dec (m ++ e ∷ f ∷ [])
      → Bound h ip (m ++ e ∷ f ∷ [])
  Bound-last h ip m e f link d =
      let l = m ++ e ∷ f ∷ [] in
      let (at_e, at_f) = lookup_last_two dec m e f d in
      record {
        host_item = e;
        ip_item = f;
        host_found = subst (λ k. find dec k l ≡ some e) link.0 at_e;
        host_to_ip = link.1;
        ip_found = subst (λ k. find dec k l ≡ some f) link.2 at_f;
        ip_to_host = link.3;
      }

  Bound-last_swapped :
      (h : Text) (ip : Ipv4) (m : List Item) (e f : Item)
      → Link h ip f e
      → Distinct dec (m ++ e ∷ f ∷ [])
      → Bound h ip (m ++ e ∷ f ∷ [])
  Bound-last_swapped h ip m e f link d =
      let l = m ++ e ∷ f ∷ [] in
      let (at_e, at_f) = lookup_last_two dec m e f d in
      record {
        host_item = f;
        ip_item = e;
        host_found = subst (λ k. find dec k l ≡ some f) link.0 at_f;
        host_to_ip = link.1;
        ip_found = subst (λ k. find dec k l ≡ some e) link.2 at_e;
        ip_to_host = link.3;
      }

  -- On a valid pool `Lookup` always answers, and leaves a valid pool with the same range in which
  -- the lower-case host and the answered address are bound to each other. A host that was bound
  -- keeps its address; the address of any other host is one of the range.
  pub lookup-Bound :
      (size : ℕ) (name : Text) (p : Pool MemoryStore) (l : List Item)
      → IsValid size p l
      → (q : Pool MemoryStore) × (ip : Ipv4) × (l' : List Item) × (lookup (memory dec) name p
          ≡ some (q, ip))
        × IsValid size q l'
        × ((q.max ≡ p.max) × (q.min ≡ p.min))
        × Bound (to_lower name) ip l'
        × (((e : Item) × (find dec (host_key (to_lower name)) l ≡ some e) × (e.value ≡ ip_value ip))
            ⊎ ((find dec (host_key (to_lower name)) l ≡ none) × InRange p ip))
  unfolding lookup memory address
  lookup-Bound size name p l v =
      let h = to_lower name in
      elim (Option-cases (find dec (host_key h) l)) [
        | inr (e, hit) ↦
            let (m, ip, f, known, link, holds) =
              get_by_host-hit dec size h p.store l e v.holds hit in
            (
              record p { store = m },
              ip,
              remove_pair dec (host_key h) l ++ e ∷ f ∷ [],
              rw (known, lookup),
              record { holds = holds; in_range = v.in_range },
              (refl, refl),
              Bound-last h ip (remove_pair dec (host_key h) l) e f link
                  (shown-Distinct dec holds.shows),
              inl (e, hit, link.1),
            )
        | inl miss ↦
            let (m, unknown, holds) = get_by_host-miss dec size h p.store l v.holds miss in
            let p' = record p { store = m } in
            let (q, ip, l', got, ranged, inside, same, stored) =
              get-pair size h p' l (record { holds = holds; in_range = v.in_range }) miss in
            (
              record q { store = put_by_host dec h ip q.store },
              ip,
              l'
                  ++ item (ip_key (ip_to_uint ip)) (host_value h)
                    ∷ item (host_key h) (ip_value ip)
                    ∷ [],
              rw (unknown, lookup) (rw got),
              record { holds = stored; in_range = inside },
              same,
              Bound-last_swapped h ip l' _ _ (refl, refl, refl, refl)
                  (shown-Distinct dec stored.shows),
              inr (miss, ranged),
            )
      ]
