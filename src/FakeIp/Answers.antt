-- ===== src/FakeIp/Answers.antt =====
-- What the answers of `Lookup` and `LookBack` have to do with each other.
use clash_flt.Prelude.{ℕ, ◌≡◌, sym, ap, subst, ◌∙◌, ◌⊎◌, inl, inr, none, some, List, [], ◌∷◌, ◌++◌}
use clash_flt.Prelude.Text.{Text, to_lower}
use clash_flt.Lru.Spec.{lookup as find}
use clash_flt.FakeIp.{
  Ipv4, Key, host_key, ip_key, ip_value, ip_to_uint, MemoryStore, memory, Pool, lookup, look_back,
  to4,
}
use clash_flt.FakeIp.Pairs.{Item, remove_pair}
use clash_flt.FakeIp.Methods.{get_by_ip-hit}
use clash_flt.FakeIp.Assign.{IsValid, Bound, lookup-Bound}

module _ (dec : Discrete Key) where
  pub same_address :
      (l : List Item) (k : Key) (ip ip' : Ipv4) (e : Item) {R : Type 0}
      → find dec k l ≡ some e
      → e.value ≡ ip_value ip
      → ((e' : Item) × (find dec k l ≡ some e') × (e'.value ≡ ip_value ip'))
        ⊎ ((find dec k l ≡ none) × R)
      → ip' ≡ ip
  same_address l k ip ip' e f v (inl (e', f', v')) =
      let same : e ≡ e' = cc (f, f') in cc (v, v', same)
  same_address l k ip ip' e f v (inr (none', _)) = absurd (cc (f, none'))

  -- A valid pool answers a lookup of an address that is bound with its host, and stays valid.
  pub look_back-Bound :
      (size : ℕ) (h : Text) (ip : Ipv4) (p : Pool MemoryStore) (l : List Item)
      → IsValid dec size p l
      → Bound dec h ip l
      → (q : Pool MemoryStore) × (l' : List Item) × (look_back
            (memory dec)
            (ip.a ∷ ip.b ∷ ip.c ∷ ip.d ∷ [])
            p
          ≡ some (q, some h))
        × IsValid dec size q l'
  unfolding look_back memory to4
  look_back-Bound size h ip p l v b =
      let (m, h', f, known, value, key, holds) =
        get_by_ip-hit dec size ip p.store l b.ip_item v.holds b.ip_found in
      let same : h' ≡ h = cc (value, b.ip_to_host) in
      (
        record p { store = m },
        remove_pair dec (ip_key (ip_to_uint ip)) l ++ b.ip_item ∷ f ∷ [],
        rw known (ap (λ z. some (record p { store = m }, some z)) same),
        record { holds = holds; in_range = v.in_range },
      )

  -- On a valid pool, after `Lookup` of a name, `LookBack` of the address that it answered gives the
  -- lower-case name.
  pub look_back-lookup :
      (size : ℕ) (name : Text) (p : Pool MemoryStore) (l : List Item)
      → IsValid dec size p l
      → (q r : Pool MemoryStore) × (ip : Ipv4) × (lookup (memory dec) name p ≡ some (q, ip))
        × (look_back (memory dec) (ip.a ∷ ip.b ∷ ip.c ∷ ip.d ∷ []) q
            ≡ some (r, some (to_lower name)))
  look_back-lookup size name p l v =
      let (q, ip, l', answered, valid, _, bound, _) = lookup-Bound dec size name p l v in
      let (r, _, back, _) = look_back-Bound size (to_lower name) ip q l' valid bound in
      (q, r, ip, answered, back)

  -- On a valid pool, a second `Lookup` of the same name, in any case, answers the same address.
  lookup-lookup :
      (size : ℕ) (name again : Text) (p : Pool MemoryStore) (l : List Item)
      → IsValid dec size p l
      → to_lower again ≡ to_lower name
      → (q r : Pool MemoryStore) × (ip : Ipv4) × (lookup (memory dec) name p ≡ some (q, ip))
        × (lookup (memory dec) again q ≡ some (r, ip))
  lookup-lookup size name again p l v e =
      let (q, ip, l', answered, valid, _, bound, _) = lookup-Bound dec size name p l v in
      let (r, ip', _, second, _, _, _, origin) = lookup-Bound dec size again q l' valid in
      let found : find dec (host_key (to_lower again)) l' ≡ some bound.host_item =
        subst (λ z. find dec (host_key z) l' ≡ some bound.host_item) (sym e) bound.host_found in
      (
        q,
        r,
        ip,
        answered,
        second
            ∙ ap (λ z. some (r, z))
                (same_address l' _ ip ip' bound.host_item found bound.host_to_ip origin),
      )
