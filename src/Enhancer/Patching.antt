-- ===== src/Enhancer/Patching.antt =====
-- `PatchFrom` of dns/enhancer.go: what a new host mapper takes over from the old one.
use clash_flt.Prelude.{ℕ, ◌≡◌, sym, ap, subst, ◌∙◌, some, List, [], ◌∷◌}
use clash_flt.Prelude.Text.{Text, to_lower}
use clash_flt.Lru.{clone_to}
use clash_flt.Lru.Spec.{lookup as find}
use clash_flt.Lru.Refine.{Shows}
use clash_flt.Lru.Operations.{clone_to-Shows}
use clash_flt.FakeIp.{Ipv4, Key, host_key, MemoryStore, memory, Pool, lookup, clone_from}
use clash_flt.FakeIp.Pairs.{Item}
use clash_flt.FakeIp.Memory.{Holds}
use clash_flt.FakeIp.Assign.{IsValid, Bound, lookup-Bound}
use clash_flt.FakeIp.Answers.{same_address, look_back-Bound}
use clash_flt.Enhancer.{
  Net, ResolverEnhancer, find_host_by_ip, find_in_pool, patch_from, patch_pool,
}

abbrev pub bytes : Ipv4 → List ℕ
bytes ip = ip.a ∷ ip.b ∷ ip.c ∷ ip.d ∷ []

module _ (dec : Discrete Key) where
  Holds-clone_to :
      (size : ℕ) (c n : MemoryStore) (l k : List Item)
      → Holds dec size c l
      → Holds dec size n k
      → Holds dec size (clone_to dec c n) l
  Holds-clone_to size c n l k old new = record {
    shows =
        subst (λ g. Shows dec g (clone_to dec c n) l) new.shows.settings
          (subst (Shows dec n.config (clone_to dec c n)) old.shows.shown
            (clone_to-Shows dec c n old.shows.valid));
    paired = old.paired;
    bounded = old.bounded;
  }

  -- A new pool that takes over the store of a valid one of its size is valid, with the old entries.
  IsValid-clone_from :
      (size : ℕ) (p o : Pool MemoryStore) (l k : List Item)
      → IsValid dec size o l
      → IsValid dec size p k
      → IsValid dec size (clone_from (memory dec) p o) l
  unfolding clone_from memory
  IsValid-clone_from size p o l k old new = record {
    holds = Holds-clone_to size o.store p.store l k old.holds new.holds;
    in_range = new.in_range;
  }

  -- A lookup of a bound name answers the address that it is bound to, and keeps the binding.
  lookup-again :
      (size : ℕ) (name again : Text) (ip : Ipv4) (p : Pool MemoryStore) (l : List Item)
      → IsValid dec size p l
      → Bound dec (to_lower name) ip l
      → to_lower again ≡ to_lower name
      → (q : Pool MemoryStore) × (lookup (memory dec) again p ≡ some (q, ip))
  lookup-again size name again ip p l v bound e =
      let (q, ip', l', answered, _, _, _, origin) = lookup-Bound dec size again p l v in
      let found : find dec (host_key (to_lower again)) l ≡ some bound.host_item =
        subst (λ z. find dec (host_key z) l ≡ some bound.host_item) (sym e) bound.host_found in
      (
        q,
        answered
            ∙ ap (λ z. some (q, z))
                (same_address dec l _ ip ip' bound.host_item found bound.host_to_ip origin),
      )

  module _ (net : Net) where
    find_host_by_ip-Bound :
        (size : ℕ) (host : Text) (ip : Ipv4) (h : ResolverEnhancer MemoryStore)
        (p : Pool MemoryStore) (l : List Item)
        → h.fake_pool ≡ some p
        → IsValid dec size p l
        → Bound dec host ip l
        → (s : ResolverEnhancer MemoryStore) × (find_host_by_ip (memory dec) net (bytes ip) h
            ≡ some (s, some host))
    unfolding find_host_by_ip find_in_pool
    find_host_by_ip-Bound size host ip h p l is_pool v bound =
        let (q, _, back, _) = look_back-Bound dec size host ip p l v bound in
        (record h { fake_pool = some q }, rw (is_pool, back))

    -- A reload keeps the fake addresses: if a valid pool has answered a name, and the old host
    -- mapper has the pool as it was left, then the new host mapper, after `PatchFrom` with a valid
    -- pool of the same size, has a pool that answers the name, in any case, with the same address,
    -- and `FindHostByIP` of that address gives the lower-case name.
    pub patch_from-lookup :
        (size : ℕ) (name again : Text) (ip : Ipv4) (h o : ResolverEnhancer MemoryStore)
        (p before after : Pool MemoryStore) (l k : List Item)
        → IsValid dec size before l
        → lookup (memory dec) name before ≡ some (after, ip)
        → o.fake_pool ≡ some after
        → h.fake_pool ≡ some p
        → IsValid dec size p k
        → to_lower again ≡ to_lower name
        → (q r : Pool MemoryStore) × (s : ResolverEnhancer MemoryStore) × ((patch_from
              (memory dec)
              net
              h
              o).fake_pool
            ≡ some q)
          × (lookup (memory dec) again q ≡ some (r, ip))
          × (find_host_by_ip (memory dec) net (bytes ip) (patch_from (memory dec) net h o)
              ≡ some (s, some (to_lower name)))
    unfolding patch_from patch_pool
    patch_from-lookup size name again ip h o p before after l k v answers old new fits e =
        let (after', ip', l', answered, valid, _, bound, _) =
          lookup-Bound dec size name before l v in
        let same : after' ≡ after = cc (answered, answers) in
        let same_ip : ip' ≡ ip = cc (answered, answers) in
        let bound' : Bound dec (to_lower name) ip l' =
          subst (λ z. Bound dec (to_lower name) z l') same_ip bound in
        let q = clone_from (memory dec) p after in
        let taken =
          IsValid-clone_from size p after l' k (subst (λ z. IsValid dec size z l') same valid)
            fits in
        let patched : (patch_from (memory dec) net h o).fake_pool ≡ some q = rw (old, new) in
        let (r, again_answers) = lookup-again size name again ip q l' taken bound' e in
        let (s, back) =
          find_host_by_ip-Bound size (to_lower name) ip (patch_from (memory dec) net h o) q l'
            patched taken bound' in
        (q, r, s, patched, again_answers, back)
