-- ===== src/Enhancer/Mapper.antt =====
-- The host mapper as the tunnel sees it, and a connection to a fake address on its way through both.
use clash_flt.Prelude.{ℕ, ◌≡◌, refl, true, Option, none, some, List, [], ◌∷◌, arith}
use clash_flt.Prelude.Text.{Text, to_lower}
use clash_flt.Lru.{LruCache}
use clash_flt.Metadata.{Ip, Metadata, dns_fake_ip, is_empty}
use clash_flt.FakeIp.{Ipv4, Key, Store, Pool, MemoryStore, memory, lookup, look_back}
use clash_flt.FakeIp.Pairs.{Item}
use clash_flt.FakeIp.Assign.{IsValid}
use clash_flt.FakeIp.Answers.{look_back-lookup}
use clash_flt.Enhancer
use clash_flt.Enhancer.{ResolverEnhancer, Net, find_in_pool, find_host_by_ip}
use clash_flt.Tunnel
use clash_flt.Tunnel.{World, pre_handle_metadata, host_to_ip, need_lookup_ip, map_ip, map_host}

-- A mapper in fake-IP mode.
abbrev pub fake_mapper : {S : Type 0} → Pool S → Option (LruCache Text Text) → ResolverEnhancer S
fake_mapper pool cache = record { mode = dns_fake_ip; fake_pool = some pool; mapping = cache }

abbrev pub host_of : {S : Type 0} → Option (ResolverEnhancer S × Option Text) → Option Text
host_of none = none
host_of (some r) = r.1

module _ {S : Type 0} (st : Store S) (net : Net) where
  -- The answers of the mapper; what a lookup moves in its caches is not seen by the tunnel.
  unfoldable pub as_enhancer : ResolverEnhancer S → Tunnel.Enhancer
  as_enhancer h = record {
    fake_ip_enabled = Enhancer.fake_ip_enabled st net h;
    mapping_enabled = Enhancer.mapping_enabled st net h;
    is_fake_ip = Enhancer.is_fake_ip st net h;
    is_exist_fake_ip = Enhancer.is_exist_fake_ip st net h;
    find_host_by_ip = λ ip. host_of (find_host_by_ip st net ip h);
  }

  find_host_by_ip-look_back :
      (ip : Ip) (h : ResolverEnhancer S) (p q : Pool S) (host : Text)
      → h.fake_pool ≡ some p
      → look_back st ip p ≡ some (q, some host)
      → host_of (find_host_by_ip st net ip h) ≡ some host
  unfolding find_host_by_ip find_in_pool
  find_host_by_ip-look_back ip h p q host has found = rw (has, found) refl

  module _ (w : World) (h : ResolverEnhancer S) (is : w.mapper ≡ some (as_enhancer h))
      (mode : h.mode ≡ dns_fake_ip) where
    mapping_is_enabled : Tunnel.mapping_enabled w ≡ true
    unfolding Tunnel.mapping_enabled Enhancer.mapping_enabled as_enhancer
    mapping_is_enabled = rw (is, mode) refl

    fake_ip_is_enabled : Tunnel.fake_ip_enabled w ≡ true
    unfolding Tunnel.fake_ip_enabled Enhancer.fake_ip_enabled as_enhancer
    fake_ip_is_enabled = rw (is, mode) refl

    host_is_found :
        (ip : Ip) (q r : Pool S) (host : Text)
        → h.fake_pool ≡ some q
        → look_back st ip q ≡ some (r, some host)
        → Tunnel.find_host_by_ip w ip ≡ some host
    unfolding Tunnel.find_host_by_ip as_enhancer
    host_is_found ip q r host has found =
        rw (is) (find_host_by_ip-look_back ip h q r host has found)

    map_ip-look_back :
        (m : Metadata) (ip : Ip) (q r : Pool S) (host : Text)
        → h.fake_pool ≡ some q
        → look_back st ip q ≡ some (r, some host)
        → map_ip w ip m ≡ some (record m { host = host; dst_ip = none; dns_mode = dns_fake_ip })
    unfolding map_ip map_host
    map_ip-look_back m ip q r host has found =
        ground (arith, host_is_found ip q r host has found, fake_ip_is_enabled)

    host_to_ip-unnamed : (m : Metadata) → w.parse_ip m.host ≡ none → host_to_ip w m ≡ m
    unfolding host_to_ip
    host_to_ip-unnamed m no_ip = rw (no_ip, host_to_ip) refl

    pub pre_handle_metadata-look_back :
        (m : Metadata) (ip : Ip) (q r : Pool S) (host : Text)
        → h.fake_pool ≡ some q
        → w.parse_ip m.host ≡ none
        → is_empty m.host ≡ true
        → m.dst_ip ≡ some ip
        → look_back st ip q ≡ some (r, some host)
        → pre_handle_metadata w m
          ≡ some (record m { host = host; dst_ip = none; dns_mode = dns_fake_ip })
    unfolding pre_handle_metadata need_lookup_ip
    pre_handle_metadata-look_back m ip q r host has no_ip unnamed dst found = ground (
      arith,
      host_to_ip-unnamed m no_ip,
      mapping_is_enabled,
      map_ip-look_back m ip q r host has found,
    )

module _ (dec : Discrete Key) (net : Net) where
  -- On a valid pool: after `Lookup` of a name, a connection without a host to the address that it
  -- answered gets, from `preHandleMetadata` with the mapper of that pool in fake-IP mode, the
  -- lower-case name as its host and no address, if the empty host does not parse as an address.
  pre_handle_metadata-lookup :
      (size : ℕ) (name : Text) (p : Pool MemoryStore) (l : List Item)
      → IsValid dec size p l
      → (w : World) (m : Metadata) (cache : Option (LruCache Text Text)) → w.parse_ip m.host ≡ none
      → is_empty m.host ≡ true
      → (q : Pool MemoryStore) × (ip : Ipv4) × (lookup (memory dec) name p ≡ some (q, ip))
        × (pre_handle_metadata
              (record w { mapper = some (as_enhancer (memory dec) net (fake_mapper q cache)) })
              (record m { dst_ip = some (ip.a ∷ ip.b ∷ ip.c ∷ ip.d ∷ []) })
            ≡ some (record m { host = to_lower name; dst_ip = none; dns_mode = dns_fake_ip }))
  pre_handle_metadata-lookup size name p l v w m cache no_ip unnamed =
      let (q, r, ip, answered, back) = look_back-lookup dec size name p l v in
      let h = fake_mapper q cache in
      let bytes : Ip = ip.a ∷ ip.b ∷ ip.c ∷ ip.d ∷ [] in
      (
        q,
        ip,
        answered,
        pre_handle_metadata-look_back (memory dec) net
            (record w { mapper = some (as_enhancer (memory dec) net h) }) h refl refl
            (record m { dst_ip = some bytes }) bytes q r (to_lower name) refl no_ip unnamed refl
            back,
      )
