-- ===== src/Enhancer.antt =====
-- dns/enhancer.go: the host mapper, over the fake-IP pool and a cache of the addresses answered.
--
-- `printed` prints an address, and `contains` says whether the pool's net has it; a lookup's panic is
-- `none`.
pub mod Mapper
pub mod Patching
use native.Mathlib.Decide.{ℕ_discrete}
use clash_flt.Prelude.{
  ℕ, ◌≡◌, Bool, true, false, ◌&&◌, ◌||◌, not, Option, none, some, List, [], ◌∷◌, ◌==◌,
  if◌then◌else◌,
}
use clash_flt.Prelude.Text.{Text, Text-discrete}
use clash_flt.Lru
use clash_flt.Lru.{LruCache, CacheOption}
use clash_flt.Metadata.{Ip, DnsMode, dns_normal, dns_fake_ip, dns_mapping}
use clash_flt.FakeIp
use clash_flt.FakeIp.{Ipv4, Store, Pool, to4, ip_to_uint, look_back, ◌>>=◌}

-- What is asked of net.IP and net.IPNet.
pub record Net : Type 0 where
  pub contains : Ip → Bool
  pub printed : Ip → Text

pub record ResolverEnhancer (S : Type 0) : Type 0 where
  pub mode : DnsMode
  pub fake_pool : Option (Pool S)
  pub mapping : Option (LruCache Text Text)

abbrev pub is_fake_mode : DnsMode → Bool
is_fake_mode dns_fake_ip = true
is_fake_mode _ = false

abbrev pub is_mapping_mode : DnsMode → Bool
is_mapping_mode dns_normal = false
is_mapping_mode _ = true

module _ {S : Type 0} (st : Store S) (net : Net) where
  unfoldable pub fake_ip_enabled : ResolverEnhancer S → Bool
  fake_ip_enabled h = is_fake_mode h.mode

  unfoldable pub mapping_enabled : ResolverEnhancer S → Bool
  mapping_enabled h = is_mapping_mode h.mode

  unfoldable pub pool_exist : Ip → Option (Pool S) → Bool
  pool_exist ip none = false
  pool_exist ip (some pool) = FakeIp.exist st ip pool

  unfoldable pub is_exist_fake_ip : ResolverEnhancer S → Ip → Bool
  is_exist_fake_ip h ip = if fake_ip_enabled h then pool_exist ip h.fake_pool else false

  -- `Gateway().Equal(ip)`, by the number of the address.
  unfoldable pub is_gateway : Ip → Pool S → Bool
  is_gateway ip pool = elim (to4 ip) [ none ↦ false | some v ↦ ip_to_uint v == pool.gateway ]

  unfoldable pub pool_has : Ip → Option (Pool S) → Bool
  pool_has ip none = false
  pool_has ip (some pool) = net.contains ip && not (is_gateway ip pool)

  unfoldable pub is_fake_ip : ResolverEnhancer S → Ip → Bool
  is_fake_ip h ip = if fake_ip_enabled h then pool_has ip h.fake_pool else false

  unfoldable pub find_in_pool : Ip → Option (Pool S) → Option (Option (Pool S) × Option Text)
  find_in_pool ip none = some (none, none)
  find_in_pool ip (some pool) = do (pool', host) ← look_back st ip pool; some (some pool', host)

  -- The cache has no age, so that its `Get` never reads the clock.
  unfoldable pub find_in_mapping :
      Ip → Option (LruCache Text Text) → Option (LruCache Text Text) × Option Text
  find_in_mapping ip none = (none, none)
  find_in_mapping ip (some m) =
      let found = Lru.get Text-discrete 0 0 (net.printed ip) m in (some found.0, found.1)

  unfoldable pub find_host_by_ip :
      Ip → ResolverEnhancer S → Option (ResolverEnhancer S × Option Text)
  find_host_by_ip ip h = do
    (pool, host) ← find_in_pool ip h.fake_pool
    let h' = record h { fake_pool = pool }
    elim host [
      | some name ↦ some (h', some name)
      | none ↦
          let found = find_in_mapping ip h.mapping in
          some (record h' { mapping = found.0 }, found.1)
    ]

  unfoldable pub patch_mapping :
      Option (LruCache Text Text) → Option (LruCache Text Text) → Option (LruCache Text Text)
  patch_mapping (some m) (some old) = some (Lru.clone_to Text-discrete old m)
  patch_mapping (some m) none = some m
  patch_mapping none old = none

  unfoldable pub patch_pool : Option (Pool S) → Option (Pool S) → Option (Pool S)
  patch_pool (some p) (some old) = some (FakeIp.clone_from st p old)
  patch_pool (some p) none = some p
  patch_pool none old = none

  unfoldable pub patch_from : ResolverEnhancer S → ResolverEnhancer S → ResolverEnhancer S
  patch_from h o = record h {
    mapping = patch_mapping h.mapping o.mapping;
    fake_pool = patch_pool h.fake_pool o.fake_pool;
  }

  unfoldable pub new_enhancer : DnsMode → Option (Pool S) → ResolverEnhancer S
  new_enhancer dns_normal pool = record { mode = dns_normal; fake_pool = none; mapping = none }
  new_enhancer dns_fake_ip pool = record {
    mode = dns_fake_ip;
    fake_pool = pool;
    mapping = some (Lru.new (CacheOption.with_size 4096 ∷ []));
  }
  new_enhancer dns_mapping pool = record {
    mode = dns_mapping;
    fake_pool = pool;
    mapping = some (Lru.new (CacheOption.with_size 4096 ∷ []));
  }
