-- ===== src/Tests/Reloads.antt =====
-- Examples for `PatchFrom` of dns/enhancer.go.
use clash_flt.Prelude.{◌≡◌, refl, some, [], false}
use clash_flt.Prelude.Text.{codes, to_lower}
use clash_flt.Metadata.{dns_fake_ip}
use clash_flt.FakeIp.{MemoryStore, memory, Pool, lookup}
use clash_flt.Enhancer.{Net, ResolverEnhancer, find_host_by_ip, patch_from, new_enhancer}
use clash_flt.Enhancer.Patching.{bytes, patch_from-lookup}
use clash_flt.Tests.Pools.{Key-discrete, pool, pool-IsValid, answered, same_lower}

abbrev net : Net
net = record { contains = λ ip. false; printed = λ ip. ip }

abbrev old_enhancer : ResolverEnhancer MemoryStore
old_enhancer = new_enhancer (memory Key-discrete) net dns_fake_ip (some answered.0)

abbrev next_enhancer : ResolverEnhancer MemoryStore
next_enhancer = new_enhancer (memory Key-discrete) net dns_fake_ip (some pool)

patch_from-lookup_example :
    (q r : Pool MemoryStore) × (s : ResolverEnhancer MemoryStore) × ((patch_from
        (memory Key-discrete)
        net
        next_enhancer
        old_enhancer).fake_pool
      ≡ some q)
    × (lookup (memory Key-discrete) (codes "foo.com") q ≡ some (r, answered.1))
    × (find_host_by_ip
          (memory Key-discrete)
          net
          (bytes answered.1)
          (patch_from (memory Key-discrete) net next_enhancer old_enhancer)
        ≡ some (s, some (to_lower (codes "Foo.com"))))
unfolding new_enhancer
patch_from-lookup_example =
    patch_from-lookup Key-discrete net 10 (codes "Foo.com") (codes "foo.com") answered.1
      next_enhancer old_enhancer pool pool answered.0 [] [] pool-IsValid answered.3 refl refl
      pool-IsValid same_lower
