-- ===== src/Tests/Pools.antt =====
-- Examples for component/fakeip.
use native.Mathlib.Decide.{ℕ_discrete}
use clash_flt.Prelude.{
  ℕ, ◌≡◌, ◌<◌, ◌+◌, ◌-◌, ◌^◌, ◌⊎◌, refl, none, some, List, [], ◌∷◌, arith, false,
}
use clash_flt.Prelude.Text.{Text, Text-discrete, codes, to_lower}
use clash_flt.Lru
use clash_flt.Lru.Spec.{lookup as find}
use clash_flt.FakeIp
use clash_flt.FakeIp.{
  Ipv4, Key, Value, host_key, ip_key, ip_value, sub32, add32, ip_to_uint, uint_to_ip, MemoryStore,
  memory, Pool, free, full, address, scan, lookup, look_back, u32,
}
use clash_flt.FakeIp.Loop.{Taken, range, scan_ends}
use clash_flt.FakeIp.Range.{Net, new-IsValid, InRange-new}
use clash_flt.FakeIp.Pairs.{Item}
use clash_flt.FakeIp.Assign.{IsValid, InRange, Bound, lookup-Bound}

abbrev pub Key-discrete : Discrete Key
Key-discrete = hlevel (Text-discrete, ℕ_discrete)

-- 198.18.0.0/28
abbrev net_ip : Ipv4
net_ip = record { a = 198; b = 18; c = 0; d = 0 }

abbrev pub pool : Pool MemoryStore
pool = record {
  max = 3323068431;
  min = 3323068418;
  gateway = 3323068417;
  offset = 0;
  host = none;
  store = Lru.new (Lru.with_size 20 ∷ []);
}

pool_made : FakeIp.new net_ip 28 32 none 10 ≡ some pool
unfolding FakeIp.new ip_to_uint add32 sub32
pool_made = refl

Net-fits : Net net_ip (2 ^ (32 - 28))
unfolding ip_to_uint
Net-fits = omega arith

new-IsValid_example : IsValid Key-discrete 10 pool []
new-IsValid_example = new-IsValid net_ip 28 32 none 10 pool Net-fits pool_made Key-discrete

pub pool-IsValid : IsValid Key-discrete 10 pool []
pool-IsValid = new-IsValid net_ip 28 32 none 10 pool Net-fits pool_made Key-discrete

abbrev first_ip : Ipv4
first_ip = address (memory Key-discrete) pool 0

first_ip-InRange : InRange Key-discrete pool first_ip
unfolding sub32
first_ip-InRange = (0, omega arith, refl)

InRange-new_example :
    (pool.gateway ≡ ip_to_uint net_ip + 1)
    × (pool.gateway < ip_to_uint first_ip)
    × (ip_to_uint first_ip + 1 < ip_to_uint net_ip + 2 ^ (32 - 28))
InRange-new_example =
    InRange-new net_ip 28 32 none 10 pool Net-fits pool_made Key-discrete first_ip first_ip-InRange

pool-offset : pool.offset < range (memory Key-discrete) pool
unfolding sub32
pool-offset = omega arith

scan_ends_example :
    ((r : ℕ) × (scan
          (memory Key-discrete)
          (range (memory Key-discrete) pool + 1)
          pool
          pool.offset
          pool.offset
        ≡ free r)
      × (r < range (memory Key-discrete) pool)
      × ((memory Key-discrete).exist (address (memory Key-discrete) pool r) pool.store ≡ false))
    ⊎ ((scan
            (memory Key-discrete)
            (range (memory Key-discrete) pool + 1)
            pool
            pool.offset
            pool.offset
          ≡ full pool.offset)
        × ((q : ℕ) → q < range (memory Key-discrete) pool → Taken (memory Key-discrete) pool q))
scan_ends_example = scan_ends (memory Key-discrete) pool pool-offset

abbrev no_items : List Item
no_items = []

abbrev pub Answered : Text → Type 0
Answered name =
    (q : Pool MemoryStore) × (ip : Ipv4) × (l : List Item) × (lookup (memory Key-discrete) name pool
      ≡ some (q, ip))
    × IsValid Key-discrete 10 q l
    × ((q.max ≡ pool.max) × (q.min ≡ pool.min))
    × Bound Key-discrete (to_lower name) ip l
    × (((e : Item) × (find Key-discrete (host_key (to_lower name)) no_items ≡ some e)
          × (e.value ≡ ip_value ip))
        ⊎ ((find Key-discrete (host_key (to_lower name)) no_items ≡ none)
            × InRange Key-discrete pool ip))

lookup-Bound_example : Answered (codes "Foo.com")
lookup-Bound_example = lookup-Bound Key-discrete 10 (codes "Foo.com") pool [] pool-IsValid

pub same_lower : to_lower (codes "foo.com") ≡ to_lower (codes "Foo.com")
unfolding to_lower
same_lower = refl

pub answered : Answered (codes "Foo.com")
answered = lookup-Bound Key-discrete 10 (codes "Foo.com") pool [] pool-IsValid
