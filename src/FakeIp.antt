-- ===== src/FakeIp.antt =====
-- component/fakeip/pool.go and component/fakeip/memory.go: fake IPv4 addresses for host names.
--
-- An IPv4 `net.IP` is its four bytes, and a uint32 is a number below 2 ^ 32 with its wrap-around
-- written out. `none` is a panic: a failed type assertion or a division by zero. The pool is over
-- the interface `Store`, as in the source; `memory` is the implementation by the LRU cache.
pub mod Address
pub mod Pairs
pub mod Trimming
pub mod Keys
pub mod Memory
pub mod Methods
pub mod Loop
pub mod Range
pub mod Assign
pub mod Answers
use clash_flt.Prelude.{
  ℕ, zero, suc, ◌+◌, ◌-◌, ◌*◌, ◌/◌, ◌%◌, ◌^◌, ◌≡◌, Bool, true, false, not, Option, none, some, List,
  [], ◌∷◌, ◌==◌, leb, if◌then◌else◌,
}
use clash_flt.Prelude.Text.{Text, to_lower}
use clash_flt.Lru
use clash_flt.Lru.{LruCache, CacheOption}
use clash_flt.Trie.{Node}
use clash_flt.Trie

infixl 5 ◌>>=◌
abbrev pub ◌>>=◌ {ℓ κ} : {A : Type ℓ} {B : Type κ} → Option A → (A → Option B) → Option B
none >>= f = none
some a >>= f = f a

pub record Ipv4 : Type 0 where
  pub a : ℕ
  pub b : ℕ
  pub c : ℕ
  pub d : ℕ

abbrev pub u32 : ℕ
u32 = 2 ^ 32

unfoldable pub add32 : ℕ → ℕ → ℕ
add32 x y = (x + y) % u32

unfoldable pub sub32 : ℕ → ℕ → ℕ
sub32 x y = (x + u32 - y) % u32

unfoldable pub ip_to_uint : Ipv4 → ℕ
ip_to_uint ip = (((ip.a * 2 ^ 24 + ip.b * 2 ^ 16) + ip.c * 2 ^ 8) + ip.d) % u32

unfoldable pub uint_to_ip : ℕ → Ipv4
uint_to_ip v = record {
  a = v / 2 ^ 24 % 256;
  b = v / 2 ^ 16 % 256;
  c = v / 2 ^ 8 % 256;
  d = v % 256;
}

-- `net.IP.To4`: four bytes, or sixteen bytes that embed an IPv4 address.
unfoldable pub to4 : List ℕ → Option Ipv4
to4 (a ∷ b ∷ c ∷ d ∷ []) = some (record { a = a; b = b; c = c; d = d })
to4 (z0 ∷ z1 ∷ z2 ∷ z3 ∷ z4 ∷ z5 ∷ z6 ∷ z7 ∷ z8 ∷ z9 ∷ f0 ∷ f1 ∷ a ∷ b ∷ c ∷ d ∷ []) =
    if z0 + z1 + z2 + z3 + z4 + z5 + z6 + z7 + z8 + z9 == 0
    then if f0 == 255
      then if f1 == 255 then some (record { a = a; b = b; c = c; d = d }) else none
      else none
    else none
to4 _ = none

-- The interface `store`. A method that may panic, or that touches the store, returns the new store.
pub record Store (S : Type 0) : Type 0 where
  pub get_by_host : Text → S → Option (S × Option Ipv4)
  pub put_by_host : Text → Ipv4 → S → S
  pub get_by_ip : Ipv4 → S → Option (S × Option Text)
  pub put_by_ip : Ipv4 → Text → S → S
  pub del_by_ip : Ipv4 → S → Option S
  pub exist : Ipv4 → S → Bool
  pub clone_to : S → S → S

-- The keys and values of the memory store: hosts as strings, addresses as uint32 and as `net.IP`.
pub data Key : Type 0 where
  host_key : Text → Key
  ip_key : ℕ → Key

pub data Value : Type 0 where
  host_value : Text → Value
  ip_value : Ipv4 → Value

unfoldable pub as_ip : Value → Option Ipv4
as_ip (ip_value ip) = some ip
as_ip (host_value h) = none

unfoldable pub as_host : Value → Option Text
as_host (host_value h) = some h
as_host (ip_value ip) = none

abbrev pub MemoryStore : Type 0
MemoryStore = LruCache Key Value

unfoldable pub store_exist : Ipv4 → MemoryStore → Bool
store_exist ip m = Lru.exist (ip_key (ip_to_uint ip)) m

module _ (dec : Discrete Key) where
  -- The store's cache has no age, so that its methods never read the clock: the readings are 0.
  unfoldable pub cache_get : Key → MemoryStore → MemoryStore × Option Value
  cache_get k m = Lru.get dec 0 0 k m

  unfoldable pub cache_set : Key → Value → MemoryStore → MemoryStore
  cache_set k v m = Lru.set dec 0 0 k v m

  unfoldable pub get_by_host : Text → MemoryStore → Option (MemoryStore × Option Ipv4)
  get_by_host host m =
      let (m', elm) = cache_get (host_key host) m in
      elim elm [
        | none ↦ some (m', none)
        | some v ↦ do ip ← as_ip v; some ((cache_get (ip_key (ip_to_uint ip)) m').0, some ip)
      ]

  unfoldable pub put_by_host : Text → Ipv4 → MemoryStore → MemoryStore
  put_by_host host ip m = cache_set (host_key host) (ip_value ip) m

  unfoldable pub get_by_ip : Ipv4 → MemoryStore → Option (MemoryStore × Option Text)
  get_by_ip ip m =
      let (m', elm) = cache_get (ip_key (ip_to_uint ip)) m in
      elim elm [
        | none ↦ some (m', none)
        | some v ↦ do host ← as_host v; some ((cache_get (host_key host) m').0, some host)
      ]

  unfoldable pub put_by_ip : Ipv4 → Text → MemoryStore → MemoryStore
  put_by_ip ip host m = cache_set (ip_key (ip_to_uint ip)) (host_value host) m

  unfoldable pub del_by_ip : Ipv4 → MemoryStore → Option MemoryStore
  del_by_ip ip m =
      let (m', elm) = cache_get (ip_key (ip_to_uint ip)) m in
      elim elm [
        | none ↦ some (Lru.delete dec (ip_key (ip_to_uint ip)) m')
        | some v ↦ do
          host ← as_host v
          some (Lru.delete dec (ip_key (ip_to_uint ip)) (Lru.delete dec (host_key host) m'))
      ]

  unfoldable pub memory : Store MemoryStore
  memory = record {
    get_by_host = get_by_host;
    put_by_host = put_by_host;
    get_by_ip = get_by_ip;
    put_by_ip = put_by_ip;
    del_by_ip = del_by_ip;
    exist = store_exist;
    clone_to = Lru.clone_to dec;
  }

-- `host` is the filter, a trie; its data plays no part.
pub record Pool (S : Type 0) : Type 0 where
  pub max : ℕ
  pub min : ℕ
  pub gateway : ℕ
  pub offset : ℕ
  pub host : Option (Node (Unit {0}))
  pub store : S

-- How the loop of `get` ends: at a free offset, or back at the offset where it began.
pub data Scan : Type 0 where
  free full : ℕ → Scan
  out_of_fuel div_by_zero : Scan

module _ {S : Type 0} (st : Store S) where
  unfoldable pub address : Pool S → ℕ → Ipv4
  address p offset = uint_to_ip (add32 p.min offset)

  -- The loop of `get`, with fuel, over the offset.
  unfoldable pub scan : ℕ → Pool S → ℕ → ℕ → Scan
  scan zero p current offset = out_of_fuel
  scan (suc f) p current offset =
      let range = sub32 p.max p.min in
      let next = add32 offset 1 % range in
      let rest = scan f p current next in
      if not (st.exist (address p offset) p.store)
      then free offset
      else if range == 0
      then div_by_zero
      else if next == current
      then full next
      else rest

  unfoldable pub get : Text → Pool S → Option (Pool S × Ipv4)
  get host p = elim (scan (sub32 p.max p.min + 1) p p.offset p.offset) [
    | free offset ↦
        let ip = address p offset in
        some (record p { offset = offset; store = st.put_by_ip ip host p.store }, ip)
    | full offset ↦ do
      let next = add32 offset 1 % sub32 p.max p.min
      store ← st.del_by_ip (address p next) p.store
      let ip = address p next
      some (record p { offset = next; store = st.put_by_ip ip host store }, ip)
    | out_of_fuel ↦ none
    | div_by_zero ↦ none
  ]

  unfoldable pub lookup : Text → Pool S → Option (Pool S × Ipv4)
  lookup name p = do
    let host = to_lower name
    (store, known) ← st.get_by_host host p.store
    let q = record p { store = store }
    elim known [
      | some ip ↦ some (q, ip)
      | none ↦ do
        (r, ip) ← get host q
        some (record r { store = st.put_by_host host ip r.store }, ip)
    ]

  unfoldable pub look_back : List ℕ → Pool S → Option (Pool S × Option Text)
  look_back bytes p = elim (to4 bytes) [
    | none ↦ some (p, none)
    | some ip ↦ do (store, host) ← st.get_by_ip ip p.store; some (record p { store = store }, host)
  ]

  unfoldable pub should_skipped : Text → Pool S → Bool
  should_skipped domain p = elim p.host [
    | none ↦ false
    | some trie ↦ elim (Trie.search domain trie) [ none ↦ false | some _ ↦ true ]
  ]

  unfoldable pub exist : List ℕ → Pool S → Bool
  exist bytes p = elim (to4 bytes) [ none ↦ false | some ip ↦ st.exist ip p.store ]

  unfoldable pub clone_from : Pool S → Pool S → Pool S
  clone_from p o = record p { store = st.clone_to o.store p.store }

-- `New` without persistence, for an IPv4 net with `ones` of `bits` mask bits; `none` is its error.
unfoldable pub new : Ipv4 → ℕ → ℕ → Option (Node (Unit {0})) → ℕ → Option (Pool MemoryStore)
new ip ones bits host size =
    let min = add32 (ip_to_uint ip) 2 in
    let total = 2 ^ (bits - ones) - 2 in
    if total == 0
    then none
    else some (record {
      max = sub32 (add32 min (total % u32)) 1;
      min = min;
      gateway = sub32 min 1;
      offset = 0;
      host = host;
      store = Lru.new (CacheOption.with_size (size * 2) ∷ []);
    })
