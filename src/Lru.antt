-- ===== src/Lru.antt =====
-- common/cache/lrucache.go: the cache that the fake-IP store and the DNS client keep.
--
-- `cache` maps a key to the identity of a list element, and `lru` is the doubly linked list from
-- the front (least recent) to the back. A reading of the clock is an argument `now`, in seconds,
-- one for each call of `time.Now` on the path. The evict callback's calls are logged in `evicted`.
pub mod Spec
pub mod Elements
pub mod Refine
pub mod Operations
pub mod Run
pub mod Reads
use clash_flt.Prelude.{
  ℕ, zero, suc, ◌+◌, Bool, true, false, ◌&&◌, not, Option, none, some, List, [], ◌∷◌, ◌++◌, ltb,
  leb, ◌==◌, if◌then◌else◌, length,
}

pub record Config : Type 0 where
  pub max_age : ℕ
  pub max_size : ℕ
  pub update_age_on_get : Bool
  pub stale_return : Bool
  pub on_evict : Bool

module _ {ℓ} (K V : Type ℓ) where
  pub record Entry : Type ℓ where
    pub key : K
    pub value : V
    pub expires : ℕ

  pub record Element : Type ℓ where
    pub id : ℕ
    pub entry : Entry

  -- The fields that only the options of `New` set are in `config`.
  pub record LruCache : Type ℓ where
    pub config : Config
    pub open config use *
    pub cache : K → Option ℕ
    pub lru : List Element
    pub next_id : ℕ
    pub evicted : List (K × V)

-- The functional options of `New`.
pub data CacheOption : Type 0 where
  with_evict with_update_age_on_get : CacheOption
  with_age with_size : ℕ → CacheOption
  with_stale : Bool → CacheOption

unfoldable pub apply_option : Config → CacheOption → Config
apply_option l with_evict = record l { on_evict = true }
apply_option l with_update_age_on_get = record l { update_age_on_get = true }
apply_option l (with_age a) = record l { max_age = a }
apply_option l (with_size n) = record l { max_size = n }
apply_option l (with_stale b) = record l { stale_return = b }

unfoldable pub apply_options : Config → List CacheOption → Config
apply_options l [] = l
apply_options l (o ∷ os) = apply_options (apply_option l o) os

unfoldable pub new {ℓ} : {K V : Type ℓ} → List CacheOption → LruCache K V
new options = record {
  config =
      apply_options
        (record {
          max_age = 0;
          max_size = 0;
          update_age_on_get = false;
          stale_return = false;
          on_evict = false;
        })
        options;
  cache = λ _. none;
  lru = [];
  next_id = 0;
  evicted = [];
}

module _ {ℓ} {K V : Type ℓ} where
  -- container/list: `Remove`, `Front`, and the element that a pointer stands for.
  unfoldable pub remove_element : ℕ → List (Element K V) → List (Element K V)
  remove_element i [] = []
  remove_element i (x ∷ xs) = if i == x.id then xs else x ∷ remove_element i xs

  unfoldable pub find_element : ℕ → List (Element K V) → Option (Entry K V)
  find_element i [] = none
  find_element i (x ∷ xs) = if i == x.id then some x.entry else find_element i xs

  -- `MoveToBack(le)` with the entry's new contents written through the shared pointer.
  unfoldable pub move_to_back : LruCache K V → ℕ → Entry K V → LruCache K V
  move_to_back c i e = record c {
    lru = remove_element i c.lru ++ record { id = i; entry = e } ∷ [];
  }

  unfoldable pub is_expired : LruCache K V → ℕ → Entry K V → Bool
  is_expired c now e = (not c.stale_return && ltb 0 c.max_age) && leb e.expires now

  -- A hit that is not expired: the element moves to the back, and may have its age renewed.
  unfoldable pub touch : ℕ → ℕ → Entry K V → LruCache K V → LruCache K V × Entry K V
  touch now i e c =
      let e' =
        if ltb 0 c.max_age && c.update_age_on_get
        then record e { expires = now + c.max_age }
        else e in
      (move_to_back c i e', e')

  unfoldable pub exist : K → LruCache K V → Bool
  exist key c = elim (c.cache key) [ none ↦ false | some _ ↦ true ]

-- The size test of `SetWithExpire`: no limit is set by a size that is not positive.
unfoldable pub is_over : ℕ → ℕ → Bool
is_over size n = ltb 0 size && ltb size n

-- A write to the Go map: `none` is `delete`.
unfoldable pub update {ℓ} : {K : Type ℓ} → Discrete K → (K → Option ℕ) → K → Option ℕ → K → Option ℕ
update dec m k v j = elim (dec k j) [ yes _ ↦ v | no _ ↦ m j ]

module _ {ℓ} {K V : Type ℓ} (dec : Discrete K) where
  -- `deleteElement(le)`, for the element `i` whose entry is `e`.
  unfoldable pub delete_element : LruCache K V → ℕ → Entry K V → LruCache K V
  delete_element c i e = record c {
    lru = remove_element i c.lru;
    cache = update dec c.cache e.key none;
    evicted = if c.on_evict then c.evicted ++ (e.key, e.value) ∷ [] else c.evicted;
  }

  -- The loop of `maybeDeleteOldest`, with fuel: a round deletes the front while it is expired.
  unfoldable pub delete_expired : ℕ → ℕ → LruCache K V → LruCache K V
  delete_expired zero now c = c
  delete_expired (suc f) now c = elim c.lru [
    | [] ↦ c
    | x ∷ _ ↦
        let rest = delete_expired f now (delete_element c x.id x.entry) in
        if leb x.entry.expires now then rest else c
  ]

  unfoldable pub maybe_delete_oldest : ℕ → LruCache K V → LruCache K V
  maybe_delete_oldest now c =
      if not c.stale_return && ltb 0 c.max_age then delete_expired (length c.lru) now c else c

  -- `PushBack` of a new entry, and the map entry for it.
  unfoldable pub push_back : LruCache K V → Entry K V → LruCache K V
  push_back c e = record c {
    lru = c.lru ++ record { id = c.next_id; entry = e } ∷ [];
    cache = update dec c.cache e.key (some c.next_id);
    next_id = c.next_id + 1;
  }

  -- After an insertion: delete the front if the list is longer than a positive `maxSize`.
  unfoldable pub delete_front : LruCache K V → LruCache K V
  delete_front c = elim c.lru [ [] ↦ c | x ∷ _ ↦ delete_element c x.id x.entry ]

  unfoldable pub drop_excess : LruCache K V → LruCache K V
  drop_excess c = if is_over c.max_size (length c.lru) then delete_front c else c

  unfoldable pub set_with_expire : ℕ → K → V → ℕ → LruCache K V → LruCache K V
  set_with_expire now key value expires c = maybe_delete_oldest now (elim (c.cache key) [
    | some i ↦ elim (find_element i c.lru) [
      | none ↦ c
      | some e ↦ move_to_back c i (record e { value = value; expires = expires })
    ]
    | none ↦ drop_excess (push_back c (record { key = key; value = value; expires = expires }))
  ])

  unfoldable pub set : ℕ → ℕ → K → V → LruCache K V → LruCache K V
  set now now' key value c =
      set_with_expire now' key value (if ltb 0 c.max_age then now + c.max_age else 0) c

  -- The hit branch of `get`: an expired entry is deleted, any other is touched.
  unfoldable pub on_hit : ℕ → ℕ → ℕ → Entry K V → LruCache K V → LruCache K V × Option (Entry K V)
  on_hit now now' i e c =
      if is_expired c now e
      then (maybe_delete_oldest now' (delete_element c i e), none)
      else let (c', e') = touch now' i e c in (c', some e')

  unfoldable pub get_entry : ℕ → ℕ → K → LruCache K V → LruCache K V × Option (Entry K V)
  get_entry now now' key c = elim (c.cache key) [
    | none ↦ (c, none)
    | some i ↦ elim (find_element i c.lru) [ none ↦ (c, none) | some e ↦ on_hit now now' i e c ]
  ]

  -- `Get`: the value alone. `GetWithExpire`: the value and its expiry.
  unfoldable pub get : ℕ → ℕ → K → LruCache K V → LruCache K V × Option V
  get now now' key c =
      let (c', e) = get_entry now now' key c in (c', elim e [ none ↦ none | some x ↦ some x.value ])

  unfoldable pub get_with_expire : ℕ → ℕ → K → LruCache K V → LruCache K V × Option (V × ℕ)
  get_with_expire now now' key c =
      let (c', e) = get_entry now now' key c in
      (c', elim e [ none ↦ none | some x ↦ some (x.value, x.expires) ])

  unfoldable pub delete : K → LruCache K V → LruCache K V
  delete key c = elim (c.cache key) [
    | none ↦ c
    | some i ↦ elim (find_element i c.lru) [ none ↦ c | some e ↦ delete_element c i e ]
  ]

  -- The loop of `CloneTo`: each entry is pushed on the other cache's new list.
  unfoldable pub push_all : List (Element K V) → LruCache K V → LruCache K V
  push_all [] n = n
  push_all (x ∷ xs) n = push_all xs (push_back n x.entry)

  unfoldable pub clone_to : LruCache K V → LruCache K V → LruCache K V
  clone_to c n = push_all c.lru (record n { lru = []; cache = λ _. none })
