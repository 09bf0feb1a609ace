-- ===== src/Pool.antt =====
-- component/pool/pool.go: a pool of reusable elements, such as connections, with an age.
--
-- The channel is the list of its entries, the oldest first. A call returns the elements that it gave
-- to the evict callback, in order. Times are readings of a clock that never runs backwards, in
-- nanoseconds, and an age is not negative.
pub mod Fifo
use clash_flt.Prelude.{
  ℕ, ◌-◌, ◌/◌, Bool, true, false, ◌&&◌, not, Option, none, some, List, [], ◌∷◌, ◌++◌, length, ltb,
  ◌==◌, if◌then◌else◌,
}

pub record Entry (A : Type 0) : Type 0 where
  pub elm : A
  pub time : ℕ

-- `evict` says whether there is a callback.
pub record Pool (A : Type 0) : Type 0 where
  pub ch : List (Entry A)
  pub max_size : ℕ
  pub evict : Bool
  pub max_age : ℕ

-- A result of `GetContext`: an element of the channel, or what the factory gave, `none` its error.
pub data Got (A : Type 0) : Type 0 where
  pooled : A → Got A
  made : Option A → Got A

pub data PoolOption : Type 0 where
  with_evict : PoolOption
  with_age with_size : ℕ → PoolOption

module _ {A : Type 0} where
  unfoldable pub answer : Got A → Option A
  answer (pooled a) = some a
  answer (made o) = o

  unfoldable pub is_expired : ℕ → ℕ → Entry A → Bool
  is_expired now max_age e = not (max_age == 0) && ltb max_age ((now - e.time) / 1000000)

  unfoldable pub call_evict : Bool → A → List A
  call_evict evict a = if evict then a ∷ [] else []

  -- The loop of `GetContext`: the channel after it, what was evicted, and the result.
  unfoldable pub receive :
      ℕ → ℕ → Bool → Option A → List (Entry A) → List (Entry A) × List A × Got A
  receive now max_age evict fresh [] = ([], [], made fresh)
  receive now max_age evict fresh (e ∷ ch) =
      let rest = receive now max_age evict fresh ch in
      if is_expired now max_age e
      then (rest.0, call_evict evict e.elm ++ rest.1, rest.2)
      else (ch, [], pooled e.elm)

  unfoldable pub get_context : ℕ → Option A → Pool A → Pool A × List A × Got A
  get_context now fresh p =
      let (ch, evicted, got) = receive now p.max_age p.evict fresh p.ch in
      (record p { ch = ch }, evicted, got)

  unfoldable pub put : ℕ → A → Pool A → Pool A × List A
  put now item p =
      if ltb (length p.ch) p.max_size
      then (record p { ch = p.ch ++ record { elm = item; time = now } ∷ [] }, [])
      else (p, call_evict p.evict item)

  unfoldable pub apply_option : Pool A → PoolOption → Pool A
  apply_option p with_evict = record p { evict = true }
  apply_option p (with_age n) = record p { max_age = n }
  apply_option p (with_size n) = record p { ch = []; max_size = n }

  unfoldable pub apply_options : Pool A → List PoolOption → Pool A
  apply_options p [] = p
  apply_options p (o ∷ os) = apply_options (apply_option p o) os

  unfoldable pub new : List PoolOption → Pool A
  new = apply_options (record { ch = []; max_size = 10; evict = false; max_age = 0 })
