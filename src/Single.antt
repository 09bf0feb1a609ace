-- ===== src/Single.antt =====
-- common/singledo/singledo.go: a computation whose result is kept for a while.
--
-- Times count from the zero time. Calls come one after the other, so none meets another in flight.
use clash_flt.Prelude.{ℕ, ◌+◌, Bool, true, false, Option, none, some, ltb, if◌then◌else◌}

pub record Single (V : Type 0) : Type 0 where
  pub last : ℕ
  pub wait : ℕ
  pub result : Option V

module _ {V S : Type 0} where
  -- `Do` at the time `now`, where `computed` is what the function returns in the state `st`: the
  -- value, whether it is a kept one, and the states after. `none` is a panic.
  unfoldable pub do_single :
      (now : ℕ) (computed : Option (V × S)) (st : S) (s : Single V)
      → Option ((V × Bool) × (S × Single V))
  do_single now computed st s =
      if ltb now (s.last + s.wait)
      then elim s.result [ none ↦ none | some v ↦ some ((v, true), (st, s)) ]
      else elim computed [
        | none ↦ none
        | some r ↦ some ((r.0, false), (r.1, record s { last = now; result = some r.0 }))
      ]

module _ {V : Type 0} where
  unfoldable pub reset : Single V → Single V
  reset s = record s { last = 0 }

  unfoldable pub new_single : ℕ → Single V
  new_single wait = record { last = 0; wait = wait; result = none }
