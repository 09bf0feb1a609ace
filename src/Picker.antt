-- ===== src/Picker.antt =====
-- common/picker/picker.go: several calls at once, of which the first success is the result.
--
-- The calls are a list of their outcomes in the order in which they return; `Wait` has seen them all.
use mathlib.Core.List.{foldl}
use clash_flt.Prelude.{Option, none, some, List}

-- What a call gives: a value, or an error.
pub data Result (E A : Type 0) : Type 0 where
  ok : A → Result E A
  err : E → Result E A

pub record Picker (E A : Type 0) : Type 0 where
  pub result : Option A
  pub error : Option E

-- `once.Do` and `errOnce.Do`: only the first of each kind is kept.
abbrev pub once : {B : Type 0} → Option B → B → Option B
once none b = some b
once (some a) b = some a

module _ {E A : Type 0} where
  unfoldable pub new_picker : Picker E A
  new_picker = record { result = none; error = none }

  unfoldable pub returned : Picker E A → Result E A → Picker E A
  returned p (ok a) = record p { result = once p.result a }
  returned p (err e) = record p { error = once p.error e }

  unfoldable pub go_all : List (Result E A) → Picker E A
  go_all calls = foldl returned new_picker calls

  unfoldable pub wait : Picker E A → Option A
  wait p = p.result
