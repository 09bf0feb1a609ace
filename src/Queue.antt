-- ===== src/Queue.antt =====
-- common/queue/queue.go: the queue, as the list of its items. Its lock is left out.
use clash_flt.Prelude.{Option, none, some, List, [], ◌∷◌, ◌++◌, ℕ, length}

module _ {ℓ} {A : Type ℓ} where
  unfoldable pub put : List A → List A → List A
  put items q = q ++ items

  -- The head, if there is one, and the queue after the call.
  unfoldable pub pop : List A → Option A × List A
  pop [] = (none, [])
  pop (head ∷ q) = (some head, q)

  unfoldable pub last : List A → Option A
  last [] = none
  last (x ∷ []) = some x
  last (x ∷ y ∷ q) = last (y ∷ q)

  unfoldable pub queue_len : List A → ℕ
  queue_len q = length q
