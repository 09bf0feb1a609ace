-- ===== src/Tests/Pooling.antt =====
-- Example for component/pool.
use clash_flt.Prelude.{ℕ, ◌≡◌, ◌≤◌, refl, true, none, some, List, [], ◌∷◌, ◌++◌, length, arith}
use clash_flt.Pool.{Pool, new, apply_options, apply_option, with_evict, with_age, with_size}
use clash_flt.Pool.Fifo.{Call, get_call, put_call, run, elements, run-gone}

abbrev small : Pool ℕ
small = record { ch = []; max_size = 2; evict = true; max_age = 5 }

small_made : new (with_evict ∷ with_age 5 ∷ with_size 2 ∷ []) ≡ small
unfolding new apply_options apply_option
small_made = refl

-- Times in nanoseconds: the first element is too old at the first call of `Get`.
abbrev calls : List (Call ℕ)
calls =
    put_call 0 1
    ∷ put_call 3000000 2
    ∷ put_call 3000000 3
    ∷ get_call 7000000 none
    ∷ get_call 7000000 (some 4)
    ∷ []

run-gone_example :
    (elements small ++ (run calls small).accepted
      ≡ (run calls small).gone ++ elements (run calls small).pool)
    × (length (run calls small).pool.ch ≤ 2)
run-gone_example = run-gone calls small refl (omega arith)
