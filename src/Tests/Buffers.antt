-- ===== src/Tests/Buffers.antt =====
-- Examples for the allocator of buffers.
use clash_flt.Prelude.{◌≡◌, ◌≤◌, ◌<◌, ◌*◌, false, some, arith}
use clash_flt.Alloc.{Buffer, Allocator, new_allocator, get, put}
use clash_flt.Alloc.Sizes.{IsValid, put-get}

new_allocator-IsValid : IsValid new_allocator
unfolding new_allocator
new_allocator-IsValid k = tt

-- 1,500 bytes come from the class of 2 KiB.
put-get_example :
    (a' a'' : Allocator) × (b : Buffer) × (get 0 1500 new_allocator ≡ some (a', b))
    × (b.len ≡ 1500)
    × (1500 ≤ b.cap)
    × (b.cap < 2 * 1500)
    × IsValid a'
    × (put b a' ≡ some (a'', false))
    × IsValid a''
put-get_example = put-get 0 1500 new_allocator new_allocator-IsValid (omega arith) (omega arith)
