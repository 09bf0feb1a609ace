-- ===== src/Tests/Caches.antt =====
-- Examples for common/cache/lrucache.go.
use native.Mathlib.Decide.{ℕ_discrete}
use clash_flt.Prelude.{ℕ, ◌≡◌, List, [], ◌∷◌}
use clash_flt.Lru
use clash_flt.Lru.{
  LruCache, CacheOption, with_size, apply_option, apply_options, get, set_with_expire, clone_to,
}
use clash_flt.Lru.Refine.{IsValid, Shows}
use clash_flt.Lru.Operations.{new-Shows, set_with_expire-Shows}
use clash_flt.Lru.Run.{
  Call, get_call, set_with_expire_call, delete_call, run, run_entries, run-Shows,
}

abbrev sizes : List CacheOption
sizes = with_size 2 ∷ []

abbrev empty_cache : LruCache ℕ ℕ
empty_cache = Lru.new {K = ℕ} {V = ℕ} sizes

empty_cache-Shows : Shows ℕ_discrete empty_cache.config empty_cache []
empty_cache-Shows = new-Shows ℕ_discrete sizes

empty_cache-IsValid : IsValid ℕ_discrete empty_cache
empty_cache-IsValid = empty_cache-Shows.valid

abbrev one_entry : LruCache ℕ ℕ
one_entry = set_with_expire ℕ_discrete 0 7 70 5 empty_cache

one_entry-IsValid : IsValid ℕ_discrete one_entry
one_entry-IsValid =
    (set_with_expire-Shows ℕ_discrete empty_cache 0 7 70 5 empty_cache-IsValid).valid

abbrev calls : List (Call ℕ ℕ)
calls =
    set_with_expire_call 0 1 10 0
    ∷ set_with_expire_call 0 2 20 0
    ∷ get_call 0 0 1
    ∷ set_with_expire_call 0 3 30 0
    ∷ delete_call 2
    ∷ get_call 0 0 1
    ∷ []

run-Shows_example :
    Shows ℕ_discrete empty_cache.config
      (run ℕ_discrete calls empty_cache).0
      (run_entries ℕ_discrete empty_cache.config calls []).0
    × ((run ℕ_discrete calls empty_cache).1
        ≡ (run_entries ℕ_discrete empty_cache.config calls []).1)
run-Shows_example = run-Shows ℕ_discrete calls empty_cache empty_cache-Shows
