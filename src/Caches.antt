-- ===== src/Caches.antt =====
-- The caches of dataset_toolkit/cache.py and dataset_toolkit/local_disk_cache.py. The disk cache that
-- the latter adapts is a parameter, the interface `Store`.
pub mod Answers
mod Tests
use code_assist_analyzer.Prelude.{
  ℕ, zero, suc, ◌*◌, ◌/◌, Bool, true, false, Option, none, some, String, ltb, if◌then◌else◌, Result,
  ok, raise, value_error, ◌>>=◌, ◌≡◌,
}

pub record Store (Value State : Type 0) : Type 0 where
  pub get : String → State → Option Value
  pub set : String → Value → State → State

-- The two implementations of CacheBase: the null cache, and a local disk cache in a state.
pub data Cache (State : Type 0) : Type 0 where
  null_cache : Cache State
  local_disk_cache : State → Cache State

-- the check of the constructor, with the division of integers; shards is at least 1
pub check_limits : ℕ → ℕ → ℕ → Result (Unit {0})
check_limits size_limit_bytes expected_row_size_bytes shards =
    if ltb (size_limit_bytes / shards) (5 * expected_row_size_bytes)
    then raise value_error
    else ok tt

module _ {Value State : Type 0} (store : Store Value State) where
  -- `get(key, fill_cache_func)`: the value, and the cache after. The fill function may raise.
  unfoldable pub get : String → Result Value → Cache State → Result Value × Cache State
  get key fill null_cache = (fill, null_cache)
  get key fill (local_disk_cache state) = elim (store.get key state) [
    | some value ↦ (ok value, local_disk_cache state)
    | none ↦ elim fill [
      | raise error ↦ (raise error, local_disk_cache state)
      | ok value ↦ (ok value, local_disk_cache (store.set key value state))
    ]
  ]
