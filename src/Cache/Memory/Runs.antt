-- ===== src/Cache/Memory/Runs.antt =====
-- Sequences of whole operations on the in-memory cache.
use httpio.Base.{ℕ, List, [], ◌∷◌, ℤ, Bytes}
use httpio.Cache.{CachedResponse}
use httpio.Cache.Memory.{
  CacheEntry, MemoryCache, new_memory_cache, get, set, delete, clear, cleanup,
}
use httpio.Cache.Memory.Invariant.{IsValid}
use httpio.Cache.Memory.Operations.{
  new_memory_cache-IsValid, get-IsValid, set-IsValid, delete-IsValid, clear-IsValid,
}
use httpio.Cache.Memory.Cleanup.{cleanup-IsValid}

pub data Call : Type 0 where
  gets : Bytes → ℕ → ℕ → Call
  sets : Bytes → CachedResponse → Call
  deletes : Bytes → Call
  clears : Call
  cleans : ℕ → Call

unfoldable pub step : MemoryCache → Call → MemoryCache
step c (gets k now later) = (get c k now later).1
step c (sets k r) = set c k r
step c (deletes k) = delete c k
step c clears = clear c
step c (cleans now) = cleanup c now

unfoldable pub run : MemoryCache → List Call → MemoryCache
run c [] = c
run c (x ∷ xs) = run (step c x) xs

pub step-IsValid : (c : MemoryCache) (x : Call) → IsValid c → IsValid (step c x)
unfolding step
step-IsValid c (gets k now later) v = get-IsValid c k now later v
step-IsValid c (sets k r) v = set-IsValid c k r v
step-IsValid c (deletes k) v = delete-IsValid c k v
step-IsValid c clears v = clear-IsValid c v
step-IsValid c (cleans now) v = cleanup-IsValid c now v

run_from-IsValid : (c : MemoryCache) (xs : List Call) → IsValid c → IsValid (run c xs)
unfolding run
run_from-IsValid c [] v = v
run_from-IsValid c (x ∷ xs) v = run_from-IsValid (step c x) xs (step-IsValid c x v)

-- After any sequence of whole operations on a new cache the map names exactly the elements of the
-- recency list, each under the key of its entry; no element is listed twice, and there are no more
-- than the capacity.
pub run-IsValid :
    (unused : ℕ → CacheEntry) (capacity : ℤ) (xs : List Call)
    → IsValid (run (new_memory_cache unused capacity) xs)
run-IsValid unused capacity xs = run_from-IsValid _ xs (new_memory_cache-IsValid unused capacity)
