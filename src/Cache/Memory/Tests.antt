-- ===== src/Cache/Memory/Tests.antt =====
-- Runs of the in-memory cache, and its theorems at concrete inputs.
use httpio.Base.{
  ℕ, ◌≡◌, refl, ◌↔◌, false, true, ◌++◌, List, [], ◌∷◌, map, none, pos, Bytes, bytes, eq, In,
}
use httpio.Cache.{CachedResponse}
use httpio.Cache.Memory.{
  CacheEntry, MemoryCache, new_memory_cache, assign, write, member, remove, move_to_front, back,
  is_expired, unlink, bring_front, use_element, get, evict_oldest, push_front, set, delete, clear,
  cleanup_from, cleanup, size,
}
use httpio.Cache.Memory.Invariant.{IsValid}
use httpio.Cache.Memory.Runs
use httpio.Cache.Memory.Runs.{Call, gets, sets, deletes, cleans, run, step}
use httpio.Cache.Memory.Lifetime
use httpio.Cache.Memory.Lifetime.{
  Action, calls, closes, starts, ticks, fine, panics, Ends, misuse, needs_list, new_process,
}
use httpio.Cache.Memory.Lru
use httpio.Cache.Memory.Lru.{view, spec_set, spec_get}
use httpio.Cache.Memory.Cleanup
use httpio.Cache.Memory.Race
use httpio.Cache.Memory.Race.{replaced}

program : Unit {0}
unfolding new_memory_cache assign write member remove move_to_front back unlink bring_front
    use_element get evict_oldest push_front set delete clear cleanup_from cleanup size run step eq
program = tt

abbrev kept : ℕ → CachedResponse
kept until = record {
  response = record { status_code = 200; header = []; body = none };
  body = [];
  request_url = [];
  last_accessed = 0;
  created_at = 0;
  expires_at = until;
}

abbrev unused : ℕ → CacheEntry
unused i = record { key = []; response = kept 0 }

abbrev two : MemoryCache
two =
    run (new_memory_cache unused (pos 2))
      (sets (bytes "a") (kept 10) ∷ sets (bytes "b") (kept 20) ∷ [])

abbrev keys : MemoryCache → List Bytes
keys c = map (λ e. e.key) (view c)

evictions :
    (keys two ≡ bytes "b" ∷ bytes "a" ∷ [])
    × (keys (set two (bytes "c") (kept 5)) ≡ bytes "c" ∷ bytes "b" ∷ [])
    × (keys (set (get two (bytes "a") 1 2).1 (bytes "c") (kept 5)) ≡ bytes "c" ∷ bytes "a" ∷ [])
    × (keys (cleanup two 15) ≡ bytes "b" ∷ [])
    × ((get two (bytes "a") 11 12).0 ≡ none)
unfolding program
evictions = (refl, refl, refl, refl, refl)

run-IsValid_example : IsValid two
run-IsValid_example = Runs.run-IsValid unused (pos 2) _

two-IsValid : IsValid two
two-IsValid = Runs.run-IsValid unused (pos 2) _

view-set_example :
    view (set two (bytes "c") (kept 5)) ≡ spec_set two.capacity (bytes "c") (kept 5) (view two)
view-set_example = Lru.view-set two two-IsValid (bytes "c") (kept 5)

view-get_example :
    ((get two (bytes "a") 1 2).0, view (get two (bytes "a") 1 2).1)
    ≡ spec_get (bytes "a") 1 2 (view two)
view-get_example = Lru.view-get two two-IsValid (bytes "a") 1 2

In-cleanup_example :
    In 1 (cleanup two 15).lru_list ↔ (In 1 two.lru_list × (is_expired (two.entries 1) 15 ≡ false))
In-cleanup_example = Cleanup.In-cleanup two 15 1 two-IsValid

get_race_example :
    Race.IsBroken
      (bytes "a")
      2
      (use_element (replaced two (bytes "a") (kept 99)) (bytes "a") 0 11 12).1
unfolding program
get_race_example = Race.get_race two (bytes "a") 0 11 12 (kept 99) two-IsValid refl refl

run-Ends_example :
    Ends
      (Lifetime.run (new_process unused (pos 2)) (starts (pos 5) ∷ closes ∷ ticks 0 9 ∷ []))
      (misuse false 0 (starts (pos 5) ∷ closes ∷ ticks 0 9 ∷ []))
run-Ends_example = Lifetime.run-Ends unused (pos 2) _

-- A tick after `Close` panics; without it, or for a goroutine that was not started, nothing does.
abbrev life : List Action
life = starts (pos 5) ∷ calls (sets (bytes "a") (kept 10)) ∷ ticks 0 7 ∷ closes ∷ []

lives :
    (misuse false 0 (life ++ (ticks 0 9 ∷ [])) ≡ true)
    × (misuse false 0 (life ++ (ticks 1 9 ∷ [])) ≡ false)
    × (misuse false 0 (life ++ (calls (deletes (bytes "a")) ∷ [])) ≡ false)
unfolding misuse needs_list
lives = (refl, refl, refl)

-- After `Close` a direct call of `cleanup` panics, and `Get` finds nothing.
after_close :
    (Lifetime.run (new_process unused (pos 2)) (closes ∷ calls (cleans 9) ∷ []) ≡ panics)
    × (Lifetime.run (new_process unused (pos 2)) (closes ∷ calls (gets (bytes "a") 1 2) ∷ [])
        ≡ fine (Lifetime.close (new_process unused (pos 2))))
unfolding program Lifetime.run Lifetime.step Lifetime.call Lifetime.close
after_close = (refl, refl)
