-- ===== src/Cache/Memory/Lifetime.antt =====
-- middleware/cache/memory_cache.go: the life of the in-memory cache, with `Close` and the goroutines of
-- `StartCleanupTask`, and when a call panics. Each call holds its lock from its beginning to its end.
use httpio.Base.{
  is_some, none, Bytes, ap, sym, subst, ◌⊎◌, inl, inr, ℕ, suc, ◌*◌, ◌≡◌, refl, Bool, true, false, ℤ,
  positive_or, List, [], ◌∷◌, ltb, length, if◌then◌else◌, if_either,
}
use httpio.Cache.Memory.{CacheEntry, MemoryCache, new_memory_cache, get, delete}
use httpio.Cache.Memory.Invariant.{IsValid}
use httpio.Cache.Memory.Operations.{new_memory_cache-IsValid}
use httpio.Cache.Memory.Runs
use httpio.Cache.Memory.Runs.{Call, gets, sets, deletes, clears, cleans, step-IsValid}

-- The cache, with `c.data` and `c.lruList` either made or nil, and the tickers of its cleanup
-- goroutines by their intervals, the latest first; no goroutine ever ends. A nil map reads as an empty
-- one, so `cache` then has no key.
pub record Process : Type 0 where
  pub cache : MemoryCache
  pub has_map : Bool
  pub has_list : Bool
  pub tickers : List ℕ

pub data Action : Type 0 where
  calls : Call → Action
  sizes : Action
  closes : Action
  starts : ℤ → Action
  ticks : ℕ → ℕ → Action

-- A call goes well or panics.
pub data Outcome : Type 0 where
  fine : Process → Outcome
  panics : Outcome

-- `NewMemoryCache(capacity)`
unfoldable pub new_process : (ℕ → CacheEntry) → ℤ → Process
new_process unused capacity = record {
  cache = new_memory_cache unused capacity;
  has_map = true;
  has_list = true;
  tickers = [];
}

-- What calls a method of the list panics if the list is nil.
abbrev pub on_list : Process → Outcome → Outcome
on_list p o = if p.has_list then o else panics

-- What assigns to the map panics if the map is nil.
abbrev pub on_map : Process → Outcome → Outcome
on_map p o = if p.has_map then o else panics

abbrev after : Process → Call → Process
after p x = record p { cache = Runs.step p.cache x }

-- `Get`, `Set`, `Delete`, `Clear` and `cleanup`. `Get` and `Delete` use the list for a key that they
-- find; `Set` uses it at once, and assigns to the map for a new key; `Clear` makes a new map before it
-- uses the list; `cleanup` begins with the list.
unfoldable pub call : Call → Process → Outcome
unfolding Runs.step
call (gets k now later) p =
    let o = fine (after p (gets k now later)) in
    if is_some (p.cache.data_ k) then on_list p o else o
call (sets k r) p =
    let o = fine (after p (sets k r)) in
    on_list p (if is_some (p.cache.data_ k) then o else on_map p o)
call (deletes k) p =
    let o = fine (after p (deletes k)) in if is_some (p.cache.data_ k) then on_list p o else o
call clears p = on_list p (fine (record p { cache = Runs.step p.cache clears; has_map = true }))
call (cleans now) p = on_list p (fine (after p (cleans now)))

-- `Size()`
unfoldable pub size : Process → Outcome
size p = on_list p (fine p)

-- `Close()`
unfoldable pub close : Process → Process
close p = record p {
  cache = record p.cache { data_ = λ k. none; lru_list = [] };
  has_map = false;
  has_list = false;
}

-- `StartCleanupTask(interval)`
unfoldable pub start_cleanup_task : ℤ → Process → Process
start_cleanup_task interval p = record p {
  tickers = positive_or interval (10 * 60 * 1000000000) ∷ p.tickers;
}

-- An event of the process; a tick comes only from a ticker that was started.
unfoldable pub step : Process → Action → Outcome
unfolding call size close start_cleanup_task
step p (calls x) = call x p
step p sizes = size p
step p closes = fine (close p)
step p (starts interval) = fine (start_cleanup_task interval p)
step p (ticks i now) = if ltb i (length p.tickers) then call (cleans now) p else fine p

unfoldable pub run : Process → List Action → Outcome
unfolding step
run p [] = fine p
run p (x ∷ xs) =
    let rest = λ (q : Process). run q xs in elim (step p x) [ fine q ↦ rest q | panics ↦ panics ]

-- Which calls use the list of a cache without a key.
unfoldable pub needs_list : Call → Bool
needs_list (gets k now later) = false
needs_list (sets k r) = true
needs_list (deletes k) = false
needs_list clears = true
needs_list (cleans now) = true

-- Whether a sequence uses the list after `Close`: by `Set`, `Clear`, `cleanup`, `Size`, or a tick of a
-- cleanup goroutine. The arguments before the sequence say whether the cache is closed and how many cleanup
-- goroutines there are.
unfoldable pub misuse : Bool → ℕ → List Action → Bool
unfolding needs_list
misuse is_closed tasks [] = false
misuse is_closed tasks (calls x ∷ xs) =
    let rest = misuse is_closed tasks xs in
    if is_closed then (if needs_list x then true else rest) else rest
misuse is_closed tasks (sizes ∷ xs) =
    let rest = misuse is_closed tasks xs in if is_closed then true else rest
misuse is_closed tasks (closes ∷ xs) = misuse true tasks xs
misuse is_closed tasks (starts interval ∷ xs) = misuse is_closed (suc tasks) xs
misuse is_closed tasks (ticks i now ∷ xs) =
    let rest = misuse is_closed tasks xs in
    if is_closed then (if ltb i tasks then true else rest) else rest

-- A run panics exactly when it is misused; else what it leaves has the invariant of
-- `Cache.Memory.Invariant`, unless its list is nil.
unfoldable pub Ends : Outcome → Bool → Type 0
Ends (fine p) misused = (misused ≡ false) × ((p.has_list ≡ false) ⊎ IsValid p.cache)
Ends panics misused = misused ≡ true

resume : Outcome → List Action → Outcome
resume x xs = elim x [ fine q ↦ run q xs | panics ↦ panics ]

-- A cache that is in use.
abbrev opened : MemoryCache → List ℕ → Process
opened c tickers = record { cache = c; has_map = true; has_list = true; tickers = tickers }

-- A cache after `Close`.
abbrev closed : MemoryCache → List ℕ → Process
closed c tickers = record { cache = c; has_map = false; has_list = false; tickers = tickers }

get-missing :
    (c : MemoryCache) (k : Bytes) (now later : ℕ)
    → c.data_ k ≡ none
    → Runs.step c (gets k now later) ≡ c
unfolding Runs.step get
get-missing c k now later h = rw (Runs.step, h, get) refl

delete-missing : (c : MemoryCache) (k : Bytes) → c.data_ k ≡ none → Runs.step c (deletes k) ≡ c
unfolding Runs.step delete
delete-missing c k h = rw (Runs.step, h, delete) refl

-- A call of a closed cache finds no key.
call-closed :
    (c : MemoryCache) (tickers : List ℕ) (x : Call)
    → ((k : Bytes) → c.data_ k ≡ none)
    → call x (closed c tickers) ≡ (if needs_list x then panics else fine (closed c tickers))
unfolding call needs_list
call-closed c tickers (gets k now later) empty =
    rw (empty k, call) (ap (λ d. fine (closed d tickers)) (get-missing c k now later (empty k)))
call-closed c tickers (sets k r) empty = refl
call-closed c tickers (deletes k) empty =
    rw (empty k, call) (ap (λ d. fine (closed d tickers)) (delete-missing c k (empty k)))
call-closed c tickers clears empty = refl
call-closed c tickers (cleans now) empty = refl

resume-Ends :
    (p : Process) (uses misused : Bool) (xs : List Action)
    → Ends (run p xs) misused
    → Ends (resume (if uses then panics else fine p) xs) (if uses then true else misused)
unfolding Ends resume
resume-Ends p true misused xs ends = refl
resume-Ends p false misused xs ends = ends

run-closed-Ends :
    (c : MemoryCache) (tickers : List ℕ) (xs : List Action)
    → ((k : Bytes) → c.data_ k ≡ none)
    → Ends (run (closed c tickers) xs) (misuse true (length tickers) xs)
unfolding run Ends misuse step call size close start_cleanup_task needs_list resume
run-closed-Ends c tickers [] empty = (refl, inl refl)
run-closed-Ends c tickers (calls x ∷ xs) empty =
    subst (λ o. Ends (resume o xs) (misuse true (length tickers) (calls x ∷ xs)))
      (sym (call-closed c tickers x empty))
      (resume-Ends (closed c tickers) (needs_list x) _ xs (run-closed-Ends c tickers xs empty))
run-closed-Ends c tickers (sizes ∷ xs) empty = refl
run-closed-Ends c tickers (closes ∷ xs) empty =
    run-closed-Ends (record c { data_ = λ k. none; lru_list = [] }) tickers xs (λ k. refl)
run-closed-Ends c tickers (starts interval ∷ xs) empty =
    run-closed-Ends c (positive_or interval (10 * 60 * 1000000000) ∷ tickers) xs empty
run-closed-Ends c tickers (ticks i now ∷ xs) empty =
    resume-Ends (closed c tickers) (ltb i (length tickers)) _ xs
      (run-closed-Ends c tickers xs empty)

-- A call of a cache in use goes well.
call-opened :
    (c : MemoryCache) (tickers : List ℕ) (x : Call)
    → call x (opened c tickers) ≡ fine (opened (Runs.step c x) tickers)
unfolding call
call-opened c tickers (gets k now later) =
    let o = fine (opened (Runs.step c (gets k now later)) tickers) in
    if_either (λ r. r ≡ o) (is_some (c.data_ k)) o o refl refl
call-opened c tickers (sets k r) =
    let o = fine (opened (Runs.step c (sets k r)) tickers) in
    if_either (λ r. r ≡ o) (is_some (c.data_ k)) o o refl refl
call-opened c tickers (deletes k) =
    let o = fine (opened (Runs.step c (deletes k)) tickers) in
    if_either (λ r. r ≡ o) (is_some (c.data_ k)) o o refl refl
call-opened c tickers clears = refl
call-opened c tickers (cleans now) = refl

run-opened-Ends :
    (c : MemoryCache) (tickers : List ℕ) (xs : List Action)
    → IsValid c
    → Ends (run (opened c tickers) xs) (misuse false (length tickers) xs)
unfolding run Ends misuse step size close start_cleanup_task resume
run-opened-Ends c tickers [] valid = (refl, inr valid)
run-opened-Ends c tickers (calls x ∷ xs) valid =
    subst (λ o. Ends (resume o xs) (misuse false (length tickers) xs))
      (sym (call-opened c tickers x))
      (run-opened-Ends (Runs.step c x) tickers xs (step-IsValid c x valid))
run-opened-Ends c tickers (sizes ∷ xs) valid = run-opened-Ends c tickers xs valid
run-opened-Ends c tickers (closes ∷ xs) valid =
    run-closed-Ends (record c { data_ = λ k. none; lru_list = [] }) tickers xs (λ k. refl)
run-opened-Ends c tickers (starts interval ∷ xs) valid =
    run-opened-Ends c (positive_or interval (10 * 60 * 1000000000) ∷ tickers) xs valid
run-opened-Ends c tickers (ticks i now ∷ xs) valid =
    if_either (λ o. Ends (resume o xs) (misuse false (length tickers) xs)) (ltb i (length tickers))
      (call (cleans now) (opened c tickers)) (fine (opened c tickers))
      (subst (λ o. Ends (resume o xs) (misuse false (length tickers) xs))
        (sym (call-opened c tickers (cleans now)))
        (run-opened-Ends (Runs.step c (cleans now)) tickers xs (step-IsValid c (cleans now) valid)))
      (run-opened-Ends c tickers xs valid)

-- An in-memory cache panics in a sequence of calls, of `Close`, of `StartCleanupTask` and of its
-- goroutines' ticks exactly when the sequence has a `Set`, a `Clear`, a `Size`, a call of `cleanup` or
-- the tick of a started goroutine after a `Close`; else its map and its list still agree, unless its
-- list is nil.
pub run-Ends :
    (unused : ℕ → CacheEntry) (capacity : ℤ) (xs : List Action)
    → Ends (run (new_process unused capacity) xs) (misuse false 0 xs)
unfolding new_process
run-Ends unused capacity xs = run-opened-Ends _ [] xs (new_memory_cache-IsValid unused capacity)
