-- ===== src/Breaker/Interleaving.antt =====
-- Requests that run at the same time: each reads the state under the read lock, then runs a locked
-- section for what it read, then calls the next handler, then records the response.
use httpio.Base.{
  ℕ, zero, suc, ◌+◌, ◌<◌, ◌≡◌, refl, ap, subst, List, [], ◌∷◌, ◌++◌, Option, some, none, arith,
  append-nil,
}
use httpio.Http.{Error, Response}
use httpio.Breaker.{
  CircuitBreakerState, state_open, state_half_open, Config, CircuitBreaker, new_circuit_breaker,
  reset, start_probing, process_request_from, process_response, is_failure,
}
use httpio.Breaker.Invariant.{
  IsValid, new_circuit_breaker-IsValid, process_request_from-IsValid, record_result-IsValid,
  reset-IsValid, transition_state_fields,
}

-- How far a request has come.
pub data Phase : Type 0 where
  arrived calling answered : Phase
  seen : CircuitBreakerState → Phase
  rejected : Error → Phase

pub record System : Type 0 where
  pub breaker : CircuitBreaker
  pub requests : List Phase

abbrev pub entered : Option Error → Phase
entered none = calling
entered (some e) = rejected e

-- One atomic section of one request, or a call of `Reset`, at a time of the environment's choice.
pub data Step (s : System) : System → Type 0 where
  arrive : Step s (record s { requests = arrived ∷ s.requests })
  look :
      (before after : List Phase)
      → s.requests ≡ before ++ arrived ∷ after
      → Step s (record s { requests = before ++ seen s.breaker.state ∷ after })
  enter :
      (before after : List Phase) (state : CircuitBreakerState) (now : ℕ)
      → s.requests ≡ before ++ seen state ∷ after
      → Step s (record {
        breaker = (process_request_from state s.breaker now).1;
        requests = before ++ entered (process_request_from state s.breaker now).0 ∷ after;
      })
  leave :
      (before after : List Phase) (now : ℕ) (resp : Option Response) (err : Option Error)
      → s.requests ≡ before ++ calling ∷ after
      → Step s (record {
        breaker = process_response s.breaker now resp err;
        requests = before ++ answered ∷ after;
      })
  resets : Step s (record s { breaker = reset s.breaker })

pub data Reach (s : System) : System → Type 0 where
  here : Reach s s
  next : {t u : System} → Reach s t → Step t u → Reach s u

abbrev pub initial : Option Config → System
initial config = record { breaker = new_circuit_breaker config; requests = [] }

process_response-IsValid :
    (cb : CircuitBreaker) (now : ℕ) (resp : Option Response) (err : Option Error)
    → IsValid cb
    → IsValid (process_response cb now resp err)
unfolding process_response
process_response-IsValid cb now resp err = record_result-IsValid (is_failure cb resp err) cb now

Step-IsValid : {s t : System} → Step s t → IsValid s.breaker → IsValid t.breaker
Step-IsValid arrive v = v
Step-IsValid (look before after e) v = v
Step-IsValid {s} (enter before after state now e) v =
    process_request_from-IsValid state s.breaker now v
Step-IsValid {s} (leave before after now resp err e) v =
    process_response-IsValid s.breaker now resp err v
Step-IsValid {s} resets v = reset-IsValid s.breaker v

Reach-IsValid : {s t : System} → IsValid s.breaker → Reach s t → IsValid t.breaker
Reach-IsValid v here = v
Reach-IsValid v (next r st) = Step-IsValid st (Reach-IsValid v r)

-- Whatever the interleaving of requests, responses and resets from a new breaker: while the
-- circuit is closed fewer errors than the threshold are counted, the half-open calls stay within
-- their maximum, both limits are positive, and the notifications, if they are wanted, lead step by
-- step from closed to the present state.
pub initial-IsValid :
    (config : Option Config) (s : System) → Reach (initial config) s → IsValid s.breaker
initial-IsValid config s r = Reach-IsValid (new_circuit_breaker-IsValid config) r

abbrev pub replicate : ℕ → Phase → List Phase
replicate zero p = []
replicate (suc n) p = p ∷ replicate n p

replicate-cons :
    (n : ℕ) (p : Phase) (ps : List Phase) → replicate n p ++ p ∷ ps ≡ p ∷ (replicate n p ++ ps)
replicate-cons zero p ps = refl
replicate-cons (suc n) p ps = ap (λ l. p ∷ l) (replicate-cons n p ps)

module _ (start : System) where
  abbrev At : CircuitBreaker → List Phase → Type 0
  At cb ps = Reach start (record { breaker = cb; requests = ps })

  all_look :
      (k j : ℕ) (cb : CircuitBreaker)
      → cb.state ≡ state_open
      → At cb (replicate j (seen state_open) ++ replicate k arrived)
      → (n : ℕ) × (n ≡ j + k) × At cb (replicate n (seen state_open))
  all_look zero j cb e r = (j, omega arith, subst (At cb) (append-nil _) r)
  all_look (suc k) j cb e r =
      let rest = replicate k arrived in
      let grown : replicate j (seen state_open) ++ seen cb.state ∷ rest
          ≡ replicate (suc j) (seen state_open) ++ rest =
        rw e (replicate-cons j (seen state_open) rest) in
      let (n, total, reached) =
        all_look k (suc j) cb e
          (subst (At cb) grown (next r (look (replicate j (seen state_open)) rest refl))) in
      (n, omega arith, reached)

  -- A request that saw the open state passes a half-open circuit, and nothing counts it.
  stale_passes :
      (cb : CircuitBreaker) (now : ℕ)
      → cb.state ≡ state_half_open
      → cb.last_attempt + cb.recovery_timeout < now
      → process_request_from state_open cb now ≡ (none, cb)
  unfolding process_request_from start_probing
  stale_passes cb now e lt = ground arith

  all_enter :
      (k j now : ℕ) (cb : CircuitBreaker)
      → cb.state ≡ state_half_open
      → cb.last_attempt + cb.recovery_timeout < now
      → At cb (replicate j calling ++ replicate k (seen state_open))
      → (n : ℕ) × (n ≡ j + k) × At cb (replicate n calling)
  all_enter zero j now cb e lt r = (j, omega arith, subst (At cb) (append-nil _) r)
  all_enter (suc k) j now cb e lt r =
      let rest = replicate k (seen state_open) in
      let pass = stale_passes cb now e lt in
      let step : At cb (replicate j calling ++ calling ∷ rest) =
        rw pass at (next r (enter (replicate j calling) rest state_open now refl)) in
      let (n, total, reached) =
        all_enter k (suc j) now cb e lt (subst (At cb) (replicate-cons j calling rest) step) in
      (n, omega arith, reached)

start_probing_fields :
    (cb : CircuitBreaker)
    → cb.state ≡ state_open
    → ((start_probing cb).state ≡ state_half_open)
      × ((start_probing cb).half_open_calls ≡ 0)
      × ((start_probing cb).last_attempt ≡ cb.last_attempt)
      × ((start_probing cb).recovery_timeout ≡ cb.recovery_timeout)
unfolding start_probing
start_probing_fields cb e = ground (arith, transition_state_fields cb state_half_open)

process_request_from_open :
    (cb : CircuitBreaker) (now : ℕ)
    → cb.last_attempt + cb.recovery_timeout < now
    → process_request_from state_open cb now ≡ (none, start_probing cb)
unfolding process_request_from
process_request_from_open cb now lt = ground arith

-- The half-open maximum does not bound the requests that a half-open circuit lets through: however
-- many requests arrive at an open circuit whose recovery timeout has passed, there is an
-- interleaving in which all of them are calling the next handler, the circuit is half-open, and not
-- one is counted among the half-open calls.
pub half_open_unbounded :
    (cb : CircuitBreaker) (k now : ℕ)
    → cb.state ≡ state_open
    → cb.last_attempt + cb.recovery_timeout < now
    → (c : CircuitBreaker) × Reach
        (record { breaker = cb; requests = replicate (suc k) arrived })
        (record { breaker = c; requests = replicate (suc k) calling })
      × (c.state ≡ state_half_open)
      × (c.half_open_calls ≡ 0)
half_open_unbounded cb k now e lt =
    let s : System = record { breaker = cb; requests = replicate (suc k) arrived } in
    let (n, total, looked) = all_look s (suc k) 0 cb e here in
    let looked' =
      subst (λ m. At s cb (replicate m (seen state_open))) (let t : n ≡ suc k = omega arith in t)
        looked in
    let c = start_probing cb in
    let (state, calls, last, timeout) = start_probing_fields cb e in
    let first : At s c (calling ∷ replicate k (seen state_open)) =
      rw (process_request_from_open cb now lt) at
        (next looked' (enter [] (replicate k (seen state_open)) state_open now refl)) in
    let (m, all, entered') = all_enter s k 1 now c state (omega (arith, last, timeout)) first in
    (
      c,
      subst (λ i. At s c (replicate i calling)) (let t : m ≡ suc k = omega arith in t) entered',
      state,
      calls,
    )
