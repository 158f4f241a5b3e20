-- ===== src/Breaker/Trip.antt =====
-- When the failures of closed-state requests open the circuit.
use httpio.Base.{
  ℕ, zero, suc, ◌+◌, ◌≤◌, ◌<◌, ◌≡◌, refl, sym, ap, ◌∙◌, ◌⊎◌, inl, inr, ◌↔◌, Bool, true, false, List,
  [], ◌∷◌, ◌++◌, map, Option, arith, append_assoc, subst,
}
use httpio.Http.{Error, Response}
use httpio.Breaker.{
  CircuitBreakerState, state_closed, state_open, state_half_open, CircuitBreaker, transition_state,
  by_state, record_result, process_response, is_failure, notify,
}
use httpio.Breaker.Invariant.{IsValid, transition_state_fields}

-- A response, an error and the time at which they came.
abbrev pub Reply : Type 0
Reply = Option Response × Option Error × ℕ

-- `processResponse` of one request after the other.
unfoldable pub respond : CircuitBreaker → List Reply → CircuitBreaker
respond cb [] = cb
respond cb ((resp, err, now) ∷ rs) = respond (process_response cb now resp err) rs

abbrev pub verdicts : CircuitBreaker → List Reply → List Bool
verdicts cb = map (λ r. is_failure cb r.0 r.1)

abbrev replicate : ℕ → List Bool
replicate zero = []
replicate (suc n) = true ∷ replicate n

-- Somewhere `n` failures stand in a row.
abbrev pub HasRun : ℕ → List Bool → Type 0
HasRun n vs = (xs : List Bool) × (ys : List Bool) × (vs ≡ xs ++ (replicate n ++ ys))

HasRun-append : (n : ℕ) (zs vs : List Bool) → HasRun n vs → HasRun n (zs ++ vs)
HasRun-append n zs vs (xs, ys, e) =
    (zs ++ xs, ys, ap (λ l. zs ++ l) e ∙ sym (append_assoc zs xs (replicate n ++ ys)))

replicate-cons : (n : ℕ) (vs : List Bool) → replicate n ++ (true ∷ vs) ≡ replicate (suc n) ++ vs
replicate-cons zero vs = refl
replicate-cons (suc n) vs = ap (λ l. true ∷ l) (replicate-cons n vs)

pub transition_state-predicate :
    (cb : CircuitBreaker) (s : CircuitBreakerState)
    → (transition_state cb s).error_predicate ≡ cb.error_predicate
unfolding transition_state notify
transition_state-predicate cb s = ground arith

-- A response keeps what `failed` is judged by, and an open circuit open.
record_result-open :
    (failed : Bool) (cb : CircuitBreaker) (now : ℕ)
    → cb.state ≡ state_open
    → (record_result failed cb now).state ≡ state_open
unfolding record_result
record_result-open failed cb now e = rw (e, record_result) refl

by_state-predicate :
    (s : CircuitBreakerState) (failed : Bool) (cb : CircuitBreaker)
    → (by_state s failed cb).error_predicate ≡ cb.error_predicate
by_state-predicate state_closed true cb = ground (
  arith,
  transition_state-predicate (record cb { consecutive_errors = cb.consecutive_errors + 1 })
      state_open,
)
by_state-predicate state_closed false cb = refl
by_state-predicate state_open failed cb = refl
by_state-predicate state_half_open true cb = transition_state-predicate cb state_open
by_state-predicate state_half_open false cb =
    ground (arith, transition_state-predicate (record cb { consecutive_errors = 0 }) state_closed)

pub record_result-predicate :
    (failed : Bool) (cb : CircuitBreaker) (now : ℕ)
    → (record_result failed cb now).error_predicate ≡ cb.error_predicate
unfolding record_result
record_result-predicate failed cb now =
    by_state-predicate cb.state failed (record cb { last_attempt = now })

verdicts-process_response :
    (cb : CircuitBreaker) (now : ℕ) (resp : Option Response) (err : Option Error) (rs : List Reply)
    → verdicts (process_response cb now resp err) rs ≡ verdicts cb rs
unfolding process_response record_result is_failure
verdicts-process_response cb now resp err rs =
    rw (by_state-predicate cb.state (is_failure cb resp err) (record cb { last_attempt = now }))

-- One response in the closed state: the circuit opens, or counts on.
abbrev After : CircuitBreaker → ℕ → CircuitBreaker → Type 0
After cb n c =
    (c.failure_threshold ≡ cb.failure_threshold)
    × (((cb.failure_threshold ≤ n) × (c.state ≡ state_open))
        ⊎ ((n < cb.failure_threshold) × (c.state ≡ state_closed) × (c.consecutive_errors ≡ n)))

counted : Bool → ℕ → ℕ
counted true n = n + 1
counted false n = 0

record_result-After :
    (failed : Bool) (cb : CircuitBreaker) (now : ℕ)
    → cb.state ≡ state_closed
    → 0 < cb.failure_threshold
    → After cb (counted failed cb.consecutive_errors) (record_result failed cb now)
unfolding record_result counted
record_result-After true cb now e h =
    let c : CircuitBreaker = record cb {
      last_attempt = now;
      consecutive_errors = cb.consecutive_errors + 1;
    } in
    ground (arith, transition_state_fields c state_open)
record_result-After false cb now e h = ground arith

respond-open :
    (cb : CircuitBreaker) (rs : List Reply)
    → cb.state ≡ state_open
    → (respond cb rs).state ≡ state_open
unfolding respond process_response
respond-open cb [] e = e
respond-open cb ((resp, err, now) ∷ rs) e =
    respond-open (process_response cb now resp err) rs
      (record_result-open (is_failure cb resp err) cb now e)

-- One verdict more in front of a run that `e` failures have begun.
HasRun-step :
    (n e : ℕ) (failed : Bool) (vs : List Bool)
    → e < n
    → (n ≤ counted failed e) ⊎ HasRun n (replicate (counted failed e) ++ vs)
    → HasRun n (replicate e ++ (failed ∷ vs))
unfolding counted
HasRun-step n e true vs lt (inl h) =
    let same : n ≡ suc e = omega arith in rw same ([], vs, replicate-cons e vs)
HasRun-step n e true vs lt (inr h) =
    rw (replicate-cons e vs)
      (subst (λ k. HasRun n (replicate k ++ vs)) (let same : e + 1 ≡ suc e = omega arith in same) h)
HasRun-step n e false vs lt (inl h) = absurd (omega arith)
HasRun-step n e false vs lt (inr h) =
    rw (← append_assoc (replicate e) (false ∷ []) vs)
      (HasRun-append n (replicate e ++ false ∷ []) vs h)

HasRun-eq : {n m : ℕ} {us vs : List Bool} → n ≡ m → us ≡ vs → HasRun n us → HasRun m vs
HasRun-eq {m} {us} p q h = subst (HasRun m) q (subst (λ k. HasRun k us) p h)

process_response-After :
    (cb : CircuitBreaker) (now : ℕ) (resp : Option Response) (err : Option Error)
    → cb.state ≡ state_closed
    → 0 < cb.failure_threshold
    → After cb
        (counted (is_failure cb resp err) cb.consecutive_errors)
        (process_response cb now resp err)
unfolding process_response
process_response-After cb now resp err = record_result-After (is_failure cb resp err) cb now

-- A run that the errors so far have begun is found, if the circuit opens.
run_of_open :
    (cb : CircuitBreaker) (rs : List Reply)
    → cb.state ≡ state_closed
    → cb.consecutive_errors < cb.failure_threshold
    → (respond cb rs).state ≡ state_open
    → HasRun cb.failure_threshold (replicate cb.consecutive_errors ++ verdicts cb rs)
unfolding respond
run_of_open cb [] e lt o = cc
run_of_open cb ((resp, err, now) ∷ rs) e lt o =
    HasRun-step cb.failure_threshold cb.consecutive_errors (is_failure cb resp err) (verdicts cb rs)
      lt
      (elim (process_response-After cb now resp err e (omega arith)).1 [
        | inl (h, _) ↦ inl h
        | inr (h, closed, errs) ↦ inr (
            HasRun-eq (process_response-After cb now resp err e (omega arith)).0
              (cc (errs, verdicts-process_response cb now resp err rs))
              (run_of_open (process_response cb now resp err) rs closed
                (omega (arith, process_response-After cb now resp err e)) o))
      ])

counted_failure : (failed : Bool) (n : ℕ) → failed ≡ true → counted failed n ≡ n + 1
unfolding counted
counted_failure failed n h = rw h

-- `k` failures in a row are enough, if they reach the threshold.
open_of_failures :
    (k : ℕ) (ys : List Bool) (cb : CircuitBreaker) (rs : List Reply)
    → cb.state ≡ state_closed
    → cb.consecutive_errors < cb.failure_threshold
    → cb.failure_threshold ≤ cb.consecutive_errors + k
    → verdicts cb rs ≡ replicate k ++ ys
    → (respond cb rs).state ≡ state_open
unfolding respond
open_of_failures zero ys cb rs e lt le q = absurd (omega arith)
open_of_failures (suc k) ys cb [] e lt le q = cc
open_of_failures (suc k) ys cb ((resp, err, now) ∷ rs) e lt le q =
    let failed : is_failure cb resp err ≡ true = cc in
    let rest : verdicts cb rs ≡ replicate k ++ ys = cc in
    let c : CircuitBreaker = process_response cb now resp err in
    let count : counted (is_failure cb resp err) cb.consecutive_errors ≡ cb.consecutive_errors + 1 =
      counted_failure (is_failure cb resp err) cb.consecutive_errors failed in
    elim (process_response-After cb now resp err e (omega arith)).1 [
      | inl (_, opened) ↦ respond-open c rs opened
      | inr (h, closed, errs) ↦
          open_of_failures k ys c rs closed
            (omega (arith, process_response-After cb now resp err e))
            (omega (arith, process_response-After cb now resp err e))
            (verdicts-process_response cb now resp err rs ∙ rest)
    ]

open_of_run :
    (xs ys : List Bool) (cb : CircuitBreaker) (rs : List Reply)
    → cb.state ≡ state_closed
    → cb.consecutive_errors < cb.failure_threshold
    → verdicts cb rs ≡ xs ++ (replicate cb.failure_threshold ++ ys)
    → (respond cb rs).state ≡ state_open
unfolding respond
open_of_run [] ys cb rs e lt q = open_of_failures cb.failure_threshold ys cb rs e lt (omega arith) q
open_of_run (x ∷ xs) ys cb [] e lt q = cc
open_of_run (x ∷ xs) ys cb ((resp, err, now) ∷ rs) e lt q =
    let c : CircuitBreaker = process_response cb now resp err in
    let (thr, next) = process_response-After cb now resp err e (omega arith) in
    let rest : verdicts cb rs ≡ xs ++ (replicate cb.failure_threshold ++ ys) = cc in
    elim next [
      | inl (_, opened) ↦ respond-open c rs opened
      | inr (h, closed, errs) ↦
          open_of_run xs ys c rs closed (omega (arith, thr))
            (verdicts-process_response cb now resp err rs ∙ rest ∙ cc thr)
    ]

-- From a closed breaker with no error counted, a sequence of responses leaves the circuit open
-- exactly when somewhere among them as many failures as the threshold stand in a row.
pub respond-open_iff :
    (cb : CircuitBreaker) (rs : List Reply)
    → IsValid cb
    → cb.state ≡ state_closed
    → cb.consecutive_errors ≡ 0
    → ((respond cb rs).state ≡ state_open) ↔ HasRun cb.failure_threshold (verdicts cb rs)
respond-open_iff cb rs v e zeroed = (
  λ o.
      subst (λ k. HasRun cb.failure_threshold (replicate k ++ verdicts cb rs)) zeroed
        (run_of_open cb rs e (v.below e) o),
  λ (xs, ys, q). open_of_run xs ys cb rs e (v.below e) q,
)
