-- ===== src/Breaker/Invariant.antt =====
-- What every atomic section of the circuit breaker preserves.
use httpio.Base.{
  ℕ, ◌+◌, ◌≤◌, ◌<◌, ◌≡◌, refl, inl, inr, ◌≢◌, ◌↔◌, Bool, true, false, List, [], ◌∷◌, ◌++◌, Option,
  none, some, arith, Bool-cases,
}
use httpio.Breaker.{
  CircuitBreakerState, state_closed, state_open, state_half_open, Config, CircuitBreaker,
  same_state, new_circuit_breaker, notify, transition_state, reset, start_probing, count_probe,
  process_request_from, by_state, record_result,
}

-- A list of transitions leads from one state to another, and each changes the state.
pub data Leads (s : CircuitBreakerState)
    : List (CircuitBreakerState × CircuitBreakerState) → CircuitBreakerState → Type 0 where
  start : Leads s [] s
  move :
      {log : List (CircuitBreakerState × CircuitBreakerState)} {t : CircuitBreakerState}
      (u : CircuitBreakerState)
      → Leads s log t
      → t ≢ u
      → Leads s (log ++ (t, u) ∷ []) u

-- Every notification that was due has been sent, in order.
abbrev pub Told : CircuitBreaker → Type 0
Told cb = cb.has_on_state_change ≡ true → Leads state_closed cb.notified cb.state

-- Closed means fewer errors in a row than the threshold, the probes are within their limit, and
-- the notifications tell the whole history of the state.
pub record IsValid (cb : CircuitBreaker) : Type 0 where
  pub threshold : 0 < cb.failure_threshold
  pub max_calls : 0 < cb.half_open_max_calls
  pub below : cb.state ≡ state_closed → cb.consecutive_errors < cb.failure_threshold
  pub probes : cb.half_open_calls ≤ cb.half_open_max_calls
  pub told : Told cb

same_state_iff : (s t : CircuitBreakerState) → (same_state s t ≡ true) ↔ (s ≡ t)
same_state_iff s t = ground arith

notify-Told :
    (cb : CircuitBreaker) (from : CircuitBreakerState)
    → (cb.has_on_state_change ≡ true → Leads state_closed cb.notified from)
    → from ≢ cb.state
    → Told (notify cb from)
unfolding notify
notify-Told cb from h n = elim (Bool-cases cb.has_on_state_change) [
  | inl on ↦ rw (on, notify) (λ _. move cb.state (h on) n)
  | inr off ↦ rw (off, notify) (λ e. absurd (cc))
]

transition_state-Told :
    (cb : CircuitBreaker) (new_state : CircuitBreakerState)
    → Told cb
    → Told (transition_state cb new_state)
unfolding transition_state
transition_state-Told cb new_state t = elim (Bool-cases (same_state cb.state new_state)) [
  | inl same ↦ rw (same, transition_state) t
  | inr other ↦
      rw (other, transition_state)
        (notify-Told (record cb { state = new_state }) cb.state t
          (λ e. cc (other, (same_state_iff cb.state new_state).1 e)))
]

nothing_told : Leads state_closed [] state_closed
nothing_told = start

-- A new breaker is valid, whatever its configuration.
pub new_circuit_breaker-IsValid : (config : Option Config) → IsValid (new_circuit_breaker config)
unfolding new_circuit_breaker
new_circuit_breaker-IsValid none = ground (arith, nothing_told)
new_circuit_breaker-IsValid (some config) = ground (arith, nothing_told)

-- What a transition changes besides the notifications: the state only.
pub transition_state_fields :
    (cb : CircuitBreaker) (t : CircuitBreakerState)
    → ((transition_state cb t).state ≡ t)
      × ((transition_state cb t).consecutive_errors ≡ cb.consecutive_errors)
      × ((transition_state cb t).half_open_calls ≡ cb.half_open_calls)
      × ((transition_state cb t).failure_threshold ≡ cb.failure_threshold)
      × ((transition_state cb t).half_open_max_calls ≡ cb.half_open_max_calls)
      × ((transition_state cb t).recovery_timeout ≡ cb.recovery_timeout)
      × ((transition_state cb t).last_attempt ≡ cb.last_attempt)
unfolding transition_state notify
transition_state_fields cb t = ground (arith, same_state_iff cb.state t)

transition_state-IsValid :
    (cb : CircuitBreaker) (t : CircuitBreakerState)
    → 0 < cb.failure_threshold
    → 0 < cb.half_open_max_calls
    → (t ≡ state_closed → cb.consecutive_errors < cb.failure_threshold)
    → cb.half_open_calls ≤ cb.half_open_max_calls
    → Told cb
    → IsValid (transition_state cb t)
transition_state-IsValid cb t p q b c h =
    let told : Told (transition_state cb t) = transition_state-Told cb t h in
    ground (arith, transition_state_fields cb t)

pub start_probing-IsValid : (cb : CircuitBreaker) → IsValid cb → IsValid (start_probing cb)
unfolding start_probing
start_probing-IsValid cb v =
    let next : IsValid (transition_state cb state_half_open) =
      transition_state-IsValid cb state_half_open v.threshold v.max_calls (λ e. cc) v.probes
        v.told in
    ground arith

pub count_probe-IsValid : (cb : CircuitBreaker) → IsValid cb → IsValid (count_probe cb).1
unfolding count_probe
count_probe-IsValid cb v = ground arith

-- Whatever state was read before: it may be stale when the locked section runs.
pub process_request_from-IsValid :
    (seen : CircuitBreakerState) (cb : CircuitBreaker) (now : ℕ)
    → IsValid cb
    → IsValid (process_request_from seen cb now).1
unfolding process_request_from
process_request_from-IsValid state_closed cb now v = v
process_request_from-IsValid state_open cb now v = ground (arith, start_probing-IsValid cb v)
process_request_from-IsValid state_half_open cb now v = count_probe-IsValid cb v

by_state-IsValid :
    (s : CircuitBreakerState) (failed : Bool) (cb : CircuitBreaker)
    → cb.state ≡ s
    → IsValid cb
    → IsValid (by_state s failed cb)
by_state-IsValid state_closed true cb e v = ground (
  arith,
  transition_state-IsValid (record cb { consecutive_errors = cb.consecutive_errors + 1 })
      state_open,
)
by_state-IsValid state_closed false cb e v = ground arith
by_state-IsValid state_open failed cb e v = v
by_state-IsValid state_half_open true cb e v =
    ground (arith, transition_state-IsValid cb state_open)
by_state-IsValid state_half_open false cb e v =
    ground (arith, transition_state-IsValid (record cb { consecutive_errors = 0 }) state_closed)

pub record_result-IsValid :
    (failed : Bool) (cb : CircuitBreaker) (now : ℕ)
    → IsValid cb
    → IsValid (record_result failed cb now)
unfolding record_result
record_result-IsValid failed cb now v =
    by_state-IsValid cb.state failed (record cb { last_attempt = now }) refl
      (record {
        threshold = v.threshold;
        max_calls = v.max_calls;
        below = v.below;
        probes = v.probes;
        told = v.told;
      })

notify_fields :
    (cb : CircuitBreaker) (from : CircuitBreakerState)
    → ((notify cb from).state ≡ cb.state)
      × ((notify cb from).consecutive_errors ≡ cb.consecutive_errors)
      × ((notify cb from).half_open_calls ≡ cb.half_open_calls)
      × ((notify cb from).failure_threshold ≡ cb.failure_threshold)
      × ((notify cb from).half_open_max_calls ≡ cb.half_open_max_calls)
unfolding notify
notify_fields cb from = ground arith

pub reset-IsValid : (cb : CircuitBreaker) → IsValid cb → IsValid (reset cb)
unfolding reset
reset-IsValid cb v = elim (Bool-cases (same_state cb.state state_closed)) [
  | inl same ↦ ground (arith, same_state_iff cb.state state_closed)
  | inr other ↦
      let r : CircuitBreaker = record cb {
        state = state_closed;
        consecutive_errors = 0;
        half_open_calls = 0;
      } in
      let told : Told (notify r cb.state) =
        notify-Told r cb.state v.told
          (λ e. cc (other, (same_state_iff cb.state state_closed).1 e)) in
      rw (other, reset) (ground (arith, notify_fields r cb.state))
]
