-- ===== src/Breaker/Recovery.antt =====
-- What requests meet at an open or half-open circuit, and the way back to closed.
use httpio.Base.{
  ℕ, zero, suc, ◌+◌, ◌-◌, ◌≤◌, ◌<◌, ◌≡◌, sym, ap, subst, ◌∙◌, ◌⊎◌, inl, inr, false, Option, some,
  none, arith,
}
use httpio.Http.{Error, Request, Context, Handler}
use httpio.Breaker.{
  state_closed, state_open, state_half_open, CircuitBreaker, transition_state, record_result,
  process_request, process_request_from, start_probing, count_probe, process_response, is_failure,
  or_default, ErrorPredicate, rejected_open, rejected_half_open, handle, finish,
}
use httpio.Breaker.Trip.{transition_state-predicate, record_result-predicate}
use httpio.Breaker.Invariant.{IsValid, transition_state_fields}

-- The circuit lets no request through at this time, and answers by this error.
abbrev pub Blocks : CircuitBreaker → ℕ → Error → Type 0
Blocks cb now e =
    ((cb.state ≡ state_open) × (now ≤ cb.last_attempt + cb.recovery_timeout) × (e ≡ rejected_open))
    ⊎ ((cb.state ≡ state_half_open)
        × (cb.half_open_max_calls ≤ cb.half_open_calls)
        × (e ≡ rejected_half_open))

process_request_of_Blocks :
    (cb : CircuitBreaker) (now : ℕ) (e : Error)
    → Blocks cb now e
    → process_request cb now ≡ (some e, cb)
unfolding process_request process_request_from count_probe
process_request_of_Blocks cb now e (inl (s, t, same)) = rw (s, process_request_from) (ground arith)
process_request_of_Blocks cb now e (inr (s, t, same)) = rw (s, process_request_from) (ground arith)

module _ {W : Type 0} (clock : W → ℕ) (next : Handler (CircuitBreaker × W)) where
  -- An open circuit answers by its error until more than the recovery timeout has passed since the
  -- last response, and a half-open one once its probes are used up. The next handler is not called:
  -- whatever it is, the answer is the same, and the breaker and the world stay as they were.
  pub handle_of_Blocks :
      (ctx : Context) (req : Request) (cb : CircuitBreaker) (w : W) (e : Error)
      → Blocks cb (clock w) e
      → handle clock next ctx req (cb, w)
        ≡ record { response = none; error = some e; request = req; world = (cb, w) }
  unfolding handle
  handle_of_Blocks ctx req cb w e b = rw (process_request_of_Blocks cb (clock w) e b)

  -- The next handler succeeds by the predicate, and no other request comes in while it runs.
  abbrev pub Succeeds : Option ErrorPredicate → Type 0
  Succeeds p =
      (ctx : Context) (req : Request) (s : CircuitBreaker × W)
      → ((next ctx req s).world.0 ≡ s.0)
        × (or_default p (next ctx req s).response (next ctx req s).error ≡ false)

  -- One request after the other.
  unfoldable pub repeat : ℕ → Context → Request → CircuitBreaker × W → CircuitBreaker × W
  repeat zero ctx req s = s
  repeat (suc n) ctx req s = repeat n ctx req (handle clock next ctx req s).world

  admitted :
      {p : Option ErrorPredicate}
      → Succeeds p
      → (ctx : Context) (req : Request) (cb cb1 : CircuitBreaker) (w : W) → cb1.error_predicate ≡ p
      → process_request cb (clock w) ≡ (none, cb1)
      → (t : ℕ) × ((handle clock next ctx req (cb, w)).world.0 ≡ record_result false cb1 t)
  unfolding handle finish process_response is_failure
  admitted {p} ok ctx req cb cb1 w q e =
      let a = next ctx req (cb1, w) in
      let verdict : or_default cb1.error_predicate a.response a.error ≡ false =
        subst (λ (f : Option ErrorPredicate). or_default f a.response a.error ≡ false) (sym q)
          (ok ctx req (cb1, w)).1 in
      (clock a.world.1, rw (e, (ok ctx req (cb1, w)).0, verdict))

record_result_probe :
    (cb : CircuitBreaker) (t : ℕ)
    → cb.state ≡ state_half_open
    → (cb.half_open_calls < cb.half_open_max_calls)
    → ((record_result false cb t).state ≡ state_half_open)
      × ((record_result false cb t).half_open_calls ≡ cb.half_open_calls)
      × ((record_result false cb t).half_open_max_calls ≡ cb.half_open_max_calls)
unfolding record_result
record_result_probe cb t e lt = ground arith

record_result_last :
    (cb : CircuitBreaker) (t : ℕ)
    → cb.state ≡ state_half_open
    → (cb.half_open_max_calls ≤ cb.half_open_calls)
    → ((record_result false cb t).state ≡ state_closed)
      × ((record_result false cb t).consecutive_errors ≡ 0)
unfolding record_result
record_result_last cb t e le =
    let c : CircuitBreaker = record cb { last_attempt = t; consecutive_errors = 0 } in
    ground (arith, transition_state_fields c state_closed)

process_request_probe :
    (cb : CircuitBreaker) (now : ℕ)
    → cb.state ≡ state_half_open
    → cb.half_open_calls < cb.half_open_max_calls
    → process_request cb now ≡ (none, record cb { half_open_calls = cb.half_open_calls + 1 })
unfolding process_request process_request_from count_probe
process_request_probe cb now e lt = rw (e, process_request_from) (ground arith)

process_request_elapsed :
    (cb : CircuitBreaker) (now : ℕ)
    → cb.state ≡ state_open
    → cb.last_attempt + cb.recovery_timeout < now
    → process_request cb now
      ≡ (none, record (transition_state cb state_half_open) { half_open_calls = 0 })
unfolding process_request process_request_from start_probing
process_request_elapsed cb now e lt = rw (e, process_request_from) (ground arith)

module _ {W : Type 0} (clock : W → ℕ) (next : Handler (CircuitBreaker × W))
    {p : Option ErrorPredicate} (ok : Succeeds clock next p) (ctx : Context) (req : Request) where
  -- From a half-open circuit, one success for each probe that is left.
  probes_close :
      (n : ℕ) (cb : CircuitBreaker) (w : W)
      → cb.error_predicate ≡ p
      → cb.state ≡ state_half_open
      → cb.half_open_calls + suc n ≡ cb.half_open_max_calls
      → ((repeat clock next (suc n) ctx req (cb, w)).0.state ≡ state_closed)
        × ((repeat clock next (suc n) ctx req (cb, w)).0.consecutive_errors ≡ 0)
  unfolding repeat
  probes_close zero cb w q e n =
      let (t, h) =
        admitted clock next ok ctx req cb _ w q
          (process_request_probe cb (clock w) e (omega arith)) in
      rw h (
        record_result_last (record cb { half_open_calls = cb.half_open_calls + 1 }) t e
          (omega arith))
  probes_close (suc n) cb w q e le =
      let c : CircuitBreaker = record cb { half_open_calls = cb.half_open_calls + 1 } in
      let (t, h) =
        admitted clock next ok ctx req cb c w q
          (process_request_probe cb (clock w) e (omega arith)) in
      let (state, calls, most) = record_result_probe c t e (omega arith) in
      let s : CircuitBreaker × W = (handle clock next ctx req (cb, w)).world in
      probes_close n s.0 s.1
        (ap (λ (b : CircuitBreaker). b.error_predicate) h ∙ record_result-predicate false c t ∙ q)
        (ap (λ (b : CircuitBreaker). b.state) h ∙ state)
        (omega (
          arith,
          ap (λ (b : CircuitBreaker). b.half_open_calls) h,
          ap (λ (b : CircuitBreaker). b.half_open_max_calls) h,
          calls,
          most,
        ))

  -- The way back: once more than the recovery timeout has passed since the last response, an open
  -- circuit is closed, with no error counted, by one request more than the half-open maximum, if
  -- the next handler succeeds each time and no other request comes in between.
  pub repeat_closes :
      (cb : CircuitBreaker) (w : W)
      → IsValid cb
      → cb.error_predicate ≡ p
      → cb.state ≡ state_open
      → cb.last_attempt + cb.recovery_timeout < clock w
      → ((repeat clock next (suc cb.half_open_max_calls) ctx req (cb, w)).0.state ≡ state_closed)
        × ((repeat clock next (suc cb.half_open_max_calls) ctx req (cb, w)).0.consecutive_errors
            ≡ 0)
  unfolding repeat
  repeat_closes cb w v q e elapsed =
      let c : CircuitBreaker = record (transition_state cb state_half_open) {
        half_open_calls = 0;
      } in
      let kept : c.error_predicate ≡ p = transition_state-predicate cb state_half_open ∙ q in
      let (t, h) =
        admitted clock next ok ctx req cb c w kept
          (process_request_elapsed cb (clock w) e elapsed) in
      let fields = transition_state_fields cb state_half_open in
      let (state, calls, most) = record_result_probe c t fields.0 (omega (arith, fields, v)) in
      let s : CircuitBreaker × W = (handle clock next ctx req (cb, w)).world in
      let m : cb.half_open_max_calls ≡ suc (cb.half_open_max_calls - 1) = omega (arith, v) in
      subst
        (λ k.
          ((repeat clock next k ctx req s).0.state ≡ state_closed)
          × ((repeat clock next k ctx req s).0.consecutive_errors ≡ 0))
        (sym m)
        (probes_close (cb.half_open_max_calls - 1) s.0 s.1
          (ap (λ (b : CircuitBreaker). b.error_predicate) h
            ∙ record_result-predicate false c t
            ∙ kept)
          (ap (λ (b : CircuitBreaker). b.state) h ∙ state)
          (omega (
            arith,
            ap (λ (b : CircuitBreaker). b.half_open_calls) h,
            ap (λ (b : CircuitBreaker). b.half_open_max_calls) h,
            calls,
            most,
            fields,
            m,
          )))
