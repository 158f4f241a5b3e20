-- ===== src/Breaker/Tests.antt =====
-- Runs of the circuit breaker, and its theorems at concrete inputs.
use httpio.Base.{ℕ, ◌+◌, ◌≡◌, refl, ◌↔◌, true, false, List, [], ◌∷◌, none, some, arith, pos, bytes}
use httpio.Http.{foreign, Request, Response, Handler}
use httpio.Breaker.{
  state_closed, state_open, state_half_open, CircuitBreaker, new_circuit_breaker,
  default_error_predicate, notify, transition_state, reset, start_probing, count_probe,
  process_request_from, process_request, record_result, process_response, is_failure, is_open,
  get_state, get_consecutive_errors, handle, finish, describe,
}
use httpio.Breaker.Invariant.{IsValid, new_circuit_breaker-IsValid}
use httpio.Breaker.Trip
use httpio.Breaker.Trip.{Reply, respond, verdicts, HasRun}
use httpio.Breaker.Recovery
use httpio.Breaker.Recovery.{Blocks, repeat, Succeeds}
use httpio.Breaker.Interleaving
use httpio.Breaker.Interleaving.{
  initial, Reach, here, next, look, arrive, enter, System, arrived, calling, replicate,
}

program : Unit {0}
unfolding new_circuit_breaker default_error_predicate notify transition_state reset start_probing
    count_probe process_request_from process_request record_result process_response is_failure
    is_open get_state get_consecutive_errors handle finish respond repeat
program = tt

abbrev fresh : CircuitBreaker
fresh = new_circuit_breaker (
    some (record {
      failure_threshold = pos 2;
      recovery_timeout = pos 10;
      half_open_max_calls = pos 1;
      has_on_state_change = true;
      error_predicate = none;
    }))

abbrev failure : ℕ → Reply
failure now = (none, some (foreign 0), now)

abbrev good : Response
good = record { status_code = 200; header = []; body = none }

abbrev success : ℕ → Reply
success now = (some good, none, now)

abbrev mixed : List Reply
mixed = failure 1 ∷ success 2 ∷ failure 3 ∷ failure 4 ∷ []

mixed_opens :
    ((respond fresh mixed).state ≡ state_open)
    × ((respond fresh (failure 1 ∷ success 2 ∷ failure 3 ∷ [])).state ≡ state_closed)
    × ((respond fresh mixed).notified ≡ (state_closed, state_open) ∷ [])
    × (get_state (respond fresh mixed) ≡ state_open)
    × (get_consecutive_errors (respond fresh (failure 1 ∷ [])) ≡ 1)
unfolding program
mixed_opens = (refl, refl, refl, refl, refl)

defaults :
    ((new_circuit_breaker none).failure_threshold ≡ 5)
    × (is_open (respond fresh mixed) ≡ true)
    × ((reset (respond fresh mixed)).notified
        ≡ (state_closed, state_open) ∷ (state_open, state_closed) ∷ [])
unfolding program
defaults = (refl, refl, refl)

fresh-IsValid : IsValid fresh
fresh-IsValid = new_circuit_breaker-IsValid (some _)

respond-open_iff_example :
    ((respond fresh mixed).state ≡ state_open)
    ↔ HasRun fresh.failure_threshold (verdicts fresh mixed)
unfolding program
respond-open_iff_example = Trip.respond-open_iff fresh mixed fresh-IsValid refl refl

-- The open circuit of the tests below; the last response came at time 4.
abbrev tripped : CircuitBreaker
tripped =
    record (new_circuit_breaker (
      some (record {
        failure_threshold = pos 2;
        recovery_timeout = pos 10;
        half_open_max_calls = pos 1;
        has_on_state_change = false;
        error_predicate = none;
      }))) { state = state_open; consecutive_errors = 2; last_attempt = 4 }

abbrev req : Request
req = record {
  method = bytes "GET";
  url = bytes "http://a/";
  host = bytes "a";
  path = bytes "/";
  header = [];
  body = none;
  get_body = none;
  content_length = pos 0;
}

-- The world is the time; each call takes one unit and succeeds.
abbrev serve : Handler (CircuitBreaker × ℕ)
serve ctx r s = record { response = some good; error = none; request = r; world = (s.0, s.1 + 1) }

tripped-IsValid : IsValid tripped
unfolding program
tripped-IsValid = record {
  threshold = omega arith;
  max_calls = omega arith;
  below = λ e. cc;
  probes = omega arith;
  told = λ e. cc;
}

serve-Succeeds : Succeeds (λ t. t) serve none
unfolding program
serve-Succeeds ctx r s = (refl, refl)

repeat_closes_example :
    ((repeat (λ t. t) serve 2 [] req (tripped, 15)).0.state ≡ state_closed)
    × ((repeat (λ t. t) serve 2 [] req (tripped, 15)).0.consecutive_errors ≡ 0)
unfolding program
repeat_closes_example =
    Recovery.repeat_closes (λ t. t) serve serve-Succeeds [] req tripped 15 tripped-IsValid refl refl
      (omega arith)

-- Two requests arrive at a new breaker, and the first reads the state and goes on.
two_requests :
    Reach
      (initial none)
      (record { breaker = new_circuit_breaker none; requests = arrived ∷ calling ∷ [] })
unfolding program
two_requests =
    next (next (next (next here arrive) arrive) (look (arrived ∷ []) [] refl))
      (enter (arrived ∷ []) [] state_closed 0 refl)

initial-IsValid_example : IsValid (new_circuit_breaker none)
initial-IsValid_example = Interleaving.initial-IsValid none _ two_requests

half_open_unbounded_example :
    (c : CircuitBreaker) × Reach
      (record { breaker = tripped; requests = replicate 3 arrived })
      (record { breaker = c; requests = replicate 3 calling })
    × (c.state ≡ state_half_open)
    × (c.half_open_calls ≡ 0)
unfolding program
half_open_unbounded_example = Interleaving.half_open_unbounded tripped 2 15 refl (omega arith)

described :
    describe (λ n. bytes "n") tripped
    ≡ bytes "CircuitBreaker [State: OPEN, Consecutive Errors: n/n]"
unfolding describe program
described = refl
