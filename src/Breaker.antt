-- ===== src/Breaker.antt =====
-- middleware/circuitbreaker/circuit_breaker.go. Each call of `time.Now` is an argument; the atomic
-- sections that the mutex makes are functions of their own, so that a request may be interleaved
-- with others between them (Breaker/Interleaving).
pub mod Invariant
pub mod Trip
pub mod Recovery
pub mod Interleaving
mod Tests
use httpio.Base.{
  ℕ, suc, ◌+◌, Bool, true, false, ◌||◌, List, [], ◌∷◌, ◌++◌, Option, none, some, ltb, leb, ℤ, pos,
  positive_or, if◌then◌else◌, Bytes, bytes,
}
use httpio.Http.{Error, errorf, Request, Response, Handler, Answer}
use httpio.Middleware.{Middleware}

pub data CircuitBreakerState : Type 0 where
  state_closed state_open state_half_open : CircuitBreakerState

abbrev pub to_string : CircuitBreakerState → Bytes
to_string state_closed = bytes "CLOSED"
to_string state_open = bytes "OPEN"
to_string state_half_open = bytes "HALF_OPEN"

abbrev pub same_state : CircuitBreakerState → CircuitBreakerState → Bool
same_state state_closed state_closed = true
same_state state_open state_open = true
same_state state_half_open state_half_open = true
same_state _ _ = false

abbrev pub ErrorPredicate : Type 0
ErrorPredicate = Option Response → Option Error → Bool

pub record Config : Type 0 where
  pub failure_threshold : ℤ
  pub recovery_timeout : ℤ
  pub half_open_max_calls : ℤ
  pub has_on_state_change : Bool
  pub error_predicate : Option ErrorPredicate

-- The breaker, with its normalised configuration. `notified` lists the calls of `onStateChange`
-- that were spawned, oldest first.
pub record CircuitBreaker : Type 0 where
  pub state : CircuitBreakerState
  pub consecutive_errors : ℕ
  pub last_attempt : ℕ
  pub half_open_calls : ℕ
  pub failure_threshold : ℕ
  pub recovery_timeout : ℕ
  pub half_open_max_calls : ℕ
  pub has_on_state_change : Bool
  pub error_predicate : Option ErrorPredicate
  pub notified : List (CircuitBreakerState × CircuitBreakerState)

-- Times and durations are in nanoseconds.
unfoldable pub default_error_predicate : ErrorPredicate
default_error_predicate resp (some e) = true
default_error_predicate (some r) none = leb 500 r.status_code
default_error_predicate none none = false

unfoldable pub default_config : Config
default_config = record {
  failure_threshold = pos 5;
  recovery_timeout = pos 60000000000;
  half_open_max_calls = pos 3;
  has_on_state_change = false;
  error_predicate = some default_error_predicate;
}

build : Config → CircuitBreaker
build config = record {
  state = state_closed;
  consecutive_errors = 0;
  last_attempt = 0;
  half_open_calls = 0;
  failure_threshold = positive_or config.failure_threshold 5;
  recovery_timeout = positive_or config.recovery_timeout 60000000000;
  half_open_max_calls = positive_or config.half_open_max_calls 3;
  has_on_state_change = config.has_on_state_change;
  error_predicate = config.error_predicate;
  notified = [];
}

-- `NewCircuitBreaker(config)`
unfoldable pub new_circuit_breaker : Option Config → CircuitBreaker
unfolding build default_config
new_circuit_breaker none = build default_config
new_circuit_breaker (some config) = build config

-- `go c.onStateChange(from, to)`, if it is set.
unfoldable pub notify : CircuitBreaker → CircuitBreakerState → CircuitBreaker
notify cb from =
    if cb.has_on_state_change
    then record cb { notified = cb.notified ++ (from, cb.state) ∷ [] }
    else cb

-- `transitionState(newState)`
unfoldable pub transition_state : CircuitBreaker → CircuitBreakerState → CircuitBreaker
unfolding notify
transition_state cb new_state =
    if same_state cb.state new_state then cb else notify (record cb { state = new_state }) cb.state

-- `GetState()` and `GetConsecutiveErrors()`
unfoldable pub get_state : CircuitBreaker → CircuitBreakerState
get_state cb = cb.state

unfoldable pub get_consecutive_errors : CircuitBreaker → ℕ
get_consecutive_errors cb = cb.consecutive_errors

-- `Reset()`
unfoldable pub reset : CircuitBreaker → CircuitBreaker
reset cb =
    let r : CircuitBreaker = record cb {
      state = state_closed;
      consecutive_errors = 0;
      half_open_calls = 0;
    } in
    if same_state cb.state state_closed then r else notify r cb.state

-- `IsOpen()`
unfoldable pub is_open : CircuitBreaker → Bool
is_open cb = same_state cb.state state_open || same_state cb.state state_half_open

pub rejected_open : Error
rejected_open = errorf (bytes "circuit breaker is open - request rejected")

pub rejected_half_open : Error
rejected_half_open = errorf (bytes "circuit breaker is half-open and maximum test requests reached")

-- The locked section of `processRequest` for a snapshot `StateOpen`, once the recovery timeout is
-- over: the state is read again.
unfoldable pub start_probing : CircuitBreaker → CircuitBreaker
start_probing cb =
    if same_state cb.state state_open
    then record (transition_state cb state_half_open) { half_open_calls = 0 }
    else cb

-- The locked section of `processRequest` for a snapshot `StateHalfOpen`.
unfoldable pub count_probe : CircuitBreaker → Option Error × CircuitBreaker
count_probe cb =
    if leb cb.half_open_max_calls cb.half_open_calls
    then (some rejected_half_open, cb)
    else (none, record cb { half_open_calls = cb.half_open_calls + 1 })

-- `processRequest`, from the state that was read under the read lock: an error, or the request
-- goes on.
unfoldable pub process_request_from :
    CircuitBreakerState → CircuitBreaker → ℕ → Option Error × CircuitBreaker
process_request_from state_closed cb now = (none, cb)
process_request_from state_open cb now =
    if ltb (cb.last_attempt + cb.recovery_timeout) now
    then (none, start_probing cb)
    else (some rejected_open, cb)
process_request_from state_half_open cb now = count_probe cb

unfoldable pub process_request : CircuitBreaker → ℕ → Option Error × CircuitBreaker
process_request cb now = process_request_from cb.state cb now

abbrev or_default : Option ErrorPredicate → ErrorPredicate
or_default none = default_error_predicate
or_default (some p) = p

-- `predicate(resp, err)`
unfoldable pub is_failure : CircuitBreaker → Option Response → Option Error → Bool
is_failure cb resp err = or_default cb.error_predicate resp err

abbrev after_closed : Bool → CircuitBreaker → CircuitBreaker
after_closed true cb =
    let c : CircuitBreaker = record cb { consecutive_errors = cb.consecutive_errors + 1 } in
    if leb c.failure_threshold c.consecutive_errors then transition_state c state_open else c
after_closed false cb = record cb { consecutive_errors = 0 }

abbrev after_half_open : Bool → CircuitBreaker → CircuitBreaker
after_half_open true cb = transition_state cb state_open
after_half_open false cb =
    let c : CircuitBreaker = record cb { consecutive_errors = 0 } in
    if leb c.half_open_max_calls c.half_open_calls then transition_state c state_closed else c

abbrev by_state : CircuitBreakerState → Bool → CircuitBreaker → CircuitBreaker
by_state state_closed failed cb = after_closed failed cb
by_state state_half_open failed cb = after_half_open failed cb
by_state state_open failed cb = cb

-- `processResponse`, from the verdict of the predicate.
unfoldable pub record_result : Bool → CircuitBreaker → ℕ → CircuitBreaker
record_result failed cb now = by_state cb.state failed (record cb { last_attempt = now })

unfoldable pub process_response :
    CircuitBreaker → ℕ → Option Response → Option Error → CircuitBreaker
process_response cb now resp err = record_result (is_failure cb resp err) cb now

-- `String()`; `show_number` prints a number in decimals.
unfoldable pub describe : (ℕ → Bytes) → CircuitBreaker → Bytes
describe show_number cb =
    bytes "CircuitBreaker [State: "
    ++ (to_string cb.state
        ++ (bytes ", Consecutive Errors: "
            ++ (show_number cb.consecutive_errors
                ++ (bytes "/" ++ (show_number cb.failure_threshold ++ bytes "]")))))

-- `Handle(next)`. The breaker stands in the world, where `next` may change it (other requests that
-- run in between); `clock` is what `time.Now` reads in a world.
module _ {W : Type 0} (clock : W → ℕ) where
  finish : Answer (CircuitBreaker × W) → Answer (CircuitBreaker × W)
  finish a = record a {
    world = (process_response a.world.0 (clock a.world.1) a.response a.error, a.world.1);
  }

  handle_from :
      Option Error × CircuitBreaker → Handler (CircuitBreaker × W) → Handler (CircuitBreaker × W)
  unfolding finish
  handle_from (some e, cb) next ctx req s = record {
    response = none;
    error = some e;
    request = req;
    world = (cb, s.1);
  }
  handle_from (none, cb) next ctx req s = finish (next ctx req (cb, s.1))

  unfoldable pub handle : Handler (CircuitBreaker × W) → Handler (CircuitBreaker × W)
  unfolding handle_from process_request
  handle next ctx req s = handle_from (process_request s.0 (clock s.1)) next ctx req s

  -- `New(config)` as a middleware.
  pub middleware : Middleware (CircuitBreaker × W)
  middleware = record { handle = handle }
