-- ===== src/Retry/Tests.antt =====
-- Runs of the retry middleware, and its theorems at concrete inputs.
use httpio.Base.{
  ℕ, suc, ◌+◌, ◌≤◌, ◌≡◌, refl, inl, false, List, [], ◌∷◌, Option, none, some, arith, pos, rounds,
  bytes, is_some, true,
}
use httpio.Http.{Error, Request, Response, Handler}
use httpio.Retry.{
  World, Host, Config, handle, attempts, round, after_wait, attempt_with, judge, back_off,
  calc_backoff, jittered, cap_delay, clone_request, is_settled, is_below_500, should_retry,
  has_retryable_status, close_body, config_or_default, default_config,
}
use httpio.Retry.Float64.{natural}
use httpio.Retry.Count
use httpio.Retry.Count.{Counts, Settles}
use httpio.Retry.Bodies
use httpio.Retry.Bodies.{Tracks, Held}
use httpio.Retry
use httpio.Retry.Guarded.{Holds, IsSteady, breaker, chain-IsRejected}
use httpio.Breaker.{CircuitBreaker, state_open}
use httpio.Middleware.{chain}

program : Unit {0}
unfolding handle attempts round after_wait attempt_with judge back_off calc_backoff jittered
    cap_delay clone_request is_settled is_below_500 should_retry has_retryable_status close_body
program = tt

abbrev config : Config ℕ
config = record {
  max_retries = pos 3;
  retryable_status_codes = 408 ∷ 503 ∷ [];
  base_delay = pos 100;
  max_delay = pos 250;
  error_predicate = some (λ e. false);
  jitter_factor = 0;
}

abbrev req : Request
req = record {
  method = bytes "GET";
  url = bytes "http://a/";
  host = bytes "a";
  path = bytes "/";
  header = [];
  body = none;
  get_body = none;
  content_length = pos 0;
}

abbrev upload : Request
upload = record req { method = bytes "PUT"; body = some (bytes "x") }

abbrev answer : ℕ → Response
answer code = record { status_code = code; header = []; body = some 7 }

-- The world counts the calls.
abbrev host : Host ℕ ℕ
host = record { wait = λ d v. (none, v); random = λ v. (0, v) }

abbrev always : Option Response → Option Error → Handler (World ℕ)
always resp err ctx r w = record {
  response = resp;
  error = err;
  request = r;
  world = record w { rest = suc w.rest };
}

abbrev start : World ℕ
start = record { closed = []; rest = 0 }

delays :
    (calc_backoff natural config 0 0 ≡ pos 100)
    × (calc_backoff natural config 1 0 ≡ pos 200)
    × (calc_backoff natural config 2 0 ≡ pos 250)
unfolding program
delays = (refl, refl, refl)

runs :
    ((handle natural host config (always (some (answer 503)) none) [] req start).world.rest ≡ 4)
    × ((handle natural host config (always (some (answer 408)) none) [] req start).world.rest ≡ 2)
    × ((handle natural host config (always (some (answer 200)) none) [] req start).world.rest ≡ 1)
    × ((handle natural host config (always (some (answer 503)) none) [] upload start).world.closed
        ≡ 7 ∷ [])
unfolding program
runs = (refl, refl, refl, refl)

always-Counts :
    (resp : Option Response) (err : Option Error) → Counts host (always resp err) (λ v. v)
always-Counts resp err = record { call = λ ctx r w. refl; wait = λ d v. refl; random = λ v. refl }

handle-count_example :
    (1 ≤ (handle natural host config (always (some (answer 503)) none) [] req start).world.rest)
    × ((handle natural host config (always (some (answer 503)) none) [] req start).world.rest
        ≤ 1 + 3)
handle-count_example =
    Count.handle-count natural host config (always (some (answer 503)) none) (λ v. v)
      (always-Counts (some (answer 503)) none) [] req start

handle-Settles_example :
    Settles natural host config
      (always (some (answer 503)) none)
      (λ v. v)
      (always-Counts (some (answer 503)) none)
      4
      none
      start
      (handle natural host config (always (some (answer 503)) none) [] req start)
unfolding program
handle-Settles_example =
    Count.handle-Settles natural host config (always (some (answer 503)) none) (λ v. v)
      (always-Counts (some (answer 503)) none) [] req start (λ d v. refl) req refl

-- A world that lists the bodies handed out.
abbrev log_host : Host (List ℕ) ℕ
log_host = record { wait = λ d v. (none, v); random = λ v. (0, v) }

abbrev handing : Handler (World (List ℕ))
handing ctx r w = record {
  response = some (answer 503);
  error = none;
  request = r;
  world = record w { rest = 7 ∷ w.rest };
}

handing-Tracks : Tracks log_host handing (λ v. v)
handing-Tracks = record {
  call = λ ctx r w. refl;
  closed = λ ctx r w b i. i;
  wait = λ d v. refl;
  random = λ v. refl;
}

handle-Held_example :
    Held []
      (some (answer 503))
      (handle natural log_host config handing [] req (record { closed = []; rest = [] })).world
      7
unfolding program
handle-Held_example =
    Bodies.handle-Held natural log_host config handing (λ v. v) handing-Tracks [] req
      (record { closed = []; rest = [] }) 7 (inl refl)

-- A breaker whose circuit has been open since 4.
abbrev open_breaker : CircuitBreaker
open_breaker = record {
  state = state_open;
  consecutive_errors = 2;
  last_attempt = 4;
  half_open_calls = 0;
  failure_threshold = 2;
  recovery_timeout = 10;
  half_open_max_calls = 1;
  has_on_state_change = false;
  error_predicate = none;
  notified = [];
}

-- The clock, and the count of calls; a wait ends at 14.
abbrev late_host : Host (CircuitBreaker × (ℕ × ℕ)) ℕ
late_host = record { wait = λ d v. (none, (v.0, (14, v.1.1))); random = λ v. (0, v) }

abbrev counting : Handler (World (CircuitBreaker × (ℕ × ℕ)))
counting ctx req w = record {
  response = none;
  error = none;
  request = req;
  world = record w { rest = (w.rest.0, (w.rest.1.0, suc w.rest.1.1)) };
}

abbrev at_five : World (CircuitBreaker × (ℕ × ℕ))
at_five = record { closed = []; rest = (open_breaker, (5, 0)) }

steady :
    IsSteady natural
      (λ u. u.0)
      late_host
      config
      counting
      (Holds natural (λ u. u.0) late_host config counting open_breaker 14 (λ u. u.1) 0)
steady = record { on_wait = λ d v h. (h.0, omega arith, h.2); on_random = λ v h. h }

chain-IsRejected_example :
    ((chain counting
        (Retry.middleware natural late_host config ∷ breaker (λ u. u.0) ∷ [])
        []
        req
        at_five).response
      ≡ none)
    × (is_some
          (chain counting
            (Retry.middleware natural late_host config ∷ breaker (λ u. u.0) ∷ [])
            []
            req
            at_five).error
        ≡ true)
    × Holds natural
        (λ u. u.0)
        late_host
        config
        counting
        open_breaker
        14
        (λ u. u.1)
        0
        (chain counting
          (Retry.middleware natural late_host config ∷ breaker (λ u. u.0) ∷ [])
          []
          req
          at_five).world.rest
chain-IsRejected_example =
    chain-IsRejected natural (λ u. u.0) late_host config counting open_breaker 14 (λ u. u.1) 0 []
      req at_five refl (omega arith) steady (refl, omega arith, refl)

-- Five statuses are retried, three times each.
defaults :
    (rounds (config_or_default {F = ℕ} 0 none).max_retries ≡ 3)
    × (has_retryable_status
          (config_or_default {F = ℕ} 0 none).retryable_status_codes
          (some (record { status_code = 502; header = []; body = none }))
        ≡ true)
    × ((config_or_default {F = ℕ} 0 (some config)).max_delay ≡ pos 250)
unfolding program config_or_default default_config
defaults = (refl, refl, refl)
