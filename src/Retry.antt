-- ===== src/Retry.antt =====
-- middleware/retry/retry.go. The world of a handler holds the response bodies that have been
-- closed; waiting and the random source are the host's.
pub mod Float64
pub mod Attempts
pub mod Count
pub mod Bodies
pub mod Faults
pub mod Guarded
pub mod Resend
mod Tests
use httpio.Base.{
  ℕ, zero, suc, ◌+◌, Bool, true, false, ◌&&◌, not, List, [], ◌∷◌, Option, none, some, ltb, ℤ, pos,
  rounds, is_some, if◌then◌else◌, any, ◌==◌, Bytes,
}
use httpio.Http.{Error, BodySource, gives, fails, Request, Response, Handler, Answer, Context}
use httpio.Middleware.{Middleware}
use Float64.{Float}

-- Bodies are named by numbers; `closed` has those that `Close` was called on, the latest first.
pub record World (V : Type 0) : Type 0 where
  pub closed : List ℕ
  pub rest : V

-- `select { case <-ctx.Done(): ... case <-time.After(d): }` gives the context's error, or nothing;
-- `rng.Float64()` gives a number.
pub record Host (V F : Type 0) : Type 0 where
  pub wait : ℤ → V → Option Error × V
  pub random : V → F × V

pub record Config (F : Type 0) : Type 0 where
  pub max_retries : ℤ
  pub retryable_status_codes : List ℕ
  pub base_delay : ℤ
  pub max_delay : ℤ
  pub error_predicate : Option (Error → Bool)
  pub jitter_factor : F

-- `DefaultConfig()`; `no_jitter` is the number 0 as a float64.
unfoldable pub default_config : {F : Type 0} → F → Config F
default_config no_jitter = record {
  max_retries = pos 3;
  retryable_status_codes = 408 ∷ 500 ∷ 502 ∷ 503 ∷ 504 ∷ [];
  base_delay = pos 100000000;
  max_delay = pos 10000000000;
  error_predicate = some (λ e. true);
  jitter_factor = no_jitter;
}

-- `New(config)`: a configuration that is given is taken as it is.
unfoldable pub config_or_default : {F : Type 0} → F → Option (Config F) → Config F
unfolding default_config
config_or_default no_jitter none = default_config no_jitter
config_or_default no_jitter (some config) = config

-- `if resp != nil && resp.Body != nil { resp.Body.Close() }`
unfoldable pub close_body : {V : Type 0} → Option Response → World V → World V
close_body none w = w
close_body (some r) w = elim r.body [ none ↦ w | some b ↦ record w { closed = b ∷ w.closed } ]

-- The status part of `shouldRetry`.
unfoldable pub has_retryable_status : List ℕ → Option Response → Bool
has_retryable_status codes none = false
has_retryable_status codes (some r) = any (λ c. c == r.status_code) codes

should_retry_error : Option (Error → Bool) → Error → List ℕ → Option Response → Bool
should_retry_error (some p) e codes resp = p e
should_retry_error none e codes resp = has_retryable_status codes resp

-- `shouldRetry(config, resp, err)`
unfoldable pub should_retry : {F : Type 0} → Config F → Option Response → Option Error → Bool
unfolding should_retry_error
should_retry config resp (some e) =
    should_retry_error config.error_predicate e config.retryable_status_codes resp
should_retry config resp none = has_retryable_status config.retryable_status_codes resp

-- `resp != nil && resp.StatusCode < 500 && err == nil`
unfoldable pub is_below_500 : Option Response → Option Error → Bool
is_below_500 (some r) none = ltb r.status_code 500
is_below_500 _ _ = false

-- The request of the next attempt: a clone with a fresh body, or the error to return, where a
-- missing one stands for the last error.
pub data Clone : Type 0 where
  fresh : Request → Clone
  broken : Error → Clone
  unrepeatable : Clone

unfoldable pub clone_request : Request → Clone
clone_request req = elim req.body [
  | none ↦ fresh req
  | some b ↦ elim req.get_body [
    | none ↦ unrepeatable
    | some source ↦ elim source [
      | gives b' ↦ fresh (record req { body = some b' })
      | fails e ↦ broken e
    ]
  ]
]

-- A round returns, or leaves the last results for the next round.
pub data Progress (V : Type 0) : Type 0 where
  done : Answer (World V) → Progress V
  again : Answer (World V) → Progress V

abbrev is_positive : ℤ → Bool
is_positive (pos (suc n)) = true
is_positive _ = false

module _ (float : Float) where
  open float use {F, of_int, to_int, mul, add, sub, pow2, gt}

  -- `if config.MaxDelay > 0 && d > float64(config.MaxDelay) { d = float64(config.MaxDelay) }`
  unfoldable pub cap_delay : ℤ → F → F
  cap_delay max_delay d =
      if is_positive max_delay && gt d (of_int max_delay) then of_int max_delay else d

  -- The exponential delay with its jitter; `u` is what `rng.Float64()` gives.
  unfoldable pub jittered : Config F → ℕ → F → F
  jittered config attempt u =
      let delay = cap_delay config.max_delay (mul (of_int config.base_delay) (pow2 attempt)) in
      let jitter =
        mul (mul delay config.jitter_factor) (sub (mul (of_int (pos 2)) u) (of_int (pos 1))) in
      add delay jitter

  -- `calcBackoff(config, attempt)`
  unfoldable pub calc_backoff : Config F → ℕ → F → ℤ
  calc_backoff config attempt u = to_int (cap_delay config.max_delay (jittered config attempt u))

  module _ {V : Type 0} (host : Host V F) (config : Config F) (next : Handler (World V)) where
    abbrev returns : Option Response → Option Error → Request → World V → Answer (World V)
    returns resp err req w = record { response = resp; error = err; request = req; world = w }

    -- The `select` of a round: the random number, and then the wait.
    unfoldable pub back_off : ℕ → World V → Option Error × World V
    back_off attempt w =
        let (u, v) = host.random w.rest in
        let (stopped, v') = host.wait (calc_backoff config attempt u) v in
        (stopped, record w { rest = v' })

    -- After an attempt: `lastResp` and `lastErr` are its results, and `req` is what it was.
    unfoldable pub judge : Request → Answer (World V) → Progress V
    judge req a =
        let kept = returns a.response a.error req a.world in
        if is_below_500 a.response a.error
        then done kept
        else if should_retry config a.response a.error
        then again kept
        else done kept

    -- The attempt itself, with the clone of the request.
    unfoldable pub attempt_with :
        Clone → Option Response → Option Error → Context → Request → World V → Progress V
    attempt_with (broken e) last_resp last_err ctx req w = done (returns last_resp (some e) req w)
    attempt_with unrepeatable last_resp last_err ctx req w = done (returns last_resp last_err req w)
    attempt_with (fresh retry_req) last_resp last_err ctx req w = judge req (next ctx retry_req w)

    -- What follows the `select`.
    unfoldable pub after_wait :
        Option Error → Option Response → Option Error → Context → Request → World V → Progress V
    after_wait (some e) last_resp last_err ctx req w = done (returns last_resp (some e) req w)
    after_wait none last_resp last_err ctx req w =
        attempt_with (clone_request req) last_resp last_err ctx req w

    -- The body of the loop of `Handle`.
    unfoldable pub round :
        ℕ → Option Response → Option Error → Context → Request → World V → Progress V
    round attempt last_resp last_err ctx req w =
        let waited = back_off attempt (close_body last_resp w) in
        after_wait waited.0 last_resp last_err ctx req waited.1

    -- The loop, with the rounds that are left.
    unfoldable pub attempts :
        ℕ → ℕ → Option Response → Option Error → Context → Request → World V → Answer (World V)
    attempts zero attempt last_resp last_err ctx req w = returns last_resp last_err req w
    attempts (suc n) attempt last_resp last_err ctx req w =
        elim (round attempt last_resp last_err ctx req w) [
          | done a ↦ a
          | again a ↦ attempts n (suc attempt) a.response a.error ctx req a.world
        ]

    -- `err == nil && resp != nil && !shouldRetry(m.config, resp, err)`
    unfoldable pub is_settled : Option Response → Option Error → Bool
    is_settled resp err = not (is_some err) && is_some resp && not (should_retry config resp err)

    -- `Handle(next)`
    unfoldable pub handle : Handler (World V)
    handle ctx req w =
        let a = next ctx req w in
        if is_settled a.response a.error
        then a
        else attempts (rounds config.max_retries) 0 a.response a.error ctx a.request a.world

  -- `New(config)` as a middleware.
  unfoldable pub middleware : {V : Type 0} → Host V F → Config F → Middleware (World V)
  middleware host config = record { handle = handle host config }
