-- ===== src/Oauth/Access.antt =====
-- middleware/oauth/oauth.go: the token that the middleware keeps, and its handler.
use httpio.Base.{
  int64_times, time_add, ℕ, ◌^◌, ℤ, Bool, Option, none, some, bytes, ltb, ◌==◌, if◌then◌else◌,
}
use httpio.Http.{Error, errorf, wrap, Request, Context, Answer, Handler}
use httpio.Http.Headers.{set}
use httpio.Oauth.{TokenResponse, Config, State, Result, failed, ok, Platform}
use httpio.Oauth.Requests.{has_refresh_token, refresh_existing_token, fetch_new_token}

-- `time.Duration(n) * time.Second`, in 64 bits.
unfoldable pub seconds : ℤ → ℤ
seconds n = int64_times (10 ^ 9) n

abbrev pub call : {A W : Type 0} → Option (A → W → W) → A → W → W
call none a w = w
call (some f) a w = f a w

module _ {W : Type 0} (platform : Platform W) (config : Config W) where
  -- `time.Now().Add(m.config.RefreshThreshold).Before(m.tokenExpiresAt)`
  abbrev pub is_early : ℕ → State → Bool
  is_early t s = ltb (time_add t config.refresh_threshold) s.token_expires_at

  -- `m.currentToken = token` with its expiry, and the callback.
  unfoldable pub store : TokenResponse → W → Result TokenResponse × State × W
  store token w =
      let read = platform.now w in
      (
        ok token,
        record {
          current_token = some token;
          token_expires_at = time_add read.0 (seconds token.expires_in);
        },
        call config.on_new_token token read.1,
      )

  -- The end of `getValidToken`, where a refresh has failed or was not tried.
  unfoldable pub fetch_and_store : State → W → Result TokenResponse × State × W
  fetch_and_store s w =
      let fetched = fetch_new_token platform config s w in
      elim fetched.0 [
        | failed e ↦ (failed e, s, call config.on_token_error e fetched.1)
        | ok token ↦ store token fetched.1
      ]

  abbrev refresh_failed : Error → Error
  refresh_failed =
      wrap (bytes "oauth middleware: refresh token failed, falling back to new token: ")

  unfoldable pub refresh_or_fetch : State → W → Result TokenResponse × State × W
  refresh_or_fetch s w = elim (has_refresh_token s.current_token) [
    | none ↦ fetch_and_store s w
    | some _ ↦
        let refreshed = refresh_existing_token platform config s w in
        elim refreshed.0 [
          | ok token ↦ store token refreshed.1
          | failed e ↦ fetch_and_store s (call config.on_token_error (refresh_failed e) refreshed.1)
        ]
  ]

  -- The token of a state at an instant, unless it is missing or about to expire.
  unfoldable pub cached : State → ℕ → Option TokenResponse
  cached s t = elim s.current_token [
    | none ↦ none
    | some token ↦ if is_early t s then some token else none
  ]

  -- A look at the token under a lock; the condition is read from left to right.
  unfoldable pub check_token : State → W → Option TokenResponse × W
  unfolding cached
  check_token s w = elim s.current_token [
    | none ↦ (none, w)
    | some _ ↦ let read = platform.now w in (cached s read.0, read.1)
  ]

  -- The part of `getValidToken` under the write lock.
  unfoldable pub get_locked : State → W → Result TokenResponse × State × W
  get_locked s w =
      let checked = check_token s w in
      elim checked.0 [ some token ↦ (ok token, s, checked.1) | none ↦ refresh_or_fetch s checked.1 ]

  -- `getValidToken(ctx)`, where no other call comes between its two locks.
  unfoldable pub get_valid_token : State → W → Result TokenResponse × State × W
  get_valid_token s w =
      let checked = check_token s w in
      elim checked.0 [ some token ↦ (ok token, s, checked.1) | none ↦ get_locked s checked.1 ]

  -- `m.currentToken = nil`
  unfoldable pub forget : State → State
  forget s = record s { current_token = none }

  abbrev no_response : Error
  no_response = errorf (bytes "oauth middleware: next handler returned nil response")

  -- What is made of the next handler's results: its error is not looked at.
  unfoldable pub judge : Answer (State × W) → Answer (State × W)
  unfolding forget
  judge a = elim a.response [
    | none ↦ record a { error = some no_response }
    | some res ↦
        if res.status_code == 401
        then record a { error = none; world = (forget a.world.0, a.world.1) }
        else record a { error = none }
  ]

  -- The handler behind `getValidToken`.
  unfoldable pub with_token :
      Handler (State × W)
      → Context
      → Request
      → Result TokenResponse × State × W
      → Answer (State × W)
  with_token next ctx req (failed e, s, w) = record {
    response = none;
    error = some (wrap (bytes "oauth middleware: failed to get token: ") e);
    request = req;
    world = (s, w);
  }
  with_token next ctx req (ok token, s, w) =
      let value = platform.sprintf config.header_format token.access_token in
      judge (next ctx (record req { header = set req.header config.header_name value }) (s, w))

  -- `Handle(next)`; the world holds the middleware's state, which the next handler, or calls that
  -- run beside it, may change.
  unfoldable pub handle : Handler (State × W) → Handler (State × W)
  handle next ctx req (s, w) = with_token next ctx req (get_valid_token s w)
