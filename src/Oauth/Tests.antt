-- ===== src/Oauth/Tests.antt =====
-- The OAuth middleware at concrete inputs.
use httpio.Base.{signed, ℕ, ◌+◌, ◌≡◌, refl, ap, subst, true, [], ◌∷◌, none, some, bytes, eq, pos}
use httpio.Http.{foreign, Request, Response, Handler}
use httpio.Http.Headers.{set, put, canonical, get, values}
use httpio.Oauth.{
  TokenResponse, Config, State, Result, ok, failed, Platform, default_config, fill_in, initial,
}
use httpio.Oauth.Requests.{
  read_token, send_token_request, refresh_existing_token, grant_params, fetch_new_token,
}
use httpio.Oauth.Access.{
  seconds, is_early, store, fetch_and_store, refresh_or_fetch, cached, check_token, get_locked,
  get_valid_token, forget, judge, with_token, handle,
}
use httpio.Oauth.Tokens.{Answered, get_valid_token-Answered}
use httpio.Oauth.Sharing
use httpio.Oauth.Unauthorized.{handle_unauthorized}

program : Unit {0}
unfolding read_token send_token_request refresh_existing_token grant_params fetch_new_token seconds
    signed store fetch_and_store refresh_or_fetch cached check_token get_locked get_valid_token
    forget judge with_token handle default_config fill_in eq put set canonical get values
program = tt

abbrev token : TokenResponse
token = record {
  access_token = bytes "abc";
  token_type = bytes "bearer";
  expires_in = pos 3600;
  refresh_token = bytes "next";
  scope = [];
}

abbrev request : Request
request = record {
  method = bytes "GET";
  url = bytes "http://host/";
  host = bytes "host";
  path = bytes "/";
  header = [];
  body = none;
  get_body = none;
  content_length = pos 0;
}

abbrev answer : ℕ → Response
answer code = record { status_code = code; header = []; body = none }

-- A server that gives one token; the world is the clock, and each request takes a second.
abbrev server : Platform ℕ
server = record {
  now = λ w. (w, w);
  new_request = λ m u b. ok request;
  client_do = λ r w. (ok (answer 200), w + 1000000000);
  decode = λ r w. (ok token, w);
  close = λ r w. w;
  encode = λ v. [];
  sprintf = λ f s. s;
  show_status = λ n. [];
}

abbrev config : Config ℕ
config = default_config

abbrev next : ℕ → Handler (State × ℕ)
next code ctx req sw = record {
  response = some (answer code);
  error = some (foreign 7);
  request = req;
  world = sw;
}

abbrev kept : State
kept = record { current_token = some token; token_expires_at = 3601000000000 }

get_valid_token-Answered_example :
    Answered server config initial (get_valid_token server config initial 0)
get_valid_token-Answered_example = get_valid_token-Answered server config initial 0

fetched : get_locked server config initial 0 ≡ (ok token, kept, 1000000000)
unfolding program
fetched = refl

early : is_early server config 2000000000 kept ≡ true
unfolding program
early = refl

rejected : (handle server config (next 401) [] request (initial, 0)).response ≡ some (answer 401)
unfolding program
rejected = refl

handle_unauthorized_example :
    get_valid_token server config
      (handle server config (next 401) [] request (initial, 0)).world.0
      5
    ≡ fetch_and_store server config
        (handle server config (next 401) [] request (initial, 0)).world.0
        5
handle_unauthorized_example =
    handle_unauthorized server config (next 401) [] request initial 0 (answer 401) 5 rejected refl

abbrev refreshing : Config ℕ
refreshing = record config { grant_type = bytes "refresh_token" }

sends_token :
    get
      (handle server config (next 200) [] request (initial, 0)).request.header
      (bytes "authorization")
    ≡ bytes "abc"
unfolding program
sends_token = refl

-- A server whose clock stands still.
abbrev still : Platform ℕ
still = record server { now = λ w. (0, w) }

abbrev token_of : Result TokenResponse → TokenResponse
token_of (ok t) = t
token_of (failed e) = token

still_lasts :
    (s : State) (w : ℕ) (t : TokenResponse)
    → (fetch_new_token still config s w).0 ≡ ok t
    → (v u : ℕ) → is_early still config (still.now u).0 (store still config t v).1 ≡ true
unfolding program
still_lasts s w t h v u =
    subst (λ x. is_early still config (still.now u).0 (store still config x v).1 ≡ true)
      (ap token_of h) refl

abbrev kept_still : State
kept_still = record { current_token = some token; token_expires_at = 3600000000000 }

-- Two requests look at the token before either has the write lock.
abbrev two_requests : Sharing.System ℕ
two_requests = record { state = initial; world = 0; waiting = 2; locking = 0; served = [] }

abbrev both_served : Sharing.System ℕ
both_served = record {
  state = kept_still;
  world = 1000000000;
  waiting = 0;
  locking = 0;
  served = token ∷ token ∷ [];
}

interleaved : Sharing.Reach still config two_requests both_served
unfolding program
interleaved =
    Sharing.next
      (Sharing.next
        (Sharing.next (Sharing.next Sharing.here (Sharing.misses initial 0 1 0 [] refl))
          (Sharing.misses initial 0 0 1 [] refl))
        (Sharing.gets initial kept_still 0 1000000000 0 1 [] token refl))
      (Sharing.gets kept_still kept_still 1000000000 1000000000 0 0 (token ∷ []) token refl)

reach-AreSame_example : Sharing.AreSame still config still_lasts both_served.served
reach-AreSame_example =
    Sharing.reach-AreSame still config still_lasts initial 0 2 both_served refl interleaved
