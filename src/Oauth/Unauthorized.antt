-- ===== src/Oauth/Unauthorized.antt =====
-- middleware/oauth/oauth.go: what `Handle` makes of a 401, of an error, and of the refresh_token
-- grant.
use httpio.Base.{
  ◌≡◌, refl, sym, ap, ◌∙◌, subst, inl, inr, ◌==◌, Option, none, some, Bool-cases, Option-cases,
  bytes, eq,
}
use httpio.Http.Headers.{set}
use httpio.Http.{Error, errorf, Request, Response, Context, Answer, Handler}
use httpio.Oauth.{TokenResponse, Config, State, Result, failed, ok, Platform, initial}
use httpio.Oauth.Requests.{fetch_new_token, grant_params}
use httpio.Oauth.Access.{
  fetch_and_store, refresh_or_fetch, check_token, get_locked, get_valid_token, handle, with_token,
  judge, forget, call,
}

module _ {W : Type 0} (platform : Platform W) (config : Config W) where
  no_token_fetches :
      (s : State) (w : W)
      → s.current_token ≡ none
      → get_valid_token platform config s w ≡ fetch_and_store platform config s w
  unfolding get_valid_token get_locked refresh_or_fetch check_token
  no_token_fetches s w h =
      subst
        (λ c.
          get_valid_token platform config (record s { current_token = c }) w
          ≡ fetch_and_store platform config (record s { current_token = c }) w)
        (sym h) refl

  judge_forgets :
      (a : Answer (State × W)) (res : Response)
      → a.response ≡ some res
      → res.status_code ≡ 401
      → (judge platform config a).world.0.current_token ≡ none
  unfolding judge forget
  judge_forgets a res h unauthorized = rw (h, judge, unauthorized)

  judge-response : (a : Answer (State × W)) → (judge platform config a).response ≡ a.response
  unfolding judge
  judge-response a = elim (Option-cases a.response) [
    | inl n ↦ rw (n, judge) n
    | inr (res, r) ↦ elim (Bool-cases (res.status_code == 401)) [
      | inl u ↦ rw (r, judge, u) r
      | inr o ↦ rw (r, judge, o) r
    ]
  ]

  judge_ignores :
      (e : Option Error) (a : Answer (State × W))
      → judge platform config (record a { error = e }) ≡ judge platform config a
  unfolding judge
  judge_ignores e a = elim (Option-cases a.response) [
    | inl n ↦ rw (n, judge)
    | inr (res, r) ↦ elim (Bool-cases (res.status_code == 401)) [
      | inl u ↦ rw (r, judge, u)
      | inr o ↦ rw (r, judge, o)
    ]
  ]

  -- A next handler with its errors replaced.
  abbrev pub with_error : Option Error → Handler (State × W) → Handler (State × W)
  with_error e next ctx req w = record (next ctx req w) { error = e }

  with_token_ignores :
      (e : Option Error) (next : Handler (State × W)) (ctx : Context) (req : Request)
      (got : Result TokenResponse × State × W)
      → with_token platform config (with_error e next) ctx req got
        ≡ with_token platform config next ctx req got
  unfolding with_token
  with_token_ignores e next ctx req (failed f, s, w) = refl
  with_token_ignores e next ctx req (ok t, s, w) =
      let value = platform.sprintf config.header_format t.access_token in
      judge_ignores e
        (next ctx (record req { header = set req.header config.header_name value }) (s, w))

  -- What the middleware answers does not depend on the next handler's error.
  pub handle_ignores_error :
      (e : Option Error) (next : Handler (State × W)) (ctx : Context) (req : Request) (s : State)
      (w : W)
      → handle platform config (with_error e next) ctx req (s, w)
        ≡ handle platform config next ctx req (s, w)
  unfolding handle
  handle_ignores_error e next ctx req s w =
      with_token_ignores e next ctx req (get_valid_token platform config s w)

  with_token_unauthorized :
      (next : Handler (State × W)) (ctx : Context) (req : Request)
      (got : Result TokenResponse × State × W) (res : Response)
      → (with_token platform config next ctx req got).response ≡ some res
      → res.status_code ≡ 401
      → (with_token platform config next ctx req got).world.0.current_token ≡ none
  unfolding with_token
  with_token_unauthorized next ctx req (failed f, s, w) res h unauthorized = cc
  with_token_unauthorized next ctx req (ok t, s, w) res h unauthorized =
      let value = platform.sprintf config.header_format t.access_token in
      let a = next ctx (record req { header = set req.header config.header_name value }) (s, w) in
      judge_forgets a res (sym (judge-response a) ∙ h) unauthorized

  -- Where the next handler answers 401, the token is forgotten with its refresh token, so the call
  -- after it, if no other comes between, asks for a new one whatever the clock says.
  pub handle_unauthorized :
      (next : Handler (State × W)) (ctx : Context) (req : Request) (s : State) (w : W)
      (res : Response) (u : W)
      → (handle platform config next ctx req (s, w)).response ≡ some res
      → res.status_code ≡ 401
      → get_valid_token platform config (handle platform config next ctx req (s, w)).world.0 u
        ≡ fetch_and_store platform config (handle platform config next ctx req (s, w)).world.0 u
  unfolding handle
  handle_unauthorized next ctx req s w res u h unauthorized = no_token_fetches _ u (
      with_token_unauthorized next ctx req (get_valid_token platform config s w) res h unauthorized)

  abbrev missing : Error
  missing = errorf (bytes "oauth middleware: missing refresh token")

  refresh_fetch_fails :
      (w : W)
      → config.grant_type ≡ bytes "refresh_token"
      → (fetch_new_token platform config initial w) ≡ (failed missing, w)
  unfolding fetch_new_token grant_params eq
  refresh_fetch_fails w h = rw (h, fetch_new_token, grant_params, eq)

  initial_fails :
      (w : W)
      → config.grant_type ≡ bytes "refresh_token"
      → fetch_and_store platform config initial w
        ≡ (failed missing, initial, call config.on_token_error missing w)
  unfolding fetch_and_store
  initial_fails w h =
      rw (ap (λ f. f.0) (refresh_fetch_fails w h), fetch_and_store)
        (ap (λ f. (failed missing, initial, call config.on_token_error missing f.1))
          (refresh_fetch_fails w h))

  -- With the refresh_token grant a new middleware gets no token: whatever the next handler and the
  -- server do, the answer has no response, and the state stays without a token, as it was.
  pub refresh_grant_never_starts :
      (next : Handler (State × W)) (ctx : Context) (req : Request) (w : W)
      → config.grant_type ≡ bytes "refresh_token"
      → ((handle platform config next ctx req (initial, w)).response ≡ none)
        × ((handle platform config next ctx req (initial, w)).world.0 ≡ initial)
  unfolding handle with_token
  refresh_grant_never_starts next ctx req w h =
      let fails = no_token_fetches initial w refl ∙ initial_fails w h in
      (
        ap (λ got. (with_token platform config next ctx req got).response) fails,
        ap (λ got. (with_token platform config next ctx req got).world.0) fails,
      )
