-- ===== src/Oauth/Tokens.antt =====
-- middleware/oauth/oauth.go: which token `getValidToken` returns, and what it keeps.
use httpio.Base.{
  ap, time_add, ℕ, ◌≡◌, refl, sym, subst, ◌⊎◌, inl, inr, true, some, arith, Option-cases,
}
use httpio.Oauth.{TokenResponse, Config, State, Result, failed, ok, Platform}
use httpio.Oauth.Requests.{has_refresh_token, refresh_existing_token, fetch_new_token}
use httpio.Oauth.Access.{
  seconds, is_early, call, store, fetch_and_store, refresh_or_fetch, cached, check_token,
  get_locked, get_valid_token,
}

pub Result-cases : {A : Type 0} (r : Result A) → ((e : _) × (r ≡ failed e)) ⊎ ((a : A) × (r ≡ ok a))
Result-cases (failed e) = inl (e, refl)
Result-cases (ok a) = inr (a, refl)

module _ {W : Type 0} (platform : Platform W) (config : Config W) where
  -- A request of the middleware to the token endpoint has given the token.
  abbrev pub IsSent : State → TokenResponse → W → Type 0
  IsSent s t v =
      (u : W) × ((fetch_new_token platform config s u ≡ (ok t, v))
        ⊎ (refresh_existing_token platform config s u ≡ (ok t, v)))

  -- The state's own token, while it is not about to expire, or a new one that was sent: its expiry is
  -- counted from the reading of the clock that comes next, and then the callback is called.
  abbrev pub IsFrom : State → TokenResponse → State → W → Type 0
  IsFrom s t s' w =
      ((s' ≡ s)
        × ((u : W) × (is_early platform config (platform.now u).0 s ≡ true)
            × (w ≡ (platform.now u).1)))
      ⊎ ((v : W) × IsSent s t v
          × (s'.token_expires_at ≡ time_add (platform.now v).0 (seconds t.expires_in))
          × (w ≡ call config.on_new_token t (platform.now v).1))

  -- An error leaves the state; a token returned is the one kept.
  abbrev pub Answered : State → Result TokenResponse × State × W → Type 0
  Answered s (failed e, s', w) = s' ≡ s
  Answered s (ok t, s', w) = (s'.current_token ≡ some t) × IsFrom s t s' w

  pub cached-some :
      (s : State) (t : ℕ) (token : TokenResponse)
      → cached platform config s t ≡ some token
      → s.current_token ≡ some token
  unfolding cached
  cached-some s t token h = ground arith

  cached-early :
      (s : State) (t : ℕ) (token : TokenResponse)
      → cached platform config s t ≡ some token
      → is_early platform config t s ≡ true
  unfolding cached
  cached-early s t token h = ground arith

  check_token-IsFrom :
      (s : State) (w : W) (token : TokenResponse)
      → (check_token platform config s w).0 ≡ some token
      → (s.current_token ≡ some token) × IsFrom s token s (check_token platform config s w).1
  unfolding check_token
  check_token-IsFrom s w token h = elim (Option-cases s.current_token) [
    | inl n ↦ absurd (ground (arith, n, h))
    | inr (t, given) ↦
        let hit : cached platform config s (platform.now w).0 ≡ some token =
          ground (arith, given, h) in
        (
          cached-some s (platform.now w).0 token hit,
          inl (
            refl,
            (w, cached-early s (platform.now w).0 token hit, rw (given, check_token) refl),
          ),
        )
  ]

  store-Answered :
      (s : State) (token : TokenResponse) (v : W)
      → IsSent s token v
      → Answered s (store platform config token v)
  unfolding store
  store-Answered s token v sent = (refl, inr (v, sent, refl, refl))

  fetch_and_store-Answered : (s : State) (w : W) → Answered s (fetch_and_store platform config s w)
  unfolding fetch_and_store
  fetch_and_store-Answered s w =
      let v = (fetch_new_token platform config s w).1 in
      elim (Result-cases (fetch_new_token platform config s w).0) [
        | inl (e, h) ↦ rw (h, fetch_and_store) refl
        | inr (t, h) ↦ rw (h, fetch_and_store) (store-Answered s t v (w, inl (ap (λ r. (r, v)) h)))
      ]

  refresh_or_fetch-Answered :
      (s : State) (w : W) → Answered s (refresh_or_fetch platform config s w)
  unfolding refresh_or_fetch
  refresh_or_fetch-Answered s w = elim (Option-cases (has_refresh_token s.current_token)) [
    | inl n ↦ rw (n, refresh_or_fetch) (fetch_and_store-Answered s w)
    | inr (u, some_token) ↦ elim (Result-cases (refresh_existing_token platform config s w).0) [
      | inl (e, h) ↦ rw (some_token, refresh_or_fetch, h) (fetch_and_store-Answered s _)
      | inr (t, h) ↦
          let v = (refresh_existing_token platform config s w).1 in
          rw (some_token, refresh_or_fetch, h) (store-Answered s t v (w, inr (ap (λ r. (r, v)) h)))
    ]
  ]

  get_locked-Answered : (s : State) (w : W) → Answered s (get_locked platform config s w)
  unfolding get_locked
  get_locked-Answered s w = elim (Option-cases (check_token platform config s w).0) [
    | inl n ↦ rw (n, get_locked) (refresh_or_fetch-Answered s _)
    | inr (t, h) ↦ rw (h, get_locked) (check_token-IsFrom s w t h)
  ]

  -- Where `getValidToken` fails, the state is as before; a token that it returns is the one that it
  -- keeps. Either the state is as before and the clock read so early that the token is not about to
  -- expire; or the token is the answer to a request for a new token or a refreshed one, its expiry is
  -- its lifetime after the reading of the clock just after this answer, and the callback for new tokens
  -- was called with it last.
  pub get_valid_token-Answered :
      (s : State) (w : W) → Answered s (get_valid_token platform config s w)
  unfolding get_valid_token
  get_valid_token-Answered s w = elim (Option-cases (check_token platform config s w).0) [
    | inl n ↦ rw (n, get_valid_token) (get_locked-Answered s _)
    | inr (t, h) ↦ rw (h, get_valid_token) (check_token-IsFrom s w t h)
  ]

  -- If a call under the write lock has returned a token, and the next call under the lock reads the
  -- clock early enough for the expiry left by the first, then it returns the same token, leaves the
  -- state, and does nothing but read the clock.
  pub get_locked-shares :
      (s s' : State) (w w' u : W) (t : TokenResponse)
      → get_locked platform config s w ≡ (ok t, s', w')
      → is_early platform config (platform.now u).0 s' ≡ true
      → get_locked platform config s' u ≡ (ok t, s', (platform.now u).1)
  unfolding get_locked check_token cached
  get_locked-shares s s' w w' u t h early =
      subst
        (λ c.
          get_locked platform config (record s' { current_token = c }) u
          ≡ (ok t, record s' { current_token = c }, (platform.now u).1))
        (sym (subst (Answered s) h (get_locked-Answered s w)).0)
        (rw (early, get_locked, check_token, cached))
