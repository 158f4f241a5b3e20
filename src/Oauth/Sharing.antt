-- ===== src/Oauth/Sharing.antt =====
-- middleware/oauth/oauth.go: any number of requests that want a token at once. A request looks at the
-- token under the read lock; if that does not give one, it waits for the write lock and looks again.
use httpio.Base.{
  ℕ, suc, ◌≡◌, refl, sym, ap, ◌∙◌, ◌⊎◌, inl, inr, Bool, true, false, List, [], ◌∷◌, none, some, All,
  subst, arith,
}
use httpio.Http.{Error}
use httpio.Oauth.{TokenResponse, Config, State, Result, failed, ok, Platform}
use httpio.Oauth.Requests.{fetch_new_token}
use httpio.Oauth.Access.{
  is_early, store, fetch_and_store, refresh_or_fetch, cached, check_token, get_locked,
}

-- How many requests have not looked yet, how many wait for the write lock, and the tokens that the
-- others were given.
pub record System (W : Type 0) : Type 0 where
  pub state : State
  pub world : W
  pub waiting : ℕ
  pub locking : ℕ
  pub served : List TokenResponse

module _ {W : Type 0} (platform : Platform W) (config : Config W) where
  pub data Step : System W → System W → Type 0 where
    finds :
        (s : State) (w : W) (n l : ℕ) (ts : List TokenResponse) (t : TokenResponse)
        → (check_token platform config s w).0 ≡ some t
        → Step
            (record { state = s; world = w; waiting = suc n; locking = l; served = ts })
            (record {
              state = s;
              world = (check_token platform config s w).1;
              waiting = n;
              locking = l;
              served = t ∷ ts;
            })
    misses :
        (s : State) (w : W) (n l : ℕ) (ts : List TokenResponse)
        → (check_token platform config s w).0 ≡ none
        → Step
            (record { state = s; world = w; waiting = suc n; locking = l; served = ts })
            (record {
              state = s;
              world = (check_token platform config s w).1;
              waiting = n;
              locking = suc l;
              served = ts;
            })
    gets :
        (s s' : State) (w w' : W) (n l : ℕ) (ts : List TokenResponse) (t : TokenResponse)
        → get_locked platform config s w ≡ (ok t, s', w')
        → Step
            (record { state = s; world = w; waiting = n; locking = suc l; served = ts })
            (record { state = s'; world = w'; waiting = n; locking = l; served = t ∷ ts })
    gives_up :
        (s s' : State) (w w' : W) (n l : ℕ) (ts : List TokenResponse) (e : Error)
        → get_locked platform config s w ≡ (failed e, s', w')
        → Step
            (record { state = s; world = w; waiting = n; locking = suc l; served = ts })
            (record { state = s'; world = w'; waiting = n; locking = l; served = ts })
    passes :
        (s : State) (w w' : W) (n l : ℕ) (ts : List TokenResponse)
        → Step
            (record { state = s; world = w; waiting = n; locking = l; served = ts })
            (record { state = s; world = w'; waiting = n; locking = l; served = ts })

  pub data Reach : System W → System W → Type 0 where
    here : {a : System W} → Reach a a
    next : {a b c : System W} → Reach a b → Step b c → Reach a c

  -- Before a token is there nobody has one; then it is early at every reading of the clock, and
  -- everybody has it.
  Before : System W → Type 0
  Before a = (a.state.current_token ≡ none) × (a.served ≡ [])

  After : System W → Type 0
  After a =
      (t : TokenResponse) × (a.state.current_token ≡ some t)
      × ((u : W) → is_early platform config (platform.now u).0 a.state ≡ true)
      × All (λ t'. t' ≡ t) a.served

  module _
      (lasts : (s : State) (w : W) (t : TokenResponse)
        → (fetch_new_token platform config s w).0 ≡ ok t
        → (v u : W)
        → is_early platform config (platform.now u).0 (store platform config t v).1 ≡ true) where
    early_check :
        (s : State) (w : W) (t : TokenResponse)
        → s.current_token ≡ some t
        → is_early platform config (platform.now w).0 s ≡ true
        → check_token platform config s w ≡ (some t, (platform.now w).1)
    unfolding check_token cached
    early_check s w t h early =
        subst
          (λ c.
            check_token platform config (record s { current_token = c }) w
            ≡ (some t, (platform.now w).1))
          (sym h) (rw (early, check_token, cached) refl)

    early_locked :
        (s : State) (w : W) (t : TokenResponse)
        → s.current_token ≡ some t
        → is_early platform config (platform.now w).0 s ≡ true
        → get_locked platform config s w ≡ (ok t, s, (platform.now w).1)
    unfolding get_locked
    early_locked s w t h early = let c = early_check s w t h early in rw (get_locked, c, c) refl

    none_check :
        (s : State) (w : W) → s.current_token ≡ none → check_token platform config s w ≡ (none, w)
    unfolding check_token
    none_check s w h =
        subst (λ c. check_token platform config (record s { current_token = c }) w ≡ (none, w))
          (sym h) refl

    none_locked :
        (s : State) (w : W)
        → s.current_token ≡ none
        → get_locked platform config s w ≡ fetch_and_store platform config s w
    unfolding get_locked refresh_or_fetch check_token
    none_locked s w h =
        subst
          (λ c.
            get_locked platform config (record s { current_token = c }) w
            ≡ fetch_and_store platform config (record s { current_token = c }) w)
          (sym h) refl

    abbrev token_or : TokenResponse → Result TokenResponse → TokenResponse
    token_or t (ok t') = t'
    token_or t (failed e) = t

    abbrev is_ok : Result TokenResponse → Bool
    is_ok (ok t) = true
    is_ok (failed e) = false

    -- A fetch leaves a token that is early, or fails and leaves none.
    abbrev Fetched : State → Result TokenResponse × State × W → Type 0
    Fetched s (ok t, s', w') =
        (s'.current_token ≡ some t)
        × ((u : W) → is_early platform config (platform.now u).0 s' ≡ true)
    Fetched s (failed e, s', w') = s' ≡ s

    fetch_and_store-Fetched : (s : State) (w : W) → Fetched s (fetch_and_store platform config s w)
    unfolding fetch_and_store store
    fetch_and_store-Fetched s w = go (fetch_new_token platform config s w).0 refl
      where
        go :
            (r : Result TokenResponse)
            → (fetch_new_token platform config s w).0 ≡ r
            → Fetched s (fetch_and_store platform config s w)
        go (ok t) h =
            rw (h, fetch_and_store)
              (refl, λ u. lasts s w t h (fetch_new_token platform config s w).1 u)
        go (failed e) h = rw (h, fetch_and_store) refl

    Step-Before : (a b : System W) → Step a b → Before a → Before b ⊎ After b
    unfolding Before After
    Step-Before _ _ (finds s w n l ts t hit) (absent, empty) =
        absurd (ground (arith, sym hit ∙ ap (λ x. x.0) (none_check s w absent)))
    Step-Before _ _ (misses s w n l ts miss) h = inl h
    Step-Before _ _ (gets s s' w w' n l ts t got) (absent, empty) =
        let (current, early) =
          subst (Fetched s) (sym (none_locked s w absent) ∙ got) (fetch_and_store-Fetched s w) in
        inr (t, current, early, (refl, rw empty tt))
    Step-Before _ _ (gives_up s s' w w' n l ts e got) (absent, empty) =
        let same =
          subst (Fetched s) (sym (none_locked s w absent) ∙ got) (fetch_and_store-Fetched s w) in
        inl (rw same absent, empty)
    Step-Before _ _ (passes s w w' n l ts) h = inl h

    Step-After : (a b : System W) → Step a b → After a → After b
    unfolding After
    Step-After _ _ (finds s w n l ts t' hit) (t, current, early, all) =
        let same : some t' ≡ some t =
          sym hit ∙ ap (λ x. x.0) (early_check s w t current (early w)) in
        let shared : t' ≡ t = cc in (t, current, early, (shared, all))
    Step-After _ _ (misses s w n l ts miss) (t, current, early, all) =
        absurd (ground (arith, sym miss ∙ ap (λ x. x.0) (early_check s w t current (early w))))
    Step-After _ _ (gets s s' w w' n l ts t' got) (t, current, early, all) =
        let same = sym got ∙ early_locked s w t current (early w) in
        let kept : s' ≡ s = ap (λ x. x.1) same in
        let shared : t' ≡ t = ap (λ x. token_or t x.0) same in
        (
          t,
          ap (λ x. x.current_token) kept ∙ current,
          subst (λ x. (u : W) → is_early platform config (platform.now u).0 x ≡ true) (sym kept)
              early,
          (shared, all),
        )
    Step-After _ _ (gives_up s s' w w' n l ts e got) (t, current, early, all) =
        absurd
          (ground (arith, ap (λ x. is_ok x.0) (sym got ∙ early_locked s w t current (early w))))
    Step-After _ _ (passes s w w' n l ts) h = h

    shared_on : (a b : System W) → Reach a b → Before a ⊎ After a → Before b ⊎ After b
    shared_on _ _ here h = h
    shared_on _ _ (next r st) h = elim (shared_on _ _ r h) [
      | inl before ↦ Step-Before _ _ st before
      | inr after ↦ inr (Step-After _ _ st after)
    ]

    -- All the same.
    abbrev pub AreSame : List TokenResponse → Type 0
    AreSame [] = Unit {0}
    AreSame (t ∷ ts) = All (λ t'. t' ≡ t) ts

    All-AreSame : (t : TokenResponse) (ts : List TokenResponse) → All (λ t'. t' ≡ t) ts → AreSame ts
    All-AreSame t [] all = tt
    All-AreSame t (x ∷ ts) (same, all) = subst (λ y. All (λ t'. t' ≡ y) ts) (sym same) all

    -- However the looks at the token and the turns under the write lock of any number of requests
    -- interleave, and however time passes, from a middleware without a token on: all the requests that
    -- are given a token are given the same one, if a token that the server gives is early at every
    -- reading of the clock, that is if none comes near its expiry.
    pub reach-AreSame :
        (s : State) (w : W) (n : ℕ) (b : System W)
        → s.current_token ≡ none
        → Reach (record { state = s; world = w; waiting = n; locking = 0; served = [] }) b
        → AreSame b.served
    unfolding Before After
    reach-AreSame s w n b absent r = elim (shared_on _ b r (inl (absent, refl))) [
      | inl (none_, empty) ↦ rw empty tt
      | inr (t, current, early, all) ↦ All-AreSame t b.served all
    ]
