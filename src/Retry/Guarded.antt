-- ===== src/Retry/Guarded.antt =====
-- middleware/retry/retry.go around middleware/circuitbreaker/circuit_breaker.go: the retry middleware
-- in one chain with a circuit breaker behind it.
use httpio.Base.{
  ℕ, zero, suc, ◌+◌, ◌≤◌, ◌≡◌, refl, sym, subst, ◌∙◌, inl, ℤ, true, [], ◌∷◌, Option, none, some,
  is_some, rounds, arith, if_either, if◌then◌else◌, ap,
}
use httpio.Http.{Error, Request, Response, Handler, Answer, Context}
use httpio.Middleware.{Middleware, chain}
use httpio.Breaker
use httpio.Breaker.{CircuitBreaker, state_open, rejected_open}
use httpio.Breaker.Recovery.{handle_of_Blocks}
use httpio.Retry.{
  World, Host, Config, middleware, close_body, is_below_500, should_retry, clone_request, Clone,
  fresh, broken, unrepeatable, back_off, Progress, done, again, judge, attempt_with, after_wait,
  round, attempts, is_settled, handle,
}
use httpio.Retry.Float64.{Float}

module _ (float : Float) {V : Type 0} (host : Host V float.F) (config : Config float.F)
    (next : Handler (World V)) (Q : V → Type 0) where
  -- Waiting and the random source keep the predicate; where it holds, the next handler only
  -- answers with an error.
  pub record Rejects (e : Error) : Type 0 where
    pub on_wait : (d : ℤ) (v : V) → Q v → Q (host.wait d v).1
    pub on_random : (v : V) → Q v → Q (host.random v).1
    pub on_call :
        (ctx : Context) (req : Request) (w : World V)
        → Q w.rest
        → next ctx req w ≡ record { response = none; error = some e; request = req; world = w }

  -- An error without a response, in a world where the predicate holds.
  abbrev IsRejected : Answer (World V) → Type 0
  IsRejected a = (a.response ≡ none) × (is_some a.error ≡ true) × Q a.world.rest

  abbrev GoesOn : Progress V → Type 0
  GoesOn (done a) = IsRejected a
  GoesOn (again a) = IsRejected a

  module _ (e : Error) (rejects : Rejects e) (ctx : Context) where
    judge-GoesOn :
        (req r : Request) (w : World V)
        → Q w.rest
        → GoesOn (judge float host config next req (next ctx r w))
    unfolding judge is_below_500 should_retry
    judge-GoesOn req r w q =
        subst (λ a. GoesOn (judge float host config next req a)) (sym (rejects.on_call ctx r w q))
          (if_either GoesOn (should_retry config none (some e)) _ _ (refl, refl, q) (refl, refl, q))

    attempt_with-GoesOn :
        (clone : Clone) (err : Option Error) (req : Request) (w : World V)
        → is_some err ≡ true
        → Q w.rest
        → GoesOn (attempt_with float host config next clone none err ctx req w)
    unfolding attempt_with
    attempt_with-GoesOn (broken f) err req w h q = (refl, refl, q)
    attempt_with-GoesOn unrepeatable err req w h q = (refl, h, q)
    attempt_with-GoesOn (fresh r) err req w h q = judge-GoesOn req r w q

    after_wait-GoesOn :
        (stop : Option Error) (err : Option Error) (req : Request) (w : World V)
        → is_some err ≡ true
        → Q w.rest
        → GoesOn (after_wait float host config next stop none err ctx req w)
    unfolding after_wait
    after_wait-GoesOn (some f) err req w h q = (refl, refl, q)
    after_wait-GoesOn none err req w h q = attempt_with-GoesOn (clone_request req) err req w h q

    round-GoesOn :
        (attempt : ℕ) (resp : Option Response) (err : Option Error) (req : Request) (w : World V)
        → resp ≡ none
        → is_some err ≡ true
        → Q w.rest
        → GoesOn (round float host config next attempt resp err ctx req w)
    unfolding round back_off close_body
    round-GoesOn attempt resp err req w n h q =
        subst (λ o. GoesOn (round float host config next attempt o err ctx req w)) (sym n)
          (after_wait-GoesOn _ err req _ h (rejects.on_wait _ _ (rejects.on_random w.rest q)))

    on_progress :
        (n attempt : ℕ) (req : Request) (p : Progress V)
        → ((a : Answer (World V))
            → IsRejected a
            → IsRejected (
                attempts float host config next n (suc attempt) a.response a.error ctx req a.world))
        → GoesOn p
        → IsRejected (elim p [
          | done a ↦ a
          | again a ↦
              attempts float host config next n (suc attempt) a.response a.error ctx req a.world
        ])
    on_progress n attempt req (done a) later g = g
    on_progress n attempt req (again a) later g = later a g

    attempts-IsRejected :
        (n attempt : ℕ) (resp : Option Response) (err : Option Error) (req : Request) (w : World V)
        → resp ≡ none
        → is_some err ≡ true
        → Q w.rest
        → IsRejected (attempts float host config next n attempt resp err ctx req w)
    unfolding attempts
    attempts-IsRejected zero attempt resp err req w no_resp h q = (no_resp, h, q)
    attempts-IsRejected (suc n) attempt resp err req w no_resp h q =
        on_progress n attempt req (round float host config next attempt resp err ctx req w)
          (λ a (no_resp', h', q').
            attempts-IsRejected n (suc attempt) a.response a.error req a.world no_resp' h' q')
          (round-GoesOn attempt resp err req w no_resp h q)

    handle-IsRejected :
        (req : Request) (w : World V)
        → Q w.rest
        → IsRejected (handle float host config next ctx req w)
    unfolding handle is_settled
    handle-IsRejected req w q =
        subst
          (λ a. IsRejected (
            if is_settled float host config next a.response a.error
            then a
            else attempts float host config next (rounds config.max_retries) 0 a.response a.error
                ctx a.request a.world))
          (sym (rejects.on_call ctx req w q))
          (attempts-IsRejected (rounds config.max_retries) 0 none (some e) req w refl refl q)

-- The breaker in a world that has the closed bodies too.
abbrev split : {U : Type 0} → World (CircuitBreaker × U) → CircuitBreaker × World U
split w = (w.rest.0, record { closed = w.closed; rest = w.rest.1 })

abbrev join : {U : Type 0} → CircuitBreaker × World U → World (CircuitBreaker × U)
join s = record { closed = s.1.closed; rest = (s.0, s.1.rest) }

abbrev through : {A B : Type 0} → (A → B) → (B → A) → Handler A → Handler B
through f g next ctx req w =
    let a = next ctx req (g w) in
    record { response = a.response; error = a.error; request = a.request; world = f a.world }

-- The circuit breaker as a middleware of that world.
unfoldable pub breaker : {U : Type 0} → (U → ℕ) → Middleware (World (CircuitBreaker × U))
unfolding Breaker.handle
breaker clock = record {
  handle =
      λ next. through join split (Breaker.handle (λ v. clock v.rest) (through split join next));
}

module _ (float : Float) {U : Type 0} (clock : U → ℕ) (host : Host (CircuitBreaker × U) float.F)
    (config : Config float.F) (base : Handler (World (CircuitBreaker × U))) where
  -- The breaker as it was, the time not past the limit, and a reading of the world as it was.
  abbrev pub Holds : CircuitBreaker → ℕ → (U → ℕ) → ℕ → CircuitBreaker × U → Type 0
  Holds cb limit f x v = (v.0 ≡ cb) × (clock v.1 ≤ limit) × (f v.1 ≡ x)

  -- Waiting and the random source keep a predicate.
  pub record IsSteady (Q : CircuitBreaker × U → Type 0) : Type 0 where
    pub on_wait : (d : ℤ) (v : CircuitBreaker × U) → Q v → Q (host.wait d v).1
    pub on_random : (v : CircuitBreaker × U) → Q v → Q (host.random v).1

  breaker_rejects :
      (cb : CircuitBreaker) (limit : ℕ) (f : U → ℕ) (x : ℕ) (ctx : Context) (req : Request)
      (w : World (CircuitBreaker × U))
      → cb.state ≡ state_open
      → limit ≤ cb.last_attempt + cb.recovery_timeout
      → Holds cb limit f x w.rest
      → (breaker clock).handle base ctx req w
        ≡ record { response = none; error = some rejected_open; request = req; world = w }
  unfolding breaker
  breaker_rejects cb limit f x ctx req w is_open early (same, soon, kept) =
      let blocked =
        handle_of_Blocks (λ v. clock v.rest) (through split join base) ctx req w.rest.0 (split w).1
          rejected_open
          (inl (
            ap (λ c. c.state) same ∙ is_open,
            subst (λ c. clock w.rest.1 ≤ c.last_attempt + c.recovery_timeout) (sym same)
                (omega (arith, early, soon)),
            refl,
          )) in
      ap
        (λ a. record {
          response = a.response;
          error = a.error;
          request = a.request;
          world = join a.world;
        })
        blocked

  -- In the chain of the retry middleware and a circuit breaker behind it, with any handler behind
  -- both: where the breaker's circuit is open and neither the waits nor the random source change the
  -- breaker, or bring the clock past the recovery timeout, every attempt is refused. The answer has an
  -- error and no response, the breaker is as it was, and so is any reading of the world that waiting
  -- and the random source keep, such as a count of the calls of the handler behind.
  pub chain-IsRejected :
      (cb : CircuitBreaker) (limit : ℕ) (f : U → ℕ) (x : ℕ) (ctx : Context) (req : Request)
      (w : World (CircuitBreaker × U))
      → cb.state ≡ state_open
      → limit ≤ cb.last_attempt + cb.recovery_timeout
      → IsSteady (Holds cb limit f x)
      → Holds cb limit f x w.rest
      → ((chain base (middleware float host config ∷ breaker clock ∷ []) ctx req w).response ≡ none)
        × (is_some (chain base (middleware float host config ∷ breaker clock ∷ []) ctx req w).error
            ≡ true)
        × Holds cb limit f x
            (chain base (middleware float host config ∷ breaker clock ∷ []) ctx req w).world.rest
  unfolding chain middleware
  chain-IsRejected cb limit f x ctx req w is_open early steady holds =
      handle-IsRejected float host config ((breaker clock).handle base) (Holds cb limit f x)
        rejected_open
        (record {
          on_wait = steady.on_wait;
          on_random = steady.on_random;
          on_call = λ ctx req w h. breaker_rejects cb limit f x ctx req w is_open early h;
        })
        ctx req w holds
