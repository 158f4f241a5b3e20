-- ===== src/Retry/Attempts.antt =====
-- How often the retry middleware calls the next handler, and when it stops.
use httpio.Base.{
  ℕ, zero, suc, ◌≡◌, refl, ap, ◌∙◌, ◌⊎◌, inl, inr, ◌≢◌, true, false, Option, some, none, arith,
  Bool-cases, ℤ,
}
use httpio.Http.{Error, Request, Response, Handler, Answer, Context}
use httpio.Retry.{
  World, Host, Config, close_body, should_retry, is_below_500, clone_request, Clone, fresh, broken,
  unrepeatable, returns, back_off, calc_backoff, Progress, done, again, judge, attempt_with,
  after_wait, round, attempts,
}
use httpio.Retry.Float64.{Float}

module _ (float : Float) {V : Type 0} (host : Host V float.F) (config : Config float.F)
    (next : Handler (World V)) where
  -- A result that is not retried.
  abbrev pub IsFinal : Option Response → Option Error → Type 0
  IsFinal resp err = (is_below_500 resp err ≡ true) ⊎ (should_retry config resp err ≡ false)

  -- A result that is retried.
  abbrev pub IsRetried : Option Response → Option Error → Type 0
  IsRetried resp err = (is_below_500 resp err ≡ false) × (should_retry config resp err ≡ true)

  -- Why a round ends early: the wait was cut short, or the request cannot be sent again.
  abbrev pub Hinders : Option Error → Request → Type 0
  Hinders stop req = (stop ≢ none) ⊎ ((r : Request) → clone_request req ≢ fresh r)

  -- How a round goes: it ends early, with the last response, or it calls the next handler, and then
  -- its result is final or to be retried.
  pub data Round (stop : Option Error) (last_resp : Option Response) (ctx : Context) (req : Request)
      (w : World V) : Progress V → Type 0 where
    stops :
        (err : Option Error)
        → Hinders stop req
        → Round stop last_resp ctx req w (done (returns float host config next last_resp err req w))
    ends :
        (r : Request)
        → IsFinal (next ctx r w).response (next ctx r w).error
        → Round stop last_resp ctx req w (done (record (next ctx r w) { request = req }))
    repeats :
        (r : Request)
        → IsRetried (next ctx r w).response (next ctx r w).error
        → Round stop last_resp ctx req w (again (record (next ctx r w) { request = req }))

  abbrev pub waited : ℕ → Option Response → World V → Option Error × World V
  waited attempt last_resp w = back_off float host config next attempt (close_body last_resp w)

  -- The world after a round's wait.
  abbrev pub rested : ℕ → Option Response → World V → World V
  rested attempt last_resp w = (waited attempt last_resp w).1

  close_body-rest : (resp : Option Response) (w : World V) → (close_body resp w).rest ≡ w.rest
  unfolding close_body
  close_body-rest none w = refl
  close_body-rest (some r) w = ground arith

  -- A wait that the host never cuts short.
  pub waited-none :
      ((d : ℤ) (v : V) → (host.wait d v).0 ≡ none)
      → (attempt : ℕ) (resp : Option Response) (w : World V) → (waited attempt resp w).0 ≡ none
  unfolding back_off
  waited-none patient attempt resp w =
      patient (calc_backoff float config attempt (host.random (close_body resp w).rest).0)
        (host.random (close_body resp w).rest).1

  -- What waiting and the random source leave alone, a round's wait leaves alone.
  pub rested_kept {ℓ} :
      {A : Type ℓ} (f : V → A)
      → ((d : ℤ) (v : V) → f (host.wait d v).1 ≡ f v)
      → ((v : V) → f (host.random v).1 ≡ f v)
      → (attempt : ℕ) (resp : Option Response) (w : World V)
      → f (rested attempt resp w).rest ≡ f w.rest
  unfolding back_off
  rested_kept f wait random attempt resp w =
      let v = (close_body resp w).rest in
      wait (calc_backoff float config attempt (host.random v).0) (host.random v).1
      ∙ random v
      ∙ ap f (close_body-rest resp w)

  pub rested-closed :
      (attempt : ℕ) (resp : Option Response) (w : World V)
      → (rested attempt resp w).closed ≡ (close_body resp w).closed
  unfolding back_off
  rested-closed attempt resp w = refl

  judge-Round :
      (stop : Option Error) (last_resp : Option Response) (ctx : Context) (req r : Request)
      (w : World V)
      → Round stop last_resp ctx req w (judge float host config next req (next ctx r w))
  unfolding judge
  judge-Round stop last_resp ctx req r w = elim (Bool-cases (is_below_500 a.response a.error)) [
    | inl low ↦ rw (low, judge) (ends r (inl low))
    | inr high ↦ elim (Bool-cases (should_retry config a.response a.error)) [
      | inl more ↦ rw (high, more, judge) (repeats r (high, more))
      | inr enough ↦ rw (high, enough, judge) (ends r (inr enough))
    ]
  ]
    where
      a : Answer (World V)
      a = next ctx r w

  after_wait-Round :
      (stop : Option Error) (clone : Clone) (last_resp : Option Response) (last_err : Option Error)
      (ctx : Context) (req : Request) (w : World V)
      → clone_request req ≡ clone
      → Round stop last_resp ctx req w
          (after_wait float host config next stop last_resp last_err ctx req w)
  unfolding after_wait attempt_with
  after_wait-Round (some e) clone last_resp last_err ctx req w c = stops (some e) (inl (λ n. cc))
  after_wait-Round none (fresh r) last_resp last_err ctx req w c =
      rw (c, attempt_with) (judge-Round none last_resp ctx req r w)
  after_wait-Round none (broken e) last_resp last_err ctx req w c =
      rw (c, attempt_with) (stops (some e) (inr (λ r f. cc)))
  after_wait-Round none unrepeatable last_resp last_err ctx req w c =
      rw (c, attempt_with) (stops last_err (inr (λ r f. cc)))

  pub round-Round :
      (attempt : ℕ) (last_resp : Option Response) (last_err : Option Error) (ctx : Context)
      (req : Request) (w : World V)
      → Round
          (waited attempt last_resp w).0
          last_resp
          ctx
          req
          (rested attempt last_resp w)
          (round float host config next attempt last_resp last_err ctx req w)
  unfolding round
  round-Round attempt last_resp last_err ctx req w =
      after_wait-Round _ (clone_request req) last_resp last_err ctx req _ refl

  -- What holds of each way to leave the loop, and goes over from a later round to this one, holds
  -- of the loop.
  module _ {ℓ} (ctx : Context) (req : Request)
      (P : ℕ → Option Response → World V → Answer (World V) → Type ℓ)
      (exhausted : (last_resp : Option Response) (last_err : Option Error) (w : World V)
        → P 0 last_resp w (returns float host config next last_resp last_err req w))
      (stopped : (n attempt : ℕ) (last_resp : Option Response) (err : Option Error) (w : World V)
        → Hinders (waited attempt last_resp w).0 req
        → P
            (suc n)
            last_resp
            w
            (returns float host config next last_resp err req (rested attempt last_resp w)))
      (ended : (n attempt : ℕ) (last_resp : Option Response) (r : Request) (w : World V)
        → IsFinal
            (next ctx r (rested attempt last_resp w)).response
            (next ctx r (rested attempt last_resp w)).error
        → P
            (suc n)
            last_resp
            w
            (record (next ctx r (rested attempt last_resp w)) { request = req }))
      (repeated : (n attempt : ℕ) (last_resp : Option Response) (r : Request) (w : World V)
          (out : Answer (World V))
        → IsRetried
            (next ctx r (rested attempt last_resp w)).response
            (next ctx r (rested attempt last_resp w)).error
        → P n
            (next ctx r (rested attempt last_resp w)).response
            (next ctx r (rested attempt last_resp w)).world
            out
        → P (suc n) last_resp w out) where
    rule_step :
        (n attempt : ℕ) (last_resp : Option Response) (w : World V) (p : Progress V)
        → Round (waited attempt last_resp w).0 last_resp ctx req (rested attempt last_resp w) p
        → ((a : Answer (World V))
            → P n a.response a.world (
                attempts float host config next n (suc attempt) a.response a.error ctx req a.world))
        → P (suc n) last_resp w (elim p [
          | done a ↦ a
          | again a ↦
              attempts float host config next n (suc attempt) a.response a.error ctx req a.world
        ])
    rule_step n attempt last_resp w p (stops err h) ih = stopped n attempt last_resp err w h
    rule_step n attempt last_resp w p (ends r f) ih = ended n attempt last_resp r w f
    rule_step n attempt last_resp w p (repeats r m) ih =
        repeated n attempt last_resp r w _ m
          (ih (record (next ctx r (rested attempt last_resp w)) { request = req }))

    pub attempts_rule :
        (n attempt : ℕ) (last_resp : Option Response) (last_err : Option Error) (w : World V)
        → P n last_resp w (attempts float host config next n attempt last_resp last_err ctx req w)
    unfolding attempts
    attempts_rule zero attempt last_resp last_err w = exhausted last_resp last_err w
    attempts_rule (suc n) attempt last_resp last_err w =
        rule_step n attempt last_resp w _ (round-Round attempt last_resp last_err ctx req w)
          (λ a. attempts_rule n (suc attempt) a.response a.error a.world)
