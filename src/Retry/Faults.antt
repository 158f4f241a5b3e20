-- ===== src/Retry/Faults.antt =====
-- Where the retry middleware does not do what its documentation says.
use httpio.Base.{
  In, ℕ, zero, suc, ◌+◌, ◌≤◌, ◌≡◌, refl, ◌∙◌, inl, inr, true, false, Option, some, none, arith,
  rounds, Bool-cases, ℤ,
}
use httpio.Http.{Error, Request, Response, Handler, Context}
use httpio.Retry.{
  World, Host, Config, close_body, returns, attempts, is_settled, handle, has_retryable_status,
  should_retry, is_below_500, clone_request, fresh, unrepeatable, round, done, after_wait,
  attempt_with,
}
use httpio.Retry.Float64.{Float}
use httpio.Retry.Attempts.{rested, waited, waited-none, rested-closed, attempts_rule}
use httpio.Retry.Count.{Counts, count-rested}

abbrev one : ℕ → ℕ
one zero = 0
one (suc n) = 1

module _ (float : Float) {V : Type 0} (host : Host V float.F) (config : Config float.F)
    (next : Handler (World V)) where
  unsettled :
      (resp : Option Response) (err : Option Error)
      → should_retry config resp err ≡ true
      → is_settled float host config next resp err ≡ false
  unfolding is_settled
  unsettled resp err h = ground arith

  round_unrepeatable :
      (attempt : ℕ) (resp : Option Response) (err : Option Error) (ctx : Context) (req : Request)
      (w : World V)
      → (waited float host config next attempt resp w).0 ≡ none
      → clone_request req ≡ unrepeatable
      → round float host config next attempt resp err ctx req w
        ≡ done (
            returns float host config next resp err req
              (rested float host config next attempt resp w))
  unfolding round after_wait attempt_with
  round_unrepeatable attempt resp err ctx req w patient once =
      rw (patient, after_wait, once, attempt_with)

  attempts_unrepeatable :
      (n attempt : ℕ) (resp : Option Response) (err : Option Error) (ctx : Context) (req : Request)
      (w : World V)
      → (waited float host config next attempt resp w).0 ≡ none
      → clone_request req ≡ unrepeatable
      → attempts float host config next (suc n) attempt resp err ctx req w
        ≡ returns float host config next resp err req (rested float host config next attempt resp w)
  unfolding attempts
  attempts_unrepeatable n attempt resp err ctx req w patient once =
      rw (round_unrepeatable attempt resp err ctx req w patient once, attempts)

  handle_unsettled :
      (ctx : Context) (req : Request) (w : World V) (n : ℕ)
      → is_settled float host config next (next ctx req w).response (next ctx req w).error ≡ false
      → rounds config.max_retries ≡ suc n
      → handle float host config next ctx req w
        ≡ attempts float host config next
            (suc n)
            0
            (next ctx req w).response
            (next ctx req w).error
            ctx
            (next ctx req w).request
            (next ctx req w).world
  unfolding handle
  handle_unsettled ctx req w n u more = rw (u, more)

  close_body-In :
      (r : Response) (b : ℕ) (w : World V) → r.body ≡ some b → In b (close_body (some r) w).closed
  unfolding close_body
  close_body-In r b w e = rw (e, close_body) (inl refl)

  -- A request whose body cannot be read again is not retried, and the response to it is spoilt: if
  -- it has a retryable status and a body, at least one retry is configured, and no wait is cut
  -- short, the caller is given this response with no error, after its body has been closed.
  pub unrepeatable_closes_body :
      (ctx : Context) (req : Request) (w : World V) (r : Response) (b n : ℕ)
      → (next ctx req w).response ≡ some r
      → (next ctx req w).error ≡ none
      → r.body ≡ some b
      → has_retryable_status config.retryable_status_codes (some r) ≡ true
      → rounds config.max_retries ≡ suc n
      → clone_request (next ctx req w).request ≡ unrepeatable
      → ((d : ℤ) (v : V) → (host.wait d v).0 ≡ none)
      → ((handle float host config next ctx req w).response ≡ some r)
        × ((handle float host config next ctx req w).error ≡ none)
        × In b (handle float host config next ctx req w).world.closed
  unfolding should_retry
  unrepeatable_closes_body ctx req w r b n answered clean body retryable more once patient =
      let a = next ctx req w in
      let u = unsettled a.response a.error (rw (answered, clean) retryable) in
      let e =
        handle_unsettled ctx req w n u more
        ∙ attempts_unrepeatable n 0 a.response a.error ctx a.request a.world
            (waited-none float host config next patient 0 a.response a.world) once in
      rw e (
        answered,
        clean,
        rw (rested-closed float host config next 0 a.response a.world, answered)
            (close_body-In r b a.world body),
      )

module _ (float : Float) {V : Type 0} (host : Host V float.F) (config : Config float.F)
    (next : Handler (World V)) (count : V → ℕ) (counts : Counts host next count) where
  below_500_once :
      (ctx : Context) (req : Request)
      → ((r : Request) (w : World V)
          → is_below_500 (next ctx r w).response (next ctx r w).error ≡ true)
      → (n attempt : ℕ) (last_resp : Option Response) (last_err : Option Error) (w : World V)
      → count (attempts float host config next n attempt last_resp last_err ctx req w).world.rest
        ≤ suc (count w.rest)
  below_500_once ctx req low =
      attempts_rule float host config next ctx req
        (λ n lr w out. count out.world.rest ≤ suc (count w.rest)) (λ lr le w. omega arith)
        (λ n k lr e w h. omega (arith, count-rested float host config next count counts k lr w))
        (λ n k lr r w f. omega (
          arith,
          count-rested float host config next count counts k lr w,
          counts.call ctx r (rested float host config next k lr w),
        ))
        (λ n k lr r w out m h. absurd (cc (m.0, low r (rested float host config next k lr w))))

  -- A response below 500 is retried at most once, even if its status (408, in the default
  -- configuration) is among the retryable ones: if every answer of the next handler is a response
  -- below 500 with no error, it is called at most twice, however large `MaxRetries` is.
  pub below_500_retried_once :
      (ctx : Context) (req : Request) (w : World V)
      → ((r : Request) (w' : World V)
          → is_below_500 (next ctx r w').response (next ctx r w').error ≡ true)
      → count (handle float host config next ctx req w).world.rest ≤ suc (suc (count w.rest))
  unfolding handle
  below_500_retried_once ctx req w low =
      let a = next ctx req w in
      elim (Bool-cases (is_settled float host config next a.response a.error)) [
        | inl settled ↦ rw (settled, handle) (omega (arith, counts.call ctx req w))
        | inr open' ↦
            rw (open', handle)
              (omega (
                arith,
                counts.call ctx req w,
                below_500_once ctx a.request low (rounds config.max_retries) 0 a.response a.error
                    a.world,
              ))
      ]

  unsettled_error :
      (resp : Option Response) (err : Option Error) (e : Error)
      → err ≡ some e
      → is_settled float host config next resp err ≡ false
  unfolding is_settled
  unsettled_error resp err e h = rw h

  -- An error that the predicate rejects is retried all the same, once: if every answer of the next
  -- handler is such an error, `MaxRetries` is positive, no wait is cut short and the request can be
  -- sent again, the next handler is called exactly twice.
  pub rejected_error_retried :
      (ctx : Context) (req : Request) (w : World V) (e : Error) (n : ℕ) (r : Request)
      → ((r' : Request) (w' : World V) → (next ctx r' w').error ≡ some e)
      → ((resp : Option Response) → should_retry config resp (some e) ≡ false)
      → rounds config.max_retries ≡ suc n
      → ((d : ℤ) (v : V) → (host.wait d v).0 ≡ none)
      → clone_request (next ctx req w).request ≡ fresh r
      → count (handle float host config next ctx req w).world.rest ≡ suc (suc (count w.rest))
  rejected_error_retried ctx req w e n r fails rejects more patient fits =
      let a = next ctx req w in
      let loop =
        attempts_rule float host config next ctx a.request
          (λ m lr w' out. count out.world.rest ≡ count w'.rest + one m) (λ lr le w'. omega arith)
          (λ m k lr err w' h. elim h [
            | inl cut ↦ absurd (cut (waited-none float host config next patient k lr w'))
            | inr unfit ↦ absurd (unfit r fits)
          ])
          (λ m k lr r' w' f. omega (
            arith,
            count-rested float host config next count counts k lr w',
            counts.call ctx r' (rested float host config next k lr w'),
          ))
          (λ m k lr r' w' out retried h. absurd (
            cc (
              retried.1,
              fails r' (rested float host config next k lr w'),
              rejects (next ctx r' (rested float host config next k lr w')).response,
            )))
          (suc n) 0 a.response a.error a.world in
      rw
        (handle_unsettled float host config next ctx req w n
          (unsettled_error a.response a.error e (fails req w)) more)
        (omega (arith, loop, counts.call ctx req w))
