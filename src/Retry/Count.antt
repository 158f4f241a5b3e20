-- ===== src/Retry/Count.antt =====
-- How often the retry middleware calls the next handler.
use httpio.Base.{
  ℕ, suc, ◌+◌, ◌≤◌, ◌≡◌, ◌⊎◌, inl, inr, true, false, Option, none, arith, rounds, Bool-cases, ℤ,
}
use httpio.Http.{Error, Request, Response, Handler, Answer, Context}
use httpio.Retry.{
  World, Host, Config, should_retry, back_off, attempts, is_settled, handle, clone_request, fresh,
}
use httpio.Retry.Float64.{Float}
use httpio.Retry.Attempts.{IsFinal, rested, rested_kept, attempts_rule}

-- A count of the calls of the next handler: it goes up by one with each, and neither waiting nor
-- the random source changes it.
pub record Counts {V F : Type 0} (host : Host V F) (next : Handler (World V)) (count : V → ℕ)
    : Type 0 where
  pub call :
      (ctx : Context) (req : Request) (w : World V)
      → count (next ctx req w).world.rest ≡ suc (count w.rest)
  pub wait : (d : ℤ) (v : V) → count (host.wait d v).1 ≡ count v
  pub random : (v : V) → count (host.random v).1 ≡ count v

module _ (float : Float) {V : Type 0} (host : Host V float.F) (config : Config float.F)
    (next : Handler (World V)) (count : V → ℕ) (counts : Counts host next count) where
  pub count-rested :
      (attempt : ℕ) (last_resp : Option Response) (w : World V)
      → count (rested float host config next attempt last_resp w).rest ≡ count w.rest
  count-rested = rested_kept float host config next count counts.wait counts.random

  -- The rounds are bounded, and where no round is left over the loop has come to a final result or
  -- been stopped.
  abbrev Counted : ℕ → Option Response → World V → Answer (World V) → Type 0
  Counted n last_resp w out =
      (count w.rest ≤ count out.world.rest) × (count out.world.rest ≤ count w.rest + n)

  attempts-Counted :
      (n attempt : ℕ) (last_resp : Option Response) (last_err : Option Error) (ctx : Context)
      (req : Request) (w : World V)
      → Counted n last_resp w
          (attempts float host config next n attempt last_resp last_err ctx req w)
  attempts-Counted n attempt last_resp last_err ctx req w =
      attempts_rule float host config next ctx req Counted (λ lr le w. omega arith)
        (λ n k lr e w h. omega (arith, count-rested k lr w))
        (λ n k lr r w f.
          omega
            (arith, count-rested k lr w, counts.call ctx r (rested float host config next k lr w)))
        (λ n k lr r w out m h.
          omega
            (arith, count-rested k lr w, counts.call ctx r (rested float host config next k lr w)))
        n attempt last_resp last_err w

  -- The next handler is called at least once, and at most once more than `MaxRetries` says (none
  -- more, if that is negative), whatever it answers.
  pub handle-count :
      (ctx : Context) (req : Request) (w : World V)
      → (suc (count w.rest) ≤ count (handle float host config next ctx req w).world.rest)
        × (count (handle float host config next ctx req w).world.rest
            ≤ suc (count w.rest) + rounds config.max_retries)
  unfolding handle
  handle-count ctx req w =
      let a = next ctx req w in
      elim (Bool-cases (is_settled float host config next a.response a.error)) [
        | inl settled ↦ rw (settled, handle) (omega (arith, counts.call ctx req w))
        | inr open' ↦
            rw (open', handle)
              (omega (
                arith,
                counts.call ctx req w,
                attempts-Counted (rounds config.max_retries) 0 a.response a.error ctx a.request
                    a.world,
              ))
      ]

  settled_final :
      (resp : Option Response) (err : Option Error)
      → is_settled float host config next resp err ≡ true
      → should_retry config resp err ≡ false
  unfolding is_settled
  settled_final resp err h = ground arith

  -- A final result, or all the retries made.
  abbrev pub Settles : ℕ → Option Response → World V → Answer (World V) → Type 0
  Settles n last_resp w out =
      IsFinal float host config next out.response out.error
      ⊎ (count out.world.rest ≡ count w.rest + n)

  -- Where no wait is cut short and the request can be sent again, the answer is a final one, a
  -- success below 500 or one that is not to be retried, or else the next handler has been called
  -- once and then `MaxRetries` times again.
  pub handle-Settles :
      (ctx : Context) (req : Request) (w : World V)
      → ((d : ℤ) (v : V) → (host.wait d v).0 ≡ none)
      → (r : Request) → clone_request (next ctx req w).request ≡ fresh r
      → Settles (suc (rounds config.max_retries)) none w (handle float host config next ctx req w)
  unfolding handle back_off
  handle-Settles ctx req w patient r fits =
      let a = next ctx req w in
      let loop =
        attempts_rule float host config next ctx a.request Settles (λ lr le w. inr (omega arith))
          (λ n k lr e w h. elim h [
            | inl cut ↦ absurd (cut (patient _ _))
            | inr unfit ↦ absurd (unfit r fits)
          ])
          (λ n k lr r w f. inl f)
          (λ n k lr r w out m h. elim h [
            | inl f ↦ inl f
            | inr e ↦ inr (
                omega (
                  arith,
                  count-rested k lr w,
                  counts.call ctx r (rested float host config next k lr w),
                  e,
                ))
          ])
          (rounds config.max_retries) 0 a.response a.error a.world in
      elim (Bool-cases (is_settled float host config next a.response a.error)) [
        | inl settled ↦ rw (settled, handle) (inl (inr (settled_final a.response a.error settled)))
        | inr open' ↦
            rw (open', handle)
              (elim loop [ inl f ↦ inl f | inr e ↦ inr (omega (arith, counts.call ctx req w, e)) ])
      ]
