-- ===== src/Retry/Resend.antt =====
-- middleware/retry/retry.go: every attempt sends the request that came in.
use httpio.Base.{
  ℕ, zero, suc, ◌≡◌, refl, sym, ap, ◌⊎◌, inl, inr, Option-cases, if_either, ℤ, List, ◌∷◌, Option,
  some, none, Bytes, All, Bool-cases, rounds, subst,
}
use httpio.Http.{Error, gives, Request, Response, Handler, Answer, Context}
use httpio.Retry.{
  World, Host, Config, is_below_500, should_retry, clone_request, fresh, Progress, done, again,
  judge, attempt_with, after_wait, round, attempts, is_settled, handle,
}
use httpio.Retry.Attempts.{rested, rested_kept, waited}
use httpio.Retry.Float64.{Float}

-- The body can be sent again: there is none, or `GetBody` gives it.
abbrev pub IsRepeatable : Request → Type 0
IsRepeatable req =
    (req.body ≡ none) ⊎ ((b : Bytes) × (req.body ≡ some b) × (req.get_body ≡ some (gives b)))

pub clone_request-fresh : (req : Request) → IsRepeatable req → clone_request req ≡ fresh req
unfolding clone_request
clone_request-fresh req (inl n) =
    rw (n, clone_request) (ap (λ o. fresh (record req { body = o })) n)
clone_request-fresh req (inr (b, s, g)) =
    rw (clone_request, s, g) (ap (λ o. fresh (record req { body = some b; get_body = o })) g)

module _ (float : Float) {V : Type 0} (host : Host V float.F) (config : Config float.F)
    (next : Handler (World V)) (log : V → List Request)
    (waits : (d : ℤ) (v : V) → log (host.wait d v).1 ≡ log v)
    (draws : (v : V) → log (host.random v).1 ≡ log v)
    (records : (ctx : Context) (r : Request) (w : World V)
      → log (next ctx r w).world.rest ≡ r ∷ log w.rest)
    (leaves : (ctx : Context) (r : Request) (w : World V) → (next ctx r w).request ≡ r)
    (req : Request) (repeatable : IsRepeatable req) where
  abbrev Sent : World V → Type 0
  Sent w = All (λ r. r ≡ req) (log w.rest)

  abbrev SentBy : Progress V → Type 0
  SentBy (done a) = Sent a.world
  SentBy (again a) = Sent a.world

  next-Sent : (ctx : Context) (w : World V) → Sent w → Sent (next ctx req w).world
  next-Sent ctx w sent = rw (records ctx req w) (refl, sent)

  judge-Sent : (a : Answer (World V)) → Sent a.world → SentBy (judge float host config next req a)
  unfolding judge
  judge-Sent a sent =
      if_either SentBy (is_below_500 a.response a.error) _ _ sent
        (if_either SentBy (should_retry config a.response a.error) _ _ sent sent)

  round-Sent :
      (attempt : ℕ) (last_resp : Option Response) (last_err : Option Error) (ctx : Context)
      (w : World V)
      → Sent w
      → SentBy (round float host config next attempt last_resp last_err ctx req w)
  unfolding round after_wait attempt_with
  round-Sent attempt last_resp last_err ctx w sent =
      let w' = rested float host config next attempt last_resp w in
      let sent' : Sent w' =
        subst (All (λ r. r ≡ req))
          (sym (rested_kept float host config next log waits draws attempt last_resp w)) sent in
      elim (Option-cases (waited float host config next attempt last_resp w).0) [
        | inr (e, s) ↦ rw (round, s, after_wait) sent'
        | inl n ↦
            rw (round, n, after_wait, clone_request-fresh req repeatable, attempt_with)
              (judge-Sent _ (next-Sent ctx w' sent'))
      ]

  continues :
      (n attempt : ℕ) (ctx : Context)
      → ((a : Answer (World V))
          → Sent a.world
          → Sent
              (attempts float host config next n
                (suc attempt)
                a.response
                a.error
                ctx
                req
                a.world).world)
      → (p : Progress V) → SentBy p
      → Sent
          (elim p as (λ x. Answer (World V)) [
            | done a ↦ a
            | again a ↦
                attempts float host config next n (suc attempt) a.response a.error ctx req a.world
          ]).world
  continues n attempt ctx rest (done a) sent = sent
  continues n attempt ctx rest (again a) sent = rest a sent

  attempts-Sent :
      (n attempt : ℕ) (last_resp : Option Response) (last_err : Option Error) (ctx : Context)
      (w : World V)
      → Sent w
      → Sent (attempts float host config next n attempt last_resp last_err ctx req w).world
  unfolding attempts
  attempts-Sent zero attempt last_resp last_err ctx w sent = sent
  attempts-Sent (suc n) attempt last_resp last_err ctx w sent =
      continues n attempt ctx (λ a. attempts-Sent n (suc attempt) a.response a.error ctx a.world)
        (round float host config next attempt last_resp last_err ctx req w)
        (round-Sent attempt last_resp last_err ctx w sent)

  -- Every attempt sends the request.
  pub handle-Sent :
      (ctx : Context) (w : World V) → Sent w → Sent (handle float host config next ctx req w).world
  unfolding handle
  handle-Sent ctx w sent =
      let a = next ctx req w in
      let sent' = next-Sent ctx w sent in
      elim (Bool-cases (is_settled float host config next a.response a.error)) [
        | inl settled ↦ rw (settled, handle) sent'
        | inr open' ↦
            rw (open', handle, leaves ctx req w)
              (attempts-Sent (rounds config.max_retries) 0 a.response a.error ctx a.world sent')
      ]
