-- ===== src/Retry/Bodies.antt =====
-- Every response body that a retried request was given is closed, or is the caller's.
use httpio.Base.{
  In, In-append, ℕ, ◌≡◌, sym, subst, ◌⊎◌, inl, inr, List, [], ◌∷◌, ◌++◌, Option, some, none, arith,
  rounds, Bool-cases, ℤ,
}
use httpio.Http.{Error, Request, Response, Handler, Answer, Context}
use httpio.Retry.{World, Host, Config, close_body, attempts, is_settled, handle}
use httpio.Retry.Float64.{Float}
use httpio.Retry.Attempts.{rested, rested_kept, rested-closed, attempts_rule}

abbrev pub bodies : Option Response → List ℕ
bodies none = []
bodies (some r) = elim r.body [ none ↦ [] | some b ↦ b ∷ [] ]

-- A record of the bodies handed out: each call of the next handler adds that of its response, and
-- the next handler takes no body off the closed ones.
pub record Tracks {V F : Type 0} (host : Host V F) (next : Handler (World V)) (opened : V → List ℕ)
    : Type 0 where
  pub call :
      (ctx : Context) (req : Request) (w : World V)
      → opened (next ctx req w).world.rest ≡ bodies (next ctx req w).response ++ opened w.rest
  pub closed :
      (ctx : Context) (req : Request) (w : World V) (b : ℕ)
      → In b w.closed
      → In b (next ctx req w).world.closed
  pub wait : (d : ℤ) (v : V) → opened (host.wait d v).1 ≡ opened v
  pub random : (v : V) → opened (host.random v).1 ≡ opened v

-- A body was there before, or is closed, or is that of the response.
abbrev pub Held : {V : Type 0} → List ℕ → Option Response → World V → ℕ → Type 0
Held old resp w b = In b old ⊎ In b w.closed ⊎ In b (bodies resp)

module _ (float : Float) {V : Type 0} (host : Host V float.F) (config : Config float.F)
    (next : Handler (World V)) (opened : V → List ℕ) (tracks : Tracks host next opened) where
  closes :
      (resp : Option Response) (w : World V) (old : List ℕ) (b : ℕ)
      → Held old resp w b
      → In b old ⊎ In b (close_body resp w).closed
  unfolding close_body
  closes none w old b h = ground arith
  closes (some r) w old b h = ground arith

  abbrev Keeps : List ℕ → ℕ → Option Response → World V → Answer (World V) → Type 0
  Keeps old n resp w out =
      ((b : ℕ) → In b (opened w.rest) → Held old resp w b)
      → (b : ℕ) → In b (opened out.world.rest)
      → Held old out.response out.world b

  -- After a round's wait the last response's body is closed.
  rested-Held :
      (old : List ℕ) (attempt : ℕ) (resp : Option Response) (w : World V)
      → ((b : ℕ) → In b (opened w.rest) → Held old resp w b)
      → (b : ℕ) → In b (opened (rested float host config next attempt resp w).rest)
      → In b old ⊎ In b (rested float host config next attempt resp w).closed
  rested-Held old attempt resp w h b i =
      subst (λ c. In b old ⊎ In b c) (sym (rested-closed float host config next attempt resp w))
        (closes resp w old b (
          h b (
            subst (In b)
              (rested_kept float host config next opened tracks.wait tracks.random attempt resp w)
              i)))

  -- The next handler's response has the one body that may be open.
  called-Held :
      (old : List ℕ) (ctx : Context) (req : Request) (w : World V)
      → ((b : ℕ) → In b (opened w.rest) → In b old ⊎ In b w.closed)
      → (b : ℕ) → In b (opened (next ctx req w).world.rest)
      → Held old (next ctx req w).response (next ctx req w).world b
  called-Held old ctx req w h b i =
      elim (In-append b (bodies (next ctx req w).response) (opened w.rest)
        (subst (In b) (tracks.call ctx req w) i)) [
          | inl new ↦ inr (inr new)
          | inr before ↦ elim (h b before) [
            | inl o ↦ inl o
            | inr c ↦ inr (inl (tracks.closed ctx req w b c))
          ]
        ]

  attempts-Keeps :
      (old : List ℕ) (n attempt : ℕ) (last_resp : Option Response) (last_err : Option Error)
      (ctx : Context) (req : Request) (w : World V)
      → Keeps old n last_resp w
          (attempts float host config next n attempt last_resp last_err ctx req w)
  attempts-Keeps old n attempt last_resp last_err ctx req w =
      attempts_rule float host config next ctx req (Keeps old) (λ lr le w h. h)
        (λ n k lr e w _ h b i. elim (rested-Held old k lr w h b i) [
          | inl o ↦ inl o
          | inr c ↦ inr (inl c)
        ])
        (λ n k lr r w f h. called-Held old ctx r _ (rested-Held old k lr w h))
        (λ n k lr r w out m ih h. ih (called-Held old ctx r _ (rested-Held old k lr w h))) n attempt
        last_resp last_err w

  -- No response body is lost: when the middleware returns, every body that the next handler's
  -- responses had, over all the attempts, has been closed, or it is the body of the response that
  -- is returned.
  pub handle-Held :
      (ctx : Context) (req : Request) (w : World V) (b : ℕ)
      → In b (opened (handle float host config next ctx req w).world.rest)
      → Held
          (opened w.rest)
          (handle float host config next ctx req w).response
          (handle float host config next ctx req w).world
          b
  unfolding handle
  handle-Held ctx req w =
      let a = next ctx req w in
      let first = called-Held (opened w.rest) ctx req w (λ b i. inl i) in
      elim (Bool-cases (is_settled float host config next a.response a.error)) [
        | inl settled ↦ rw (settled, handle) first
        | inr open' ↦
            rw (open', handle)
              (attempts-Keeps (opened w.rest) (rounds config.max_retries) 0 a.response a.error ctx
                a.request a.world first)
      ]
