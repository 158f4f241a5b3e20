-- ===== src/Client/Resend.antt =====
-- internal/client/request.go and middleware/retry/retry.go: what a client with the retry middleware
-- sends.
mod Tests
use httpio.Base.{
  ℕ, ℤ, ◌≡◌, refl, sym, ap, ◌∙◌, subst, ◌⊎◌, inl, inr, Sum-cases, Option-cases, List, [], ◌∷◌,
  Option, none, some, Bytes, All,
}
use httpio.Http.{Error, Header, gives, Context, Request, Response, Answer, Handler}
use httpio.Middleware.{Middleware}
use httpio.Middleware.Order.{nest}
use httpio.Client.{ClientRequest, HttpClient, each_value, add_value}
use httpio.Client.Execute.{Platform, read_body, handler_of, finish, close_body, execute, do_}
use httpio.Client.Order.{handler_of-nest}
use httpio.Retry
use httpio.Retry.{World, Host, Config, handle, middleware}
use httpio.Retry.Float64.{Float}
use httpio.Retry.Resend.{IsRepeatable, handle-Sent}

-- A log of the requests that are sent, the latest first, which nothing else changes; sending a request leaves it as it was. A request
-- that net/http makes with a reader over bytes can read them again.
pub record Observes {J V F : Type 0} (platform : Platform J (World V)) (host : Host V F)
    (log : V → List Request) : Type 0 where
  pub send :
      (c : HttpClient) (ctx : Context) (r : Request) (w : World V)
      → log (platform.send c ctx r w).world.rest ≡ r ∷ log w.rest
  pub leaves :
      (c : HttpClient) (ctx : Context) (r : Request) (w : World V)
      → (platform.send c ctx r w).request ≡ r
  pub wait : (d : ℤ) (v : V) → log (host.wait d v).1 ≡ log v
  pub random : (v : V) → log (host.random v).1 ≡ log v
  pub cancel : (w : World V) → log (platform.cancel w).rest ≡ log w.rest
  pub close : (b : ℕ) (w : World V) → log (platform.close b w).rest ≡ log w.rest
  pub bodiless :
      (m u : Bytes) (r : Request) → platform.make_request m u none ≡ inr r → r.body ≡ none
  pub readable :
      (m u b : Bytes) (r : Request)
      → platform.make_request m u (some b) ≡ inr r
      → (r.body ≡ some b) × (r.get_body ≡ some (gives b))

module _ {J V : Type 0} (float : Float) (host : Host V float.F) (config : Config float.F)
    (platform : Platform J (World V)) (log : V → List Request)
    (observes : Observes platform host log) where
  finish-log :
      (r : ClientRequest J (World V)) (a : Answer (World V))
      → log (finish platform r a).world.rest ≡ log a.world.rest
  unfolding finish
  finish-log r a = elim (Option-cases a.error) [
    | inl n ↦ rw (finish, n) refl
    | inr (e, s) ↦ rw (finish, s) (closed a.response)
  ]
    where
      closed : (o : Option Response) → log (close_body platform o a.world).rest ≡ log a.world.rest
      closed none = refl
      closed (some resp) = elim (Option-cases resp.body) [
        | inl n ↦ rw n refl
        | inr (b, s) ↦ rw s (observes.close b a.world)
      ]

  handler_of-handle :
      (r : ClientRequest J (World V))
      → r.client.middlewares ≡ middleware float host config ∷ []
      → r.middlewares ≡ []
      → handler_of platform r ≡ handle float host config (platform.send r.client.client)
  unfolding middleware
  handler_of-handle r one own =
      handler_of-nest platform r
      ∙ ap (λ ms. nest (nest (platform.send r.client.client) ms) r.client.middlewares) own
      ∙ ap (λ ms. nest (platform.send r.client.client) ms) one

  make_request-IsRepeatable :
      (m u : Bytes) (o : Option Bytes) (r : Request)
      → platform.make_request m u o ≡ inr r
      → IsRepeatable r × (r.body ≡ o)
  make_request-IsRepeatable m u none r made =
      let bodiless = observes.bodiless m u r made in (inl bodiless, bodiless)
  make_request-IsRepeatable m u (some b) r made =
      let (body, again) = observes.readable m u b r made in (inr (b, body, again), body)

  -- The requests carry the body and the headers.
  abbrev pub Carry : Option Bytes → Header → World V → Type 0
  Carry body header w = All (λ q. (q.body ≡ body) × (q.header ≡ header)) (log w.rest)

  -- The same of a request in each place.
  copies :
      (q : Request) (xs : List Request)
      → All (λ r. r ≡ q) xs
      → All (λ r. (r.body ≡ q.body) × (r.header ≡ q.header)) xs
  copies q [] all = tt
  copies q (x ∷ xs) (same, all) =
      ((ap (λ r. r.body) same, ap (λ r. r.header) same), copies q xs all)

  handler-Carry :
      (ctx : Context) (r : ClientRequest J (World V)) (req : Request) (w : World V)
      (body : Option Bytes) (header : Header)
      → r.client.middlewares ≡ middleware float host config ∷ []
      → r.middlewares ≡ []
      → IsRepeatable req × (req.body ≡ body)
      → log w.rest ≡ []
      → Carry body header
          (finish platform r (handler_of platform r ctx (record req { header = header }) w)).world
  handler-Carry ctx r req w body header one own (repeatable, made) none_sent =
      let send = platform.send r.client.client in
      let req' : Request = record req { header = header } in
      let sent =
        handle-Sent float host config send log observes.wait observes.random
          (observes.send r.client.client) (observes.leaves r.client.client) req' repeatable ctx w
          (rw none_sent tt) in
      let all = copies req' (log (handle float host config send ctx req' w).world.rest) sent in
      rw (finish-log r (handler_of platform r ctx req' w), handler_of-handle r one own, sym made)
        all

  execute-Carry :
      (ctx : Context) (r : ClientRequest J (World V)) (w : World V) (body : Option Bytes)
      (header : Header)
      → r.client.middlewares ≡ middleware float host config ∷ []
      → r.middlewares ≡ []
      → read_body platform r ≡ inr (body, header)
      → log w.rest ≡ []
      → Carry body header (execute platform ctx r w).world
  unfolding execute
  execute-Carry ctx r w body header one own read none_sent =
      elim (Sum-cases (platform.parse r.url)) [
        | inl (e, h) ↦ rw (execute, h, none_sent) tt
        | inr (url, h) ↦
            let text = url.print (each_value add_value r.query url.query) in
            elim (Sum-cases (platform.make_request r.method text body)) [
              | inl (e, m) ↦ rw (execute, h, read, m, none_sent) tt
              | inr (req, m) ↦
                  rw (execute, h, read, m)
                    (handler-Carry ctx (record r { headers = header }) req w body header one own
                      (make_request-IsRepeatable r.method text body req m) none_sent)
            ]
      ]

  -- `Do` of a request without middlewares of its own, by a client whose one middleware retries: every
  -- attempt that is sent carries the bytes that the body of the request stands for and the headers
  -- that go with them.
  pub do-Carry :
      (ctx : Context) (r : ClientRequest J (World V)) (w : World V) (body : Option Bytes)
      (header : Header)
      → r.client.middlewares ≡ middleware float host config ∷ []
      → r.middlewares ≡ []
      → read_body platform r ≡ inr (body, header)
      → log w.rest ≡ []
      → Carry body header (do_ platform ctx r w).world
  unfolding do_
  do-Carry ctx r w body header one own read none_sent = elim (Option-cases r.timeout) [
    | inl n ↦ rw (n, do_) (execute-Carry ctx r w body header one own read none_sent)
    | inr (t, h) ↦
        rw (h, do_, observes.cancel (execute platform (platform.limit t ctx) r w).world)
          (execute-Carry (platform.limit t ctx) r w body header one own read none_sent)
  ]
