-- ===== src/Client/Order.antt =====
-- internal/client/request.go: the middlewares of a request stand inside those of its client, and
-- `Do` gives a response or an error.
use httpio.Base.{
  Sum-cases, ◌≡◌, refl, ap, ◌∙◌, ◌⊎◌, inl, inr, List, [], ◌∷◌, ◌++◌, none, some, Option-cases,
}
use httpio.Http.{Error, Context, Answer, Handler}
use httpio.Middleware.{Middleware, chain}
use httpio.Middleware.Order.{nest, chain-nest, chain-append}
use httpio.Client.{ClientRequest, each_value, add_value}
use httpio.Client.Execute.{
  Platform, Outcome, build_middleware_chain, handler_of, read_body, finish, execute, do_,
}

module _ {J W : Type 0} (platform : Platform J W) where
  handler_of_any :
      (r : ClientRequest J W)
      → handler_of platform r
        ≡ chain (platform.send r.client.client) (r.client.middlewares ++ r.middlewares)
  unfolding handler_of build_middleware_chain chain
  handler_of_any r = go (r.client.middlewares ++ r.middlewares)
    where
      go :
          (ms : List (Middleware W))
          → ◌≡◌ {A = Handler W}
              (elim ms [
                | [] ↦ platform.send r.client.client
                | m ∷ ms ↦ chain (platform.send r.client.client) (m ∷ ms)
              ])
              (chain (platform.send r.client.client) ms)
      go [] = refl
      go (m ∷ ms) = refl

  -- A request passes its client's middlewares first, in the order in which they were added, then its
  -- own, and then it is sent; the answer comes back in the opposite order.
  pub handler_of-nest :
      (r : ClientRequest J W)
      → handler_of platform r
        ≡ nest (nest (platform.send r.client.client) r.middlewares) r.client.middlewares
  handler_of-nest r =
      handler_of_any r
      ∙ chain-append (platform.send r.client.client) r.client.middlewares r.middlewares
      ∙ chain-nest _ r.client.middlewares
      ∙ ap (λ b. nest b r.client.middlewares) (chain-nest _ r.middlewares)

  -- Either an error and no response, or no error.
  abbrev pub IsExclusive : Outcome J W → Type 0
  IsExclusive o = ((e : Error) × (o.error ≡ some e) × (o.response ≡ none)) ⊎ (o.error ≡ none)

  finish-IsExclusive : (r : ClientRequest J W) (a : Answer W) → IsExclusive (finish platform r a)
  unfolding finish
  finish-IsExclusive r a = elim (Option-cases a.error) [
    | inl n ↦ rw (n, finish) (inr refl)
    | inr (e, s) ↦ rw (s, finish) (inl (e, refl, refl))
  ]

  execute-IsExclusive :
      (ctx : Context) (r : ClientRequest J W) (w : W) → IsExclusive (execute platform ctx r w)
  unfolding execute
  execute-IsExclusive ctx r w = elim (Sum-cases (platform.parse r.url)) [
    | inl (e, h) ↦ rw (h, execute) (inl (e, refl, refl))
    | inr (url, h) ↦ elim (Sum-cases (read_body platform r)) [
      | inl (e, b) ↦ rw (h, execute, b) (inl (e, refl, refl))
      | inr (sent, b) ↦
          elim (Sum-cases (
            platform.make_request r.method (url.print (each_value add_value r.query url.query))
              sent.0)) [
                | inl (e, m) ↦ rw (h, execute, b, m) (inl (e, refl, refl))
                | inr (req, m) ↦ rw (h, execute, b, m) (finish-IsExclusive _ _)
              ]
    ]
  ]

  -- Whatever the URL, the body, the client and the middlewares do: `Do` gives an error without a
  -- response, or no error.
  pub do-IsExclusive :
      (ctx : Context) (r : ClientRequest J W) (w : W) → IsExclusive (do_ platform ctx r w)
  unfolding do_
  do-IsExclusive ctx r w = elim (Option-cases r.timeout) [
    | inl n ↦ rw (n, do_) (execute-IsExclusive ctx r w)
    | inr (t, h) ↦ rw (h, do_) (execute-IsExclusive (platform.limit t ctx) r w)
  ]
