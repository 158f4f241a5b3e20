-- ===== src/Client/Execute.antt =====
-- internal/client/request.go: `Do` and `buildMiddlewareChain`.
use httpio.Base.{
  ℕ, ℤ, ◌⊎◌, inl, inr, List, [], ◌∷◌, ◌++◌, Option, none, some, Bytes, bytes, is_empty,
  if◌then◌else◌,
}
use httpio.Http.{Error, Header, Context, Request, Response, Answer, Handler}
use httpio.Http.Headers.{get, set}
use httpio.Middleware.{Middleware, chain}
use httpio.Client.{
  Values, HttpClient, Client, Body, no_body, raw, text, value, ClientRequest, each_value, add_value,
  new_request, with_body,
}

-- A URL as `url.Parse` gives it: its query, and its text with another one.
pub record ParsedUrl : Type 0 where
  pub query : Values
  pub print : Values → Bytes

-- What `Do` uses of net/url, encoding/json, net/http and context; `send` is `http.Client.Do`.
pub record Platform (J W : Type 0) : Type 0 where
  pub parse : Bytes → Error ⊎ ParsedUrl
  pub marshal : J → Error ⊎ Bytes
  pub make_request : Bytes → Bytes → Option Bytes → Error ⊎ Request
  pub send : HttpClient → Handler W
  pub limit : ℤ → Context → Context
  pub cancel : W → W
  pub close : ℕ → W → W

-- What `Do` leaves behind: its results, the request, whose headers it shares with the one that is
-- sent, and the world.
pub record Outcome (J W : Type 0) : Type 0 where
  pub response : Option Response
  pub error : Option Error
  pub request : ClientRequest J W
  pub world : W

module _ {J W : Type 0} where
  -- `buildMiddlewareChain()`
  unfoldable pub build_middleware_chain : ClientRequest J W → List (Middleware W)
  build_middleware_chain r = r.client.middlewares ++ r.middlewares

module _ {J W : Type 0} (platform : Platform J W) where
  abbrev fails : Error → ClientRequest J W → W → Outcome J W
  fails e r w = record { response = none; error = some e; request = r; world = w }

  -- The bytes of the body, and the headers, which say that they are JSON unless they say something.
  unfoldable pub read_body : ClientRequest J W → Error ⊎ (Option Bytes × Header)
  read_body r = elim r.body [
    | no_body ↦ inr (none, r.headers)
    | raw b ↦ inr (some b, r.headers)
    | text s ↦ inr (some s, r.headers)
    | value j ↦ elim (platform.marshal j) [
      | inl e ↦ inl e
      | inr b ↦ inr (
        some b,
        if is_empty (get r.headers (bytes "Content-Type"))
            then set r.headers (bytes "Content-Type") (bytes "application/json")
            else r.headers,
      )
    ]
  ]

  -- The handler: the client, in the chain if there is one.
  unfoldable pub handler_of : ClientRequest J W → Handler W
  unfolding build_middleware_chain
  handler_of r = elim (build_middleware_chain r) [
    | [] ↦ platform.send r.client.client
    | m ∷ ms ↦ chain (platform.send r.client.client) (m ∷ ms)
  ]

  abbrev pub close_body : Option Response → W → W
  close_body none w = w
  close_body (some resp) w = elim resp.body [ none ↦ w | some b ↦ platform.close b w ]

  -- What `Do` makes of the handler's results.
  unfoldable pub finish : ClientRequest J W → Answer W → Outcome J W
  finish r a =
      let r' : ClientRequest J W = record r { headers = a.request.header } in
      elim a.error [
        | some e ↦ fails e r' (close_body a.response a.world)
        | none ↦ record { response = a.response; error = none; request = r'; world = a.world }
      ]

  -- `Do` from the URL on.
  unfoldable pub execute : Context → ClientRequest J W → W → Outcome J W
  execute ctx r w = elim (platform.parse r.url) [
    | inl e ↦ fails e r w
    | inr url ↦
        let query = each_value add_value r.query url.query in
        elim (read_body r) [
          | inl e ↦ fails e r w
          | inr (body, header) ↦
              let r' : ClientRequest J W = record r { headers = header } in
              elim (platform.make_request r.method (url.print query) body) [
                | inl e ↦ fails e r' w
                | inr req ↦ finish r' (handler_of r' ctx (record req { header = header }) w)
              ]
        ]
  ]

  -- `Do(ctx)`, with the deferred call of `cancel`.
  unfoldable pub do_ : Context → ClientRequest J W → W → Outcome J W
  do_ ctx r w = elim r.timeout [
    | none ↦ execute ctx r w
    | some t ↦
        let o = execute (platform.limit t ctx) r w in record o { world = platform.cancel o.world }
  ]

  -- `GET`, `DELETE`, `HEAD` and `OPTIONS` of the client.
  unfoldable pub do_method : Bytes → Client W → Context → Bytes → W → Outcome J W
  do_method method c ctx path w = do_ ctx (new_request c method path) w

  -- `POST`, `PUT` and `PATCH` of the client.
  unfoldable pub do_with_body : Bytes → Client W → Context → Bytes → Body J → W → Outcome J W
  do_with_body method c ctx path body w = do_ ctx (with_body body (new_request c method path)) w
