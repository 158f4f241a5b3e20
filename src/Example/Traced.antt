-- ===== src/Example/Traced.antt =====
-- example/custom-middleware/main.go: a request keeps one correlation ID on its way, and back.
use httpio.Base.{
  if◌then◌else◌, ◌≡◌, ◌≢◌, refl, sym, ap, ◌⊎◌, inl, inr, true, Bool-cases, Option, none, some,
  Bytes, bytes, ◌++◌, ◌∷◌, is_empty, arith, ◌∙◌, if_either, subst,
}
use httpio.Http.{Context, Request, Response, Answer, Handler}
use httpio.Http.Headers.{canonical, get, set, get-set_self, get-set_ne}
use httpio.Middleware.{wrap_middleware}
use httpio.Middleware.Order.{chain-nest}
use httpio.Example.{
  Platform, RequestTimer, tag_response, correlation_header, correlation_key, correlate,
  with_user_agent, handle_timed, correlation_id_middleware, user_agent_middleware, middlewares,
  api_timer, combined,
}

-- A response has the status of the other one and the correlation ID.
abbrev pub IsTagged : Bytes → Option Response → Option Response → Type 0
IsTagged id none none = Unit {0}
IsTagged id (some r) (some r') =
    (r'.status_code ≡ r.status_code) × (get r'.header correlation_header ≡ id)
IsTagged id _ _ = ⊥

-- The name of the program, before the user agent that is there.
abbrev pub agent_of : Bytes → Bytes → Bytes
agent_of user_agent original = if is_empty original then user_agent else user_agent ++ 32 ∷ original

module _ {W : Type 0} where
  -- The answer is that of one call of the next handler, under one correlation ID.
  pub record IsTraced (next : Handler W) (ctx : Context) (req : Request) (a : Answer W)
      : Type 0 where
    pub id : Bytes
    pub started : Bytes
    pub request : Request
    pub world : W
    pub same : request ≡ record req { header = request.header }
    pub others :
        (name : Bytes)
        → canonical (bytes "User-Agent") ≢ canonical name
        → canonical correlation_header ≢ canonical name
        → get request.header name ≡ get req.header name
    pub given :
        (get req.header correlation_header ≡ id)
        ⊎ (is_empty (get req.header correlation_header) ≡ true)
    pub sent : get request.header correlation_header ≡ id
    pub agent :
        get request.header (bytes "User-Agent")
        ≡ agent_of (bytes "CombinedApp/1.0") (get req.header (bytes "User-Agent"))
    pub error :
        a.error
        ≡ (next
            ((correlation_key, id) ∷ (bytes "request_start", started) ∷ ctx)
            request
            world).error
    pub tagged :
        IsTagged id
          (next
            ((correlation_key, id) ∷ (bytes "request_start", started) ∷ ctx)
            request
            world).response
          a.response

distinct : canonical (bytes "User-Agent") ≢ canonical correlation_header
unfolding canonical
distinct h = absurd (ground (arith, h))

apart : canonical (bytes "X-Request-Duration") ≢ canonical correlation_header
unfolding canonical
apart h = absurd (ground (arith, h))

with_user_agent-keeps :
    (user_agent : Bytes) (req : Request) (name : Bytes)
    → canonical (bytes "User-Agent") ≢ canonical name
    → get (with_user_agent user_agent req).header name ≡ get req.header name
unfolding with_user_agent
with_user_agent-keeps user_agent req name other =
    get-set_ne req.header (bytes "User-Agent") name _ other

with_user_agent-get :
    (user_agent : Bytes) (req : Request)
    → get (with_user_agent user_agent req).header (bytes "User-Agent")
      ≡ agent_of user_agent (get req.header (bytes "User-Agent"))
unfolding with_user_agent
with_user_agent-get user_agent req = get-set_self req.header (bytes "User-Agent") _

tags :
    (id duration : Bytes) (o : Option Response)
    → IsTagged id o
        (tag_response (bytes "X-Request-Duration") duration (tag_response correlation_header id o))
unfolding tag_response
tags id duration none = tt
tags id duration (some r) = (
  refl,
  get-set_ne (set r.header correlation_header id) (bytes "X-Request-Duration") correlation_header
        duration apart
      ∙ get-set_self r.header correlation_header id,
)

module _ {W : Type 0} (platform : Platform W) where
  -- The request goes on with the correlation ID that `correlate` gives.
  correlate-sends :
      (req : Request) (w : W)
      → get (correlate platform req w).1.header correlation_header ≡ (correlate platform req w).0
  unfolding correlate
  correlate-sends req w =
      if_either {A = Bytes × Request × W} (λ x. get x.1.header correlation_header ≡ x.0)
        (is_empty (get req.header correlation_header)) _ _
        (get-set_self req.header correlation_header _) refl

  correlate-keeps :
      (req : Request) (w : W)
      → (get req.header correlation_header ≡ (correlate platform req w).0)
        ⊎ (is_empty (get req.header correlation_header) ≡ true)
  unfolding correlate
  correlate-keeps req w = elim (Bool-cases (is_empty (get req.header correlation_header))) [
    | inl empty ↦ inr empty
    | inr given ↦ inl (rw (correlate, given) refl)
  ]

  -- What `correlate` leaves of a request.
  correlate-same :
      (user_agent : Bytes) (req : Request) (w : W)
      → with_user_agent user_agent (correlate platform req w).1
        ≡ record req { header = (with_user_agent user_agent (correlate platform req w).1).header }
  unfolding correlate with_user_agent
  correlate-same user_agent req w =
      if_either {A = Bytes × Request × W}
        (λ x.
          with_user_agent user_agent x.1
          ≡ record req { header = (with_user_agent user_agent x.1).header })
        (is_empty (get req.header correlation_header)) _ _ refl refl

  correlate-others :
      (req : Request) (w : W) (name : Bytes)
      → canonical correlation_header ≢ canonical name
      → get (correlate platform req w).1.header name ≡ get req.header name
  unfolding correlate
  correlate-others req w name other =
      if_either {A = Bytes × Request × W} (λ x. get x.1.header name ≡ get req.header name)
        (is_empty (get req.header correlation_header)) _ _
        (get-set_ne req.header correlation_header name _ other) refl

  nested-IsTraced :
      (timer : RequestTimer) (next : Handler W) (ctx : Context) (req : Request) (w : W)
      → IsTraced next ctx req (
          handle_timed platform timer
            (correlation_id_middleware platform
              (user_agent_middleware platform (bytes "CombinedApp/1.0") next))
            ctx
            req
            w)
  unfolding handle_timed correlation_id_middleware user_agent_middleware
  nested-IsTraced timer next ctx req w =
      let (id, req', w') = correlate platform req (platform.now w).1 in
      record {
        id = id;
        started = _;
        request = with_user_agent (bytes "CombinedApp/1.0") req';
        world = _;
        same = correlate-same (bytes "CombinedApp/1.0") req (platform.now w).1;
        others = λ name user_agent correlation.
            with_user_agent-keeps (bytes "CombinedApp/1.0") req' name user_agent
            ∙ correlate-others req (platform.now w).1 name correlation;
        given = correlate-keeps req (platform.now w).1;
        sent =
            with_user_agent-keeps (bytes "CombinedApp/1.0") req' correlation_header distinct
            ∙ correlate-sends req (platform.now w).1;
        agent =
            with_user_agent-get (bytes "CombinedApp/1.0") req'
            ∙ ap (agent_of (bytes "CombinedApp/1.0")) (
                correlate-others req (platform.now w).1 (bytes "User-Agent")
                  (λ e. distinct (sym e)));
        error = refl;
        tagged = tags _ _ _;
      }

  -- Through the three middlewares of the example's `main`, whatever the client's own handler does: the
  -- handler is called with the request that came in, method, URL, host, path, body and length, and the
  -- value of each header but two. The correlation ID in its header is the one in its context, and the request's own
  -- where it has one; the user agent is the example's, followed by the request's own if it has one. The
  -- error is the handler's, and a response has the handler's status and the same correlation ID.
  pub combined-IsTraced :
      (base : Handler W) (ctx : Context) (req : Request) (w : W)
      → IsTraced base ctx req (combined platform base ctx req w)
  unfolding combined middlewares wrap_middleware
  combined-IsTraced base ctx req w =
      subst (λ h. IsTraced base ctx req (h ctx req w))
        (sym (chain-nest base (middlewares platform))) (nested-IsTraced api_timer base ctx req w)
