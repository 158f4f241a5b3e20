-- ===== src/Logger/Handle/Passes.antt =====
-- middleware/logger/logger.go: the handler passes the call on, and hands its results back.
use mathlib.Core.Option
use httpio.Base.{
  Bool, if◌then◌else◌, [], Bool-cases, true, false, ℕ, ◌≡◌, refl, sym, ap, subst, ◌⊎◌, inl, inr,
  Option, none, some, Bytes, is_empty, if_either, leb, ltb,
}
use httpio.Http.{Header, Context, Request, Response, Answer, Handler}
use httpio.Http.Headers.{get, set}
use httpio.Logger.{Config, Fields, Parsers, level_info, level_trace, should_skip_logging}
use httpio.Logger.Handle.{
  Platform, with_context, sample, identify, duplicate_request, take_body, duplicate_body, log_body,
  response_fields, with_response, copied, level_of, log_request, log_response, handle_logged,
  handle,
}

-- A response without its reader.
abbrev pub status_and_header : Response → ℕ × Header
status_and_header r = (r.status_code, r.header)

module _ {W : Type 0} (platform : Platform W) (parsers : Parsers) (config : Config W) where
  -- The request, perhaps with the header of the identifier set.
  abbrev pub IsTagged : Request → Request → Type 0
  IsTagged req req' =
      (req' ≡ req)
      ⊎ ((id : Bytes) × (req' ≡ record req { header = set req.header config.request_id_header id }))

  -- At the most detailed level, the request's body could not be read, and is gone.
  abbrev pub IsLost : Request → Request → Type 0
  IsLost r r' =
      (leb level_trace config.level ≡ true)
      × ((b : Bytes) × (v : W) × (r.body ≡ some b)
          × ((platform.read_request b v).0 ≡ false)
          × (r' ≡ record r { body = none }))

  -- The answer is that of one call of the next handler, up to the response's reader.
  pub record IsPassedOn (next : Handler W) (ctx : Context) (req : Request) (a : Answer W)
      : Type 0 where
    pub context : Context
    pub request : Request
    pub world : W
    pub named_request : Request
    pub tagged : IsTagged req named_request
    pub sent : (request ≡ named_request) ⊎ IsLost named_request request
    pub named : (context ≡ ctx) ⊎ ((id : Bytes) × (context ≡ with_context ctx id))
    pub error : a.error ≡ (next context request world).error
    pub left : a.request ≡ (next context request world).request
    pub response :
        Option.map status_and_header a.response
        ≡ Option.map status_and_header (next context request world).response

  copied-status :
      (resp : Response) (o : Option ℕ) (w : W)
      → status_and_header (copied platform parsers config resp o w).1 ≡ status_and_header resp
  unfolding copied
  copied-status resp none w = refl
  copied-status resp (some b) w = refl

  with_response-status :
      (o : Option Response) (w : W)
      → Option.map status_and_header (with_response platform parsers config o w).1
        ≡ Option.map status_and_header o
  unfolding response_fields log_body
  with_response-status none w = refl
  with_response-status (some r) w =
      if_either {A = Fields × Response × W}
        (λ x. some (status_and_header x.1) ≡ some (status_and_header r))
        (leb level_trace config.level) _ _ (ap some (copied-status r r.body w)) refl

  log_response-same :
      (ctx : Context) (ms : ℕ) (a : Answer W)
      → ((log_response platform parsers config ctx ms a).error ≡ a.error)
        × ((log_response platform parsers config ctx ms a).request ≡ a.request)
        × (Option.map status_and_header (log_response platform parsers config ctx ms a).response
            ≡ Option.map status_and_header a.response)
  unfolding log_response
  log_response-same ctx ms a =
      if_either {A = Answer W}
        (λ x.
          (x.error ≡ a.error)
          × (x.request ≡ a.request)
          × (Option.map status_and_header x.response ≡ Option.map status_and_header a.response))
        (ltb config.level (level_of platform parsers config a.response a.error)) _ _
        (refl, refl, refl) (refl, refl, with_response-status a.response a.world)

  identify-IsTagged :
      (req : Request) (w : W) → IsTagged req (identify platform parsers config req w).1
  unfolding identify
  identify-IsTagged req w =
      if_either {A = Bytes × Request × W} (λ x. IsTagged req x.1)
        (is_empty (get req.header config.request_id_header)) _ _
        (if_either (IsTagged req) config.propagate_request_id _ req (inr (_, refl)) (inl refl))
        (inl refl)

  duplicate_request-sent :
      (req : Request) (w : W)
      → leb level_trace config.level ≡ true
      → (o : Option Bytes) → req.body ≡ o
      → ((duplicate_request platform parsers config req o w).1 ≡ req)
        ⊎ IsLost req (duplicate_request platform parsers config req o w).1
  unfolding duplicate_request
  duplicate_request-sent req w trace none full = inl refl
  duplicate_request-sent req w trace (some b) full =
      elim (Bool-cases (platform.read_request b w).0) [
        | inl good ↦ inl (rw (good, duplicate_request) refl)
        | inr bad ↦ inr (trace, (b, w, full, bad, rw (bad, duplicate_request) refl))
      ]

  taken_sent :
      (req : Request) (w : W) (traced : Bool)
      → leb level_trace config.level ≡ traced
      → let x : Fields × Request × W =
          if traced
          then duplicate_request platform parsers config req req.body w
          else ([], req, w) in
        (x.1 ≡ req) ⊎ IsLost req x.1
  taken_sent req w true h = duplicate_request-sent req w h req.body refl
  taken_sent req w false h = inl refl

  take_body-sent :
      (req : Request) (w : W)
      → ((take_body platform parsers config req w).1 ≡ req)
        ⊎ IsLost req (take_body platform parsers config req w).1
  unfolding take_body
  take_body-sent req w = taken_sent req w (leb level_trace config.level) refl

  log_request-sent :
      (ctx : Context) (req : Request) (w : W)
      → ((log_request platform parsers config ctx req w).0 ≡ req)
        ⊎ IsLost req (log_request platform parsers config ctx req w).0
  unfolding log_request
  log_request-sent ctx req w =
      if_either {A = Request × W} (λ x. (x.0 ≡ req) ⊎ IsLost req x.0) (leb level_info config.level)
        _ _ (take_body-sent req w) (inl refl)

  handle_logged-IsPassedOn :
      (next : Handler W) (ctx : Context) (req : Request) (w : W)
      → IsPassedOn next ctx req (handle_logged platform parsers config next ctx req w)
  unfolding handle_logged
  handle_logged-IsPassedOn next ctx req w =
      let (id, req', w1) = identify platform parsers config req w in
      let ctx' = with_context ctx id in
      let (sent, w2) = log_request platform parsers config ctx' req' w1 in
      let (start, w3) = platform.now w2 in
      let (e, q, r) = log_response-same ctx' _ (record (next ctx' sent w3) { world = _ }) in
      record {
        context = ctx';
        request = sent;
        world = w3;
        named_request = req';
        sent = log_request-sent ctx' req' w1;
        tagged = identify-IsTagged req w;
        named = inr (id, refl);
        error = e;
        left = q;
        response = r;
      }

  direct-IsPassedOn :
      (next : Handler W) (ctx : Context) (req : Request) (w : W)
      → IsPassedOn next ctx req (next ctx req w)
  direct-IsPassedOn next ctx req w = record {
    context = ctx;
    request = req;
    world = w;
    named_request = req;
    sent = inl refl;
    tagged = inl refl;
    named = inl refl;
    error = refl;
    left = refl;
    response = refl;
  }

  -- Whatever is logged or left out, the answer of `Handle` is that of one call of the next handler:
  -- the same error, the same request in the end, and a response with the same status and header or
  -- none if there is none. The call's request is the one that came in, or it with the identifier's
  -- header set, but for a body that could not be read for an entry of the most detailed level: then it
  -- has none. Its context is the one that came in, or it with an identifier.
  pub handle-IsPassedOn :
      (next : Handler W) (ctx : Context) (req : Request) (w : W)
      → IsPassedOn next ctx req (handle platform parsers config next ctx req w)
  unfolding handle
  handle-IsPassedOn next ctx req w =
      if_either (IsPassedOn next ctx req) (should_skip_logging config.skip_paths req.path) _ _
        (direct-IsPassedOn next ctx req w)
        (if_either (IsPassedOn next ctx req) (sample platform parsers config w).0 _ _
          (direct-IsPassedOn next ctx req _) (handle_logged-IsPassedOn next ctx req _))

  -- What the middleware relies on in bytes.NewBuffer: a new reader gives its bytes.
  pub record IsReadable : Type 0 where
    pub reads_new :
        (s : Bytes) (w : W)
        → (platform.read_all (platform.new_body s w).0 (platform.new_body s w).1).0 ≡ some s

  -- The response has a reader that gives the bytes.
  abbrev pub Reads : Bytes → Response → W → Type 0
  Reads s resp w = (b : ℕ) × (resp.body ≡ some b) × ((platform.read_all b w).0 ≡ some s)

  copied-Reads :
      (resp : Response) (w : W) (b : ℕ) (s : Bytes)
      → IsReadable
      → (platform.read_all b w).0 ≡ some s
      → Reads s
          (copied platform parsers config resp (some b) w).1
          (copied platform parsers config resp (some b) w).2
  unfolding copied duplicate_body
  copied-Reads resp w b s lawful read =
      rw (read, duplicate_body) ((platform.new_body s _).0, refl, lawful.reads_new s _)

  -- Logging does not use up a body that can be read: where the response's reader would give some
  -- bytes, the response that is handed back has a reader, perhaps a new one, that gives them when the
  -- fields have been made, at every level. That a reader made of bytes gives these is assumed.
  pub response_fields-Reads :
      (resp : Response) (w : W) (b : ℕ) (s : Bytes)
      → IsReadable
      → resp.body ≡ some b
      → (platform.read_all b w).0 ≡ some s
      → Reads s
          (response_fields platform parsers config resp w).1
          (response_fields platform parsers config resp w).2
  unfolding response_fields log_body
  response_fields-Reads resp w b s lawful full read =
      if_either {A = Fields × Response × W} (λ x. Reads s x.1 x.2) (leb level_trace config.level) _
        _
        (subst
          (λ o.
            Reads s (copied platform parsers config resp o w).1
              (copied platform parsers config resp o w).2)
          (sym full) (copied-Reads resp w b s lawful read))
        (b, full, read)
