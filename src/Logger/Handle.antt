-- ===== src/Logger/Handle.antt =====
-- middleware/logger/logger.go: the handler of the logger middleware. `New` leaves neither the logger
-- nor the generator nil.
pub mod Clean
pub mod Passes
use httpio.Base.{
  ℕ, ◌+◌, ◌-◌, ◌*◌, ◌^◌, Bool, true, false, ◌||◌, ◌&&◌, List, [], ◌∷◌, ◌++◌, Option, none, some,
  Bytes, bytes, is_empty, is_some, leb, ltb, if◌then◌else◌,
}
use Prim.Native.Nat.{◌/◌}
use httpio.Http.{Error, Request, Response, Context, Answer, Handler}
use httpio.Http.Headers.{get, set}
use httpio.Logger.{
  Config, Logger, Fields, Field, text, number, header, Parsers, level_error, level_info,
  level_debug, level_trace, redact_headers, redact_json_fields, truncate_body, should_skip_logging,
}

-- Packages io, time, uuid and fmt. A response's body is a number that the world knows; a request's is
-- given by its bytes, and the world says whether they can be read.
pub record Platform (W : Type 0) : Type 0 where
  pub read_request : Bytes → W → Bool × W
  pub read_all : ℕ → W → Option Bytes × W
  pub close : ℕ → W → W
  pub new_body : Bytes → W → ℕ × W
  pub now : W → ℕ × W
  pub random_id : W → ℕ × W
  pub show_error : Error → Bytes
  pub show_number : ℕ → Bytes

abbrev pub request_id_key : Bytes
request_id_key = bytes "request_id"

-- `WithContext(ctx, requestID)`
unfoldable pub with_context : Context → Bytes → Context
with_context ctx id = (request_id_key, id) ∷ ctx

module _ {W : Type 0} (platform : Platform W) (parsers : Parsers) (config : Config W) where
  -- `m.config.Logger.Log(...)`
  abbrev pub log : Logger W
  log ctx level msg fields w = elim config.logger [ none ↦ w | some f ↦ f ctx level msg fields w ]

  abbrev pub generate : W → Bytes × W
  generate w = elim config.request_id_generator [ none ↦ ([], w) | some f ↦ f w ]

  -- `SampleRate < 1.0 && float64(id) > SampleRate * float64(^uint64(0))`, where the second number
  -- is 2^64 as a float64.
  unfoldable pub is_left_out : ℕ → Bool
  is_left_out id = ltb (config.sample_rate.0 * 2 ^ 64) (id * config.sample_rate.1)

  -- Whether sampling leaves the request out; the random number is drawn if the rate is below 1.
  unfoldable pub sample : W → Bool × W
  sample w =
      if config.enable_sampling && ltb config.sample_rate.0 config.sample_rate.1
      then (let (id, w') = platform.random_id w in (is_left_out id, w'))
      else (false, w)

  -- The request's identifier; a new one is set as a header if it is to be propagated.
  unfoldable pub identify : Request → W → Bytes × Request × W
  identify req w =
      let existing = get req.header config.request_id_header in
      if is_empty existing
      then (let (id, w') = generate w in
          (
            id,
            if config.propagate_request_id
                then record req { header = set req.header config.request_id_header id }
                else req,
            w',
          ))
      else (existing, req, w)

  -- The text of a body in a log.
  abbrev logged_body : Bytes → Field
  logged_body b = text (truncate_body (redact_json_fields parsers config.sensitive_fields b))

  -- The fields of a request's entry, with that of the body if it has one.
  unfoldable pub request_fields : Request → Fields → Fields
  request_fields req body =
      (bytes "method", text req.method)
      ∷ (bytes "url", text req.url)
      ∷ ((if leb level_debug config.level
            then (bytes "headers", header (redact_headers config.sensitive_headers req.header)) ∷ []
            else [])
          ++ body)

  -- `duplicateBody(req.Body, &bodyBuffer)`: a body that cannot be read becomes nil, and is logged as
  -- an empty one.
  unfoldable pub duplicate_request : Request → Option Bytes → W → Fields × Request × W
  duplicate_request req none w = ([], req, w)
  duplicate_request req (some b) w =
      let (readable, w') = platform.read_request b w in
      if readable
      then ((bytes "body", logged_body b) ∷ [], req, w')
      else ((bytes "body", logged_body []) ∷ [], record req { body = none }, w')

  -- The request's body in an entry, and the request that goes on.
  unfoldable pub take_body : Request → W → Fields × Request × W
  unfolding duplicate_request
  take_body req w =
      if leb level_trace config.level then duplicate_request req req.body w else ([], req, w)

  unfoldable pub log_request : Context → Request → W → Request × W
  unfolding request_fields take_body
  log_request ctx req w =
      if leb level_info config.level
      then (let (body, req', w') = take_body req w in
          (req', log ctx level_info (bytes "Outgoing request") (request_fields req body) w'))
      else (req, w)

  -- `duplicateBody(resp.Body, &bodyBuffer)`: a body that cannot be read becomes nil.
  unfoldable pub duplicate_body : ℕ → W → Bytes × Option ℕ × W
  duplicate_body b w =
      let (content, w1) = platform.read_all b w in
      elim content [
        | none ↦ ([], none, w1)
        | some s ↦ let (copy, w2) = platform.new_body s (platform.close b w1) in (s, some copy, w2)
      ]

  abbrev pub copied : Response → Option ℕ → W → Fields × Response × W
  unfolding duplicate_body
  copied resp none w = ([], resp, w)
  copied resp (some b) w =
      let (s, copy, w') = duplicate_body b w in
      ((bytes "response_body", logged_body s) ∷ [], record resp { body = copy }, w')

  -- The response's body in an entry, and what the caller gets of it.
  unfoldable pub log_body : Response → W → Fields × Response × W
  unfolding copied
  log_body resp w = if leb level_trace config.level then copied resp resp.body w else ([], resp, w)

  unfoldable pub response_fields : Response → W → Fields × Response × W
  unfolding log_body
  response_fields resp w =
      let (body, resp', w') = log_body resp w in
      (
        (bytes "status", number resp.status_code)
            ∷ ((if leb level_debug config.level
                  then (
                    bytes "response_headers",
                    header (redact_headers config.sensitive_headers resp.header),
                  )
                    ∷ []
                  else [])
                ++ body),
        resp',
        w',
      )

  abbrev pub error_field : Option Error → Fields
  error_field none = []
  error_field (some e) = (bytes "error", text (platform.show_error e)) ∷ []

  -- The entry's message.
  unfoldable pub completed : Request → Option Response → Option Error → ℕ → Bytes
  completed req resp err ms =
      (req.method
        ++ (32 ∷ req.path ++ (bytes " completed in " ++ (platform.show_number ms ++ bytes "ms"))))
      ++ elim err [
        | some e ↦ bytes " with error: " ++ platform.show_error e
        | none ↦ elim resp [
          | none ↦ []
          | some r ↦ bytes " with status: " ++ platform.show_number r.status_code
        ]
      ]

  abbrev pub with_response : Option Response → W → Fields × Option Response × W
  with_response none w = ([], none, w)
  with_response (some r) w = let (f, r', w') = response_fields r w in (f, some r', w')

  -- The level of a response's entry.
  unfoldable pub level_of : Option Response → Option Error → ℕ
  level_of resp (some e) = level_error
  level_of none none = level_info
  level_of (some r) none = if leb 400 r.status_code then level_error else level_info

  -- The entry about a response, after `ms` milliseconds.
  unfoldable pub log_response : Context → ℕ → Answer W → Answer W
  unfolding response_fields completed
  log_response ctx ms a =
      let level = level_of a.response a.error in
      if ltb config.level level
      then a
      else let (fields, resp, w) = with_response a.response a.world in
        let common =
          (bytes "method", text a.request.method)
          ∷ (bytes "url", text a.request.url)
          ∷ (bytes "duration", number ms)
          ∷ error_field a.error in
        record a {
          response = resp;
          world = log ctx level (completed a.request a.response a.error ms) (common ++ fields) w;
        }

  -- `Handle` for a request that is logged.
  unfoldable pub handle_logged : Handler W → Handler W
  handle_logged next ctx req w =
      let (id, req', w1) = identify req w in
      let ctx' = with_context ctx id in
      let (sent, w2) = log_request ctx' req' w1 in
      let (start, w3) = platform.now w2 in
      let a = next ctx' sent w3 in
      let (stop, w4) = platform.now a.world in
      log_response ctx' ((stop - start) / 10 ^ 6) (record a { world = w4 })

  -- `Handle(next)`
  unfoldable pub handle : Handler W → Handler W
  handle next ctx req w =
      if should_skip_logging config.skip_paths req.path
      then next ctx req w
      else let (out, w') = sample w in
        if out then next ctx req w' else handle_logged next ctx req w'
