-- ===== src/Logger/Handle/Clean.antt =====
-- middleware/logger/logger.go: what the handler gives to the logger, and what it leaves as it is.
use httpio.Base.{
  ℕ, ◌≤◌, ◌≡◌, ◌⊎◌, inl, inr, Bool, false, List, [], ◌∷◌, ◌++◌, Option, none, some, Bytes, arith,
  Bool-cases, Option-cases, if_either, is_empty, ltb, ◌&&◌, bytes, if◌then◌else◌, All, leb, leb→le,
}
use httpio.Http.{Header, Context, Request, Response, Answer, Handler, Error}
use httpio.Http.Headers.{get}
use httpio.Logger.{
  Config, Field, Fields, text, number, header, Parsers, redacted, redact_headers,
  is_sensitive_header, should_skip_logging, level_info, level_debug, level_trace,
}
use httpio.Logger.Handle.{
  Platform, log, generate, with_response, copied, error_field, level_of, sample, identify,
  duplicate_request, take_body, request_fields, log_request, duplicate_body, log_body,
  response_fields, log_response, handle_logged, handle,
}

-- The values of a sensitive header are the mark.
abbrev pub IsHidden : List Bytes → Bytes × List Bytes → Type 0
IsHidden sensitive (name, vals) =
    (is_sensitive_header sensitive name ≡ false) ⊎ (vals ≡ redacted ∷ [])

abbrev pub IsCleanField : List Bytes → Bytes × Field → Type 0
IsCleanField sensitive (k, text s) = Unit
IsCleanField sensitive (k, number n) = Unit
IsCleanField sensitive (k, header h) = All (IsHidden sensitive) h

abbrev pub IsClean : List Bytes → Fields → Type 0
IsClean sensitive fields = All (IsCleanField sensitive) fields

All-append : {A : Type 0} (P : A → Type 0) (xs ys : List A) → All P xs → All P ys → All P (xs ++ ys)
All-append P [] ys h k = k
All-append P (x ∷ xs) ys (p, h) k = (p, All-append P xs ys h k)

redact_headers-IsHidden :
    (sensitive : List Bytes) (h : Header) → All (IsHidden sensitive) (redact_headers sensitive h)
unfolding redact_headers
redact_headers-IsHidden sensitive [] = tt
redact_headers-IsHidden sensitive ((name, vals) ∷ h) = (
  elim (Bool-cases (is_sensitive_header sensitive name)) [
    | inl hidden ↦ inr (rw hidden)
    | inr plain ↦ inl plain
  ],
  redact_headers-IsHidden sensitive h,
)

module _ {W : Type 0} (platform : Platform W) (parsers : Parsers) (config : Config W) where
  -- A predicate that the platform, the generator and the next handler keep, and that an entry keeps
  -- whose level is enabled and whose headers are clean.
  pub record Keeps (Q : W → Type 0) (next : Handler W) : Type 0 where
    pub on_log :
        (ctx : Context) (level : ℕ) (msg : Bytes) (fields : Fields) (w : W)
        → IsClean config.sensitive_headers fields
        → level ≤ config.level
        → Q w
        → Q (log platform parsers config ctx level msg fields w)
    pub on_generate : (w : W) → Q w → Q (generate platform parsers config w).1
    pub on_read_request : (b : Bytes) (w : W) → Q w → Q (platform.read_request b w).1
    pub on_read_all : (b : ℕ) (w : W) → Q w → Q (platform.read_all b w).1
    pub on_close : (b : ℕ) (w : W) → Q w → Q (platform.close b w)
    pub on_new_body : (s : Bytes) (w : W) → Q w → Q (platform.new_body s w).1
    pub on_now : (w : W) → Q w → Q (platform.now w).1
    pub on_random_id : (w : W) → Q w → Q (platform.random_id w).1
    pub on_next : (ctx : Context) (req : Request) (w : W) → Q w → Q (next ctx req w).world

  headers_field-IsClean :
      (b : Bool) (name : Bytes) (h : Header)
      → IsClean config.sensitive_headers
          (if b then (name, header (redact_headers config.sensitive_headers h)) ∷ [] else [])
  headers_field-IsClean b name h =
      if_either (IsClean config.sensitive_headers) b
        ((name, header (redact_headers config.sensitive_headers h)) ∷ []) []
        (redact_headers-IsHidden config.sensitive_headers h, tt) tt

  request_fields-IsClean :
      (req : Request) (body : Fields)
      → IsClean config.sensitive_headers body
      → IsClean config.sensitive_headers (request_fields platform parsers config req body)
  unfolding request_fields
  request_fields-IsClean req body clean = (
    tt,
    (
      tt,
      All-append (IsCleanField config.sensitive_headers) _ _
          (headers_field-IsClean (leb level_debug config.level) (bytes "headers") req.header) clean,
    ),
  )

  module _ (Q : W → Type 0) (next : Handler W) (keeps : Keeps Q next) where
    -- The fields are clean and the world is kept.
    abbrev IsFine : {A : Type 0} → Fields × A × W → Type 0
    IsFine r = IsClean config.sensitive_headers r.0 × Q r.2

    duplicate_request-IsFine :
        (req : Request) (o : Option Bytes) (w : W)
        → Q w
        → IsFine (duplicate_request platform parsers config req o w)
    unfolding duplicate_request
    duplicate_request-IsFine req none w q = (tt, q)
    duplicate_request-IsFine req (some b) w q =
        if_either {A = Fields × Request × W} IsFine (platform.read_request b w).0 _ _
          ((tt, tt), keeps.on_read_request b w q) ((tt, tt), keeps.on_read_request b w q)

    take_body-IsFine :
        (req : Request) (w : W) → Q w → IsFine (take_body platform parsers config req w)
    unfolding take_body
    take_body-IsFine req w q =
        if_either {A = Fields × Request × W} IsFine (leb level_trace config.level)
          (duplicate_request platform parsers config req req.body w) ([], req, w)
          (duplicate_request-IsFine req req.body w q) (tt, q)

    log_request-keeps :
        (ctx : Context) (req : Request) (w : W)
        → Q w
        → Q (log_request platform parsers config ctx req w).1
    unfolding log_request
    log_request-keeps ctx req w q = elim (Bool-cases (leb level_info config.level)) [
      | inr low ↦ rw (low, log_request) q
      | inl high ↦
          let (clean, kept) = take_body-IsFine req w q in
          let (body, req', w') = take_body platform parsers config req w in
          rw (high, log_request)
            (keeps.on_log ctx level_info _ (request_fields platform parsers config req body) w'
              (request_fields-IsClean req body clean) (leb→le _ _ high) kept)
    ]

    identify-keeps : (req : Request) (w : W) → Q w → Q (identify platform parsers config req w).2
    unfolding identify
    identify-keeps req w q =
        if_either {A = Bytes × Request × W} (λ r. Q r.2)
          (is_empty (get req.header config.request_id_header)) _ _ (keeps.on_generate w q) q

    sample-keeps : (w : W) → Q w → Q (sample platform parsers config w).1
    unfolding sample
    sample-keeps w q =
        if_either {A = Bool × W} (λ r. Q r.1)
          (config.enable_sampling && ltb config.sample_rate.0 config.sample_rate.1) _ _
          (keeps.on_random_id w q) q

    duplicate_body-keeps : (b : ℕ) (w : W) → Q w → Q (duplicate_body platform parsers config b w).2
    unfolding duplicate_body
    duplicate_body-keeps b w q = elim (Option-cases (platform.read_all b w).0) [
      | inl failed ↦ rw (failed, duplicate_body) (keeps.on_read_all b w q)
      | inr (s, read) ↦
          rw (read, duplicate_body)
            (keeps.on_new_body s _ (keeps.on_close b _ (keeps.on_read_all b w q)))
    ]

    copied-IsFine :
        (resp : Response) (o : Option ℕ) (w : W)
        → Q w
        → IsFine (copied platform parsers config resp o w)
    unfolding copied
    copied-IsFine resp none w q = (tt, q)
    copied-IsFine resp (some b) w q = ((tt, tt), duplicate_body-keeps b w q)

    log_body-IsFine :
        (resp : Response) (w : W) → Q w → IsFine (log_body platform parsers config resp w)
    unfolding log_body
    log_body-IsFine resp w q =
        if_either IsFine (leb level_trace config.level)
          (copied platform parsers config resp resp.body w) ([], resp, w)
          (copied-IsFine resp resp.body w q) (tt, q)

    response_fields-IsFine :
        (resp : Response) (w : W) → Q w → IsFine (response_fields platform parsers config resp w)
    unfolding response_fields
    response_fields-IsFine resp w q =
        let (body, kept) = log_body-IsFine resp w q in
        (
          (
            tt,
            All-append (IsCleanField config.sensitive_headers) _ _
                (headers_field-IsClean (leb level_debug config.level) (bytes "response_headers")
                  resp.header)
                body,
          ),
          kept,
        )

    with_response-IsFine :
        (o : Option Response) (w : W) → Q w → IsFine (with_response platform parsers config o w)
    with_response-IsFine none w q = (tt, q)
    with_response-IsFine (some r) w q = response_fields-IsFine r w q

    error_field-IsClean :
        (e : Option Error)
        → IsClean config.sensitive_headers (error_field platform parsers config e)
    error_field-IsClean none = tt
    error_field-IsClean (some e) = (tt, tt)

    log_response-keeps :
        (ctx : Context) (ms : ℕ) (a : Answer W)
        → Q a.world
        → Q (log_response platform parsers config ctx ms a).world
    unfolding log_response
    log_response-keeps ctx ms a q =
        elim (Bool-cases (ltb config.level (level_of platform parsers config a.response a.error))) [
          | inl low ↦ rw (low) q
          | inr high ↦
              let (clean, kept) = with_response-IsFine a.response a.world q in
              rw (high) (
                keeps.on_log ctx (level_of platform parsers config a.response a.error) _ _ _
                  (
                    tt,
                    (
                      tt,
                      (
                        tt,
                        All-append (IsCleanField config.sensitive_headers) _ _
                            (error_field-IsClean a.error) clean,
                      ),
                    ),
                  )
                  (ground (arith, high)) kept)
        ]

    handle_logged-keeps :
        (ctx : Context) (req : Request) (w : W)
        → Q w
        → Q (handle_logged platform parsers config next ctx req w).world
    unfolding handle_logged
    handle_logged-keeps ctx req w q = log_response-keeps _ _ _ (
        keeps.on_now _
          (keeps.on_next _ _ _ (keeps.on_now _ (log_request-keeps _ _ _ (identify-keeps req w q)))))

    -- Whatever the next handler does: a predicate on the world that the platform, the generator, the
    -- next handler and every permitted entry keep holds again when `Handle` returns, if it held
    -- before. An entry is permitted whose level is within the configured one and in whose header maps
    -- each sensitive header has the one value "[REDACTED]".
    pub handle-keeps :
        (ctx : Context) (req : Request) (w : W)
        → Q w
        → Q (handle platform parsers config next ctx req w).world
    unfolding handle
    handle-keeps ctx req w q =
        if_either {A = Answer W} (λ a. Q a.world) (should_skip_logging config.skip_paths req.path) _
          _ (keeps.on_next ctx req w q)
          (if_either {A = Answer W} (λ a. Q a.world) (sample platform parsers config w).0 _ _
            (keeps.on_next ctx req _ (sample-keeps w q))
            (handle_logged-keeps ctx req _ (sample-keeps w q)))
