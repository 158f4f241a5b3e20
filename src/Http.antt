-- ===== src/Http.antt =====
-- What the library uses of net/http and context: requests, responses, headers, errors, and the
-- handler type of middleware/middleware.go.
pub mod Headers
use httpio.Base.{ℕ, ℤ, Bytes, Bool, List, Option}

-- A Go error: `errors.New`, `fmt.Errorf` around another error, `io.EOF`, or one that comes from
-- code that is not modelled (the network, a context, the caller's handlers).
pub data Error : Type 0 where
  errorf : Bytes → Error
  wrap : Bytes → Error → Error
  eof : Error
  foreign : ℕ → Error

-- `http.Header`: a map from canonical names to values.
abbrev pub Header : Type 0
Header = List (Bytes × List Bytes)

-- What `req.GetBody` does when it is called.
pub data BodySource : Type 0 where
  gives : Bytes → BodySource
  fails : Error → BodySource

-- `http.Request`. `url` is `URL.String()`; `get_body` is `none` where the function is nil.
pub record Request : Type 0 where
  pub method : Bytes
  pub url : Bytes
  pub host : Bytes
  pub path : Bytes
  pub header : Header
  pub body : Option Bytes
  pub get_body : Option BodySource
  pub content_length : ℤ

-- `http.Response`. `body` names a reader that the world holds.
pub record Response : Type 0 where
  pub status_code : ℕ
  pub header : Header
  pub body : Option ℕ

-- The values of a `context.Context`; its deadline is the world's.
abbrev pub Context : Type 0
Context = List (Bytes × Bytes)

-- What a handler leaves behind: its two results, the request, which it may have changed in place,
-- and the world.
pub record Answer (W : Type 0) : Type 0 where
  pub response : Option Response
  pub error : Option Error
  pub request : Request
  pub world : W

-- `type Handler func(ctx, req) (*http.Response, error)`
abbrev pub Handler : Type 0 → Type 0
Handler W = Context → Request → W → Answer W
