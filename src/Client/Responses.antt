-- ===== src/Client/Responses.antt =====
-- internal/client/response.go: what a status code says, and the stream methods of responses and
-- requests that check what they read.
use httpio.Base.{
  ℕ, ◌+◌, ◌≡◌, Bool, true, false, ◌&&◌, ◌||◌, Option, some, bytes, arith, leb, contains,
  if◌then◌else◌, ◌++◌,
}
use httpio.Http.{Error, errorf, Response}
use httpio.Http.Headers.{get}
use httpio.Stream.Scanner.{Reader}
use httpio.Stream.Sse.{EventSourceHandler, stream_sse}
use httpio.Client.Execute.{Platform}

unfoldable pub is_success : Response → Bool
is_success r = leb 200 r.status_code && leb r.status_code 299

unfoldable pub is_redirect : Response → Bool
is_redirect r = leb 300 r.status_code && leb r.status_code 399

unfoldable pub is_client_error : Response → Bool
is_client_error r = leb 400 r.status_code && leb r.status_code 499

unfoldable pub is_server_error : Response → Bool
is_server_error r = leb 500 r.status_code && leb r.status_code 599

unfoldable pub is_error : Response → Bool
unfolding is_client_error is_server_error
is_error r = is_client_error r || is_server_error r

-- 1 for what holds.
abbrev pub one : Bool → ℕ
one true = 1
one false = 0

-- How many of the three kinds of answer a response is.
pub kinds : Response → ℕ
unfolding is_success is_redirect is_error
kinds r = one (is_success r) + (one (is_redirect r) + one (is_error r))

-- A response is a success, a redirect or an error, and one of them only, exactly if its status lies
-- between 200 and 599; else it is none of them.
pub kinds_lem : (r : Response) → kinds r ≡ one (leb 200 r.status_code && leb r.status_code 599)
unfolding kinds
kinds_lem r = ground arith

module _ {J W : Type 0} (platform : Platform J W) (reader : Response → W → Reader)
    (close : Response → W → W) where
  -- `resp.StreamSSE(handler)`: another content type is an error, and the body is closed.
  unfoldable pub response_stream_sse : Response → EventSourceHandler W → W → Option Error × W
  response_stream_sse r handler w =
      let content_type = get r.header (bytes "Content-Type") in
      if contains content_type (bytes "text/event-stream")
      then stream_sse (close r) handler (reader r w) w
      else (some (errorf (bytes "unexpected content type for SSE: " ++ content_type)), close r w)
