-- ===== src/Mock/Routes.antt =====
-- mockserver/mock_server.go: the routes that answer with JSON, streams of JSON, and events.
use httpio.Base.{
  ℕ, ℤ, pos, negsuc, ◌*◌, suc, zero, Bool, false, List, [], ◌∷◌, ◌++◌, Option, none, some, Bytes,
  bytes, ◌==◌, if◌then◌else◌,
}
use httpio.Mock.{
  ResponseWriter, RouteHandler, MockServer, put_header, write_header, write, http_error, add_route,
  add_route_with_methods,
}
use httpio.Stream.Sse.{Event}
use httpio.Stream.Sse.RoundTrip.{write_event}

-- `type ResponseConfig`; `data_` is `none` for nil.
pub record ResponseConfig (J : Type 0) : Type 0 where
  pub status_code : ℕ
  pub headers : List (Bytes × Bytes)
  pub data_ : Option J
  pub delay : ℤ

-- Packages time and encoding/json; `marshal` of a value that cannot be marshalled is `none`.
pub record Platform (J S : Type 0) : Type 0 where
  pub sleep : ℕ → S → S
  pub marshal : J → Option Bytes

-- `if delay > 0 { time.Sleep(delay) }`
abbrev pub sleep_for : {J S : Type 0} → Platform J S → ℤ → S → S
sleep_for platform (pos zero) s = s
sleep_for platform (pos (suc n)) s = platform.sleep (suc n) s
sleep_for platform (negsuc n) s = s

-- `if delay == 0 { delay = ms.defaultDelay }`
abbrev pub delay_or : ℤ → ℤ → ℤ
delay_or (pos zero) d = d
delay_or (pos (suc n)) d = pos (suc n)
delay_or (negsuc n) d = negsuc n

abbrev set_all : List (Bytes × Bytes) → ResponseWriter → ResponseWriter
set_all [] w = w
set_all ((k, v) ∷ hs) w = set_all hs (put_header k v w)

abbrev with_newline : Bytes → Bytes
with_newline b = b ++ 10 ∷ []

module _ {J S : Type 0} (platform : Platform J S) where
  -- `json.NewEncoder(w).Encode(data)`: whether it succeeds.
  unfoldable pub write_json : J → ResponseWriter → Bool × ResponseWriter
  unfolding write
  write_json j w = elim (platform.marshal j) [
    | none ↦ (false, w)
    | some b ↦ write (with_newline b) w
  ]

  -- `handleJSONResponse(w, r, config)`
  unfoldable pub handle_json_response : ResponseConfig J → RouteHandler S
  unfolding write_json http_error write_header
  handle_json_response config default_delay w r s =
      let s' = sleep_for platform (delay_or config.delay default_delay) s in
      let w1 =
        write_header (if config.status_code == 0 then 200 else config.status_code) (
          set_all config.headers
            (put_header (bytes "Content-Type") (bytes "application/json") w)) in
      elim config.data_ [
        | none ↦ (w1, s')
        | some j ↦
            let (sent, w2) = write_json j w1 in
            (if sent then w2 else http_error (bytes "Internal Server Error") 500 w2, s')
      ]

  -- `AddJSONRoute(path, config)`
  unfoldable pub add_json_route : Bytes → ResponseConfig J → MockServer S → MockServer S
  unfolding handle_json_response add_route
  add_json_route path config ms = add_route path (handle_json_response config) ms

  -- `AddJSONRouteWithMethods(path, config, methods)`
  unfoldable pub add_json_route_with_methods :
      Bytes → ResponseConfig J → List Bytes → MockServer S → MockServer S
  unfolding handle_json_response add_route_with_methods
  add_json_route_with_methods path config methods ms =
      add_route_with_methods path (handle_json_response config) methods ms

  -- The handler goes on only with a writer that can flush.
  unfoldable pub if_flusher :
      (ResponseWriter → S → ResponseWriter × S) → ResponseWriter → S → ResponseWriter × S
  unfolding http_error
  if_flusher go w s =
      if w.can_flush then go w s else (http_error (bytes "Streaming not supported") 500 w, s)

  -- `if i > 0 { time.Sleep(interval) }`; the time is in nanoseconds.
  abbrev pub pause : ℕ → ℕ → S → S
  pause zero interval s = s
  pause (suc i) interval s = platform.sleep (interval * 1000000) s

  -- The loop of `AddStreamingJSONRoute`, from the i-th item on.
  unfoldable pub stream_items : ℕ → ℕ → List J → ResponseWriter → S → ResponseWriter × S
  unfolding write_json
  stream_items i interval [] w s = (w, s)
  stream_items i interval (j ∷ items) w s =
      let s' = pause i interval s in
      let sent = write_json j w in
      let rest = stream_items (suc i) interval items sent.1 s' in
      if sent.0 then rest else (sent.1, s')

  -- `AddStreamingJSONRoute(path, items, intervalMs)`
  unfoldable pub add_streaming_json_route : Bytes → List J → ℕ → MockServer S → MockServer S
  unfolding stream_items add_route if_flusher
  add_streaming_json_route path items interval ms =
      add_route path
        (λ delay w r s.
          if_flusher (stream_items 0 interval items)
            (put_header (bytes "X-Content-Type-Options") (bytes "nosniff") (
              put_header (bytes "Transfer-Encoding") (bytes "chunked")
                (put_header (bytes "Content-Type") (bytes "application/json") w)))
            s)
        ms

  -- `AddStreamingRoute(path, streamFunc)`
  unfoldable pub add_streaming_route :
      Bytes → (ResponseWriter → S → ResponseWriter × S) → MockServer S → MockServer S
  unfolding add_route if_flusher
  add_streaming_route path stream_func ms =
      add_route path
        (λ delay w r s.
          if_flusher stream_func
            (put_header (bytes "X-Content-Type-Options") (bytes "nosniff") (
              put_header (bytes "Transfer-Encoding") (bytes "chunked")
                (put_header (bytes "Content-Type") (bytes "application/json") w)))
            s)
        ms

  -- The loop of `AddNDJSONRoute`: an item that cannot be marshalled is left out.
  unfoldable pub ndjson_items : ℕ → ℕ → List J → ResponseWriter → S → ResponseWriter × S
  unfolding write
  ndjson_items i interval [] w s = (w, s)
  ndjson_items i interval (j ∷ items) w s =
      let s' = pause i interval s in
      let skipped = ndjson_items (suc i) interval items w s' in
      elim (platform.marshal j) [
        | none ↦ skipped
        | some b ↦
            let sent = write (with_newline b) w in
            let rest = ndjson_items (suc i) interval items sent.1 s' in
            if sent.0 then rest else (sent.1, s')
      ]

  unfoldable pub ndjson_handler : List J → ℕ → RouteHandler S
  unfolding ndjson_items if_flusher
  ndjson_handler items interval delay w r s =
      if_flusher (ndjson_items 0 interval items)
        (put_header (bytes "Transfer-Encoding") (bytes "chunked")
          (put_header (bytes "Content-Type") (bytes "application/x-ndjson") w))
        s

  -- `AddNDJSONRoute(path, items, intervalMs)`
  unfoldable pub add_ndjson_route : Bytes → List J → ℕ → MockServer S → MockServer S
  unfolding ndjson_handler add_route
  add_ndjson_route path items interval ms = add_route path (ndjson_handler items interval) ms

  -- The loop of `AddSSERoute`.
  unfoldable pub sse_items : ℕ → ℕ → List Event → ResponseWriter → S → ResponseWriter × S
  unfolding write write_event
  sse_items i interval [] w s = (w, s)
  sse_items i interval (e ∷ events) w s =
      let s' = pause i interval s in
      let sent = write (write_event e []) w in
      let rest = sse_items (suc i) interval events sent.1 s' in
      if sent.0 then rest else (sent.1, s')

  -- `AddSSERoute(path, events, intervalMs)`
  unfoldable pub add_sse_route : Bytes → List Event → ℕ → MockServer S → MockServer S
  unfolding sse_items add_route if_flusher
  add_sse_route path events interval ms =
      add_route path
        (λ delay w r s.
          if_flusher (sse_items 0 interval events)
            (put_header (bytes "Transfer-Encoding") (bytes "chunked") (
              put_header (bytes "Connection") (bytes "keep-alive") (
                put_header (bytes "Cache-Control") (bytes "no-cache")
                  (put_header (bytes "Content-Type") (bytes "text/event-stream") w))))
            s)
        ms
