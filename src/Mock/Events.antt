-- ===== src/Mock/Events.antt =====
-- mockserver/mock_server.go and internal/client/stream.go: the client reads event by event what the
-- route of server-sent events writes.
mod Tests
use httpio.Base.{
  ℕ, suc, ◌≡◌, sym, ap, ◌∙◌, List, [], ◌∷◌, ◌++◌, Option, none, Bytes, bytes, append_assoc,
  append-nil, All, map,
}
use httpio.Http.{Error, Request}
use httpio.Stream.Sse.{Event, EventSourceHandler, read_events}
use httpio.Stream.Sse.Deliver.{deliver}
use httpio.Stream.Sse.RoundTrip.{
  write_event, write_events, append-write_event, IsSendable, received, read_events-write_events,
}
use httpio.Mock.{put_header, ResponseWriter, MockServer, write, handler}
use httpio.Mock.Dispatch.{write_whole, IsFresh, Asks, if_flusher-true, handler-add_route}
use httpio.Mock.Routes.{Platform, sse_items, add_sse_route, pause}

module _ {J S : Type 0} (platform : Platform J S) where
  sse_items-body :
      (i interval : ℕ) (es : List Event) (w : ResponseWriter) (s : S)
      → w.left ≡ none
      → (sse_items platform i interval es w s).0.body ≡ w.body ++ write_events es
  unfolding sse_items write_events
  sse_items-body i interval [] w s h = sym (append-nil w.body)
  sse_items-body i interval (e ∷ es) w s h =
      let (sent, body, left) = write_whole (write_event e []) w h in
      rw (sse_items, sent)
        (sse_items-body (suc i) interval es (write (write_event e []) w).1
            (pause platform i interval s) left
          ∙ ap (λ x. x ++ write_events es) body
          ∙ append_assoc w.body (write_event e []) (write_events es)
          ∙ ap (λ x. w.body ++ x) (append-write_event e (write_events es)))

  -- The headers of the route.
  abbrev opened : ResponseWriter → ResponseWriter
  opened w = put_header (bytes "Transfer-Encoding") (bytes "chunked") (
      put_header (bytes "Connection") (bytes "keep-alive") (
        put_header (bytes "Cache-Control") (bytes "no-cache")
          (put_header (bytes "Content-Type") (bytes "text/event-stream") w)))

  route-body :
      (path : Bytes) (es : List Event) (interval : ℕ) (ms : MockServer S) (w : ResponseWriter)
      (r : Request) (s : S)
      → ms.middleware ≡ []
      → Asks path r
      → IsFresh w
      → (handler (add_sse_route platform path es interval ms) w r s).0.body ≡ write_events es
  unfolding add_sse_route
  route-body path es interval ms w r s plain asks fresh =
      ap (λ x. x.0.body) (handler-add_route path _ ms w r s plain asks)
      ∙ ap (λ x. x.0.body)
          (if_flusher-true platform (sse_items platform 0 interval es) (opened w) s fresh.flushes)
      ∙ sse_items-body 0 interval es (opened w) s fresh.unbroken
      ∙ ap (λ x. x ++ write_events es) fresh.unwritten

  -- On a server without global middlewares a GET request for the path of a route of server-sent events,
  -- whose connection does not break, is answered with a body from which `StreamSSE` gives its handler
  -- exactly the events of the route, in order and without a retry time, until the handler fails; then
  -- comes the error of the reader, if any. The fields of the events have no line end and no carriage
  -- return, some data, and lines shorter than the scanner's limit.
  pub read_events-handler :
      (path : Bytes) (es : List Event) (interval : ℕ) (ms : MockServer S) (w : ResponseWriter)
      (r : Request) (s : S) {W : Type 0} (f : EventSourceHandler W) (failure : Option Error) (v : W)
      → ms.middleware ≡ []
      → Asks path r
      → IsFresh w
      → All IsSendable es
      → read_events f
          (record {
            content = (handler (add_sse_route platform path es interval ms) w r s).0.body;
            failure = failure;
          })
          v
        ≡ deliver f.on_event (map received es) failure v
  read_events-handler path es interval ms w r s f failure v plain asks fresh sendable =
      ap (λ b. read_events f (record { content = b; failure = failure }) v)
        (route-body path es interval ms w r s plain asks fresh)
      ∙ read_events-write_events f es failure v sendable
