-- ===== src/Example/Streaming.antt =====
-- example/stream/mock_server.go: the server that the streaming examples read from. Writing, flushing and
-- sleeping are those of Mock.antt; the server's start is net/http's.
mod Tests
use httpio.Base.{
  ℕ, zero, suc, ◌+◌, ◌*◌, Bytes, bytes, List, [], ◌∷◌, ◌++◌, Option, none, some, if◌then◌else◌,
}
use httpio.Mock.{ResponseWriter, put_header, write, http_error}

-- What the handlers use of packages fmt and time.
pub record Clock (S : Type 0) : Type 0 where
  pub sleep : ℕ → S → S
  pub show_number : ℕ → Bytes

-- The three endpoints.
pub data Endpoint : Type 0 where
  lines : Endpoint
  objects : Endpoint
  events : Endpoint

-- The headers of each endpoint.
unfoldable pub headers_of : Endpoint → ResponseWriter → ResponseWriter
headers_of lines w =
    put_header (bytes "Transfer-Encoding") (bytes "chunked")
      (put_header (bytes "Content-Type") (bytes "text/plain") w)
headers_of objects w =
    put_header (bytes "Transfer-Encoding") (bytes "chunked")
      (put_header (bytes "Content-Type") (bytes "application/json") w)
headers_of events w = put_header (bytes "Connection") (bytes "keep-alive") (
    put_header (bytes "Cache-Control") (bytes "no-cache")
      (put_header (bytes "Content-Type") (bytes "text/event-stream") w))

-- `eventTypes[i%len(eventTypes)]`, where `i` counts up through the types.
unfoldable pub event_type : ℕ → Bytes
event_type zero = bytes "update"
event_type (suc zero) = bytes "message"
event_type (suc (suc zero)) = bytes "alert"
event_type (suc (suc (suc i))) = event_type i

module _ {S : Type 0} (clock : Clock S) where
  -- `fmt.Fprintf(w, ...)`, whose error is dropped.
  abbrev printf : Bytes → ResponseWriter → ResponseWriter
  printf text w = (write text w).1

  -- What a round of each loop writes.
  unfoldable pub write_round : Endpoint → ℕ → ResponseWriter → ResponseWriter
  unfolding write event_type
  write_round lines i w = printf (bytes "Line " ++ (clock.show_number i ++ 10 ∷ [])) w
  write_round objects i w =
      printf
        (bytes "{\"id\": \"msg-"
          ++ (clock.show_number i
              ++ (bytes "\", \"content\": \"This is message "
                  ++ (clock.show_number i ++ (bytes "\"}" ++ 10 ∷ [])))))
        w
  write_round events i w =
      printf (bytes "data: Event data for event " ++ (clock.show_number i ++ 10 ∷ 10 ∷ [])) (
        printf (bytes "event: " ++ (event_type i ++ 10 ∷ []))
          (printf (bytes "id: " ++ (clock.show_number i ++ 10 ∷ [])) w))

  -- How many rounds there are, and how long each sleeps, in nanoseconds.
  abbrev rounds_of : Endpoint → ℕ
  rounds_of lines = 10
  rounds_of objects = 5
  rounds_of events = 5

  abbrev pause_of : Endpoint → ℕ
  pause_of lines = 500000000
  pause_of objects = 1000000000
  pause_of events = 2000000000

  -- The loop from `i` on, with the rounds that are left.
  unfoldable pub rounds_from : Endpoint → ℕ → ℕ → ResponseWriter → S → ResponseWriter × S
  unfolding write_round
  rounds_from e zero i w s = (w, s)
  rounds_from e (suc n) i w s =
      rounds_from e n (suc i) (write_round e i w) (clock.sleep (pause_of e) s)

  abbrev refusal_of : Endpoint → Bytes
  refusal_of lines = bytes "Streaming not supported"
  refusal_of objects = bytes "Streaming not supported"
  refusal_of events = bytes "SSE not supported"

  -- The handlers of `StartMockServer`.
  unfoldable pub handle_stream : Endpoint → ResponseWriter → S → ResponseWriter × S
  unfolding headers_of rounds_from http_error
  handle_stream e w s =
      let w1 = headers_of e w in
      if w1.can_flush
      then rounds_from e (rounds_of e) 1 w1 s
      else (http_error (refusal_of e) 500 w1, s)
