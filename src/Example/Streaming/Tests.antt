-- ===== src/Example/Streaming/Tests.antt =====
-- What the client's parsers make of the example's streams.
use httpio.Base.{false, ℕ, ◌+◌, ◌≡◌, refl, true, false, bytes, [], ◌∷◌, ◌++◌, none, some, eq}
use httpio.Http.Headers.{get, set, put, values, canonical}
use httpio.Mock.{ResponseWriter, write, write_header, http_error}
use httpio.Example.Streaming.{
  Clock, lines, objects, events, headers_of, event_type, write_round, rounds_from, handle_stream,
}

program : Unit {0}
unfolding get set put values canonical eq write write_header http_error headers_of event_type
    write_round rounds_from handle_stream
program = tt

abbrev clock : Clock ℕ
clock = record { sleep = λ n s. s + n; show_number = λ n. (48 + n) ∷ [] }

abbrev fresh : ResponseWriter
fresh = record {
  header = [];
  status = none;
  body = [];
  left = none;
  can_flush = true;
  panicked = false;
}

streams :
    ((handle_stream clock objects (record fresh { left = some 1 }) 0).0.body
      ≡ bytes "{\"id\": \"msg-1\", \"content\": \"This is message 1\"}" ++ 10 ∷ [])
    × ((handle_stream clock lines fresh 0).1 ≡ 5000000000)
    × ((write_round clock events 4 fresh).body
        ≡ bytes "id: 4"
          ++ 10
            ∷ (bytes "event: message"
                ++ 10 ∷ (bytes "data: Event data for event 4" ++ 10 ∷ 10 ∷ [])))
    × ((handle_stream clock events (record fresh { can_flush = false }) 0).0.status ≡ some 500)
unfolding program
streams = (refl, refl, refl, refl)
