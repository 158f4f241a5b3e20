-- ===== src/Stream/Sse/RoundTrip.antt =====
-- mockserver/mock_server.go: what `AddSSERoute` writes, and that `StreamSSE` reads it back.
use httpio.Base.{
  append_assoc, ◌+◌, ◌<◌, ◌≡◌, refl, ap, ◌∙◌, ◌≢◌, pos, Bool, true, false, ◌&&◌, not, List, [], ◌∷◌,
  ◌++◌, map, Option, arith, ◌==◌, Bytes, bytes, length, is_empty, All,
}
use httpio.Http.{Error}
use httpio.Stream.Scanner.{
  drop_cr, add_line, max_scan_token_size, scan_from, scan_lines, scan_from_line,
}
use httpio.Stream.Sse.{
  Event, EventSourceHandler, new_decoder, process_line, finished, read_events, no_event, set_field,
  write_data,
}
use httpio.Stream.Sse.Deliver.{events, deliver, sse_loop-deliver}

-- `fmt.Sprintf("id: %s\nevent: %s\ndata: %s\n\n", event.ID, event.Event, event.Data)`
abbrev id_line : Event → Bytes
id_line e = bytes "id: " ++ e.id

abbrev event_line : Event → Bytes
event_line e = bytes "event: " ++ e.event

abbrev data_line : Event → Bytes
data_line e = bytes "data: " ++ e.data_

unfoldable pub write_event : Event → Bytes → Bytes
write_event e rest = id_line e ++ 10 ∷ (event_line e ++ 10 ∷ (data_line e ++ 10 ∷ 10 ∷ rest))

-- The loop of `AddSSERoute` over the events of the route, where no write fails.
unfoldable pub write_events : List Event → Bytes
unfolding write_event
write_events [] = []
write_events (e ∷ es) = write_event e (write_events es)

pub append-write_event : (e : Event) (rest : Bytes) → write_event e [] ++ rest ≡ write_event e rest
unfolding write_event
append-write_event e rest =
    append_assoc (id_line e) _ rest
    ∙ ap (λ x. id_line e ++ 10 ∷ x)
        (append_assoc (event_line e) _ rest
          ∙ ap (λ x. event_line e ++ 10 ∷ x) (append_assoc (data_line e) (10 ∷ 10 ∷ []) rest))

-- No line end and no carriage return in a text.
unfoldable pub is_plain : Bytes → Bool
is_plain [] = true
is_plain (c ∷ s) = not (c == 10) && not (c == 13) && is_plain s

-- An event that one line for each field can hold, and that is not dropped for want of data.
pub record IsSendable (e : Event) : Type 0 where
  pub id_plain : is_plain e.id ≡ true
  pub event_plain : is_plain e.event ≡ true
  pub data_plain : is_plain e.data_ ≡ true
  pub data_given : is_empty e.data_ ≡ false
  pub id_fits : length e.id + 4 < max_scan_token_size
  pub event_fits : length e.event + 7 < max_scan_token_size
  pub data_fits : length e.data_ + 6 < max_scan_token_size

is_plain-All : (s : Bytes) → is_plain s ≡ true → All (λ c. c ≢ 10) s
unfolding is_plain
is_plain-All [] h = tt
is_plain-All (c ∷ s) h = ground (arith, is_plain-All s)

drop_cr-plain : (s : Bytes) → is_plain s ≡ true → drop_cr s ≡ s
unfolding is_plain drop_cr
drop_cr-plain [] h = refl
drop_cr-plain (c ∷ []) h = ground arith
drop_cr-plain (c ∷ d ∷ s) h = ap (λ t. c ∷ t) (drop_cr-plain (d ∷ s) (ground arith))

-- A plain line that fits the buffer is read as a token.
scan_plain :
    (line rest : Bytes) (failure : Option Error)
    → is_plain line ≡ true
    → length line < max_scan_token_size
    → scan_from [] 0 failure (line ++ 10 ∷ rest) ≡ add_line line (scan_from [] 0 failure rest)
scan_plain line rest failure h lt =
    scan_from_line [] line rest 0 failure (is_plain-All line h) (omega (arith, lt))
    ∙ ap (λ l. add_line l (scan_from [] 0 failure rest)) (drop_cr-plain line h)

-- The lines of the written events.
abbrev event_lines : List Event → List Bytes
event_lines [] = []
event_lines (e ∷ es) = id_line e ∷ event_line e ∷ data_line e ∷ [] ∷ event_lines es

scan-write_event :
    (e : Event) (rest : Bytes) (failure : Option Error)
    → IsSendable e
    → scan_from [] 0 failure (write_event e rest)
      ≡ add_line (id_line e) (
          add_line
            (event_line e)
            (add_line (data_line e) (add_line [] (scan_from [] 0 failure rest))))
unfolding write_event is_plain
scan-write_event e rest failure h =
    scan_plain (id_line e) (event_line e ++ 10 ∷ (data_line e ++ 10 ∷ 10 ∷ rest)) failure h.id_plain
      (omega (arith, h.id_fits))
    ∙ ap (add_line (id_line e)) (
        scan_plain (event_line e) (data_line e ++ 10 ∷ 10 ∷ rest) failure h.event_plain
          (omega (arith, h.event_fits))
        ∙ ap (add_line (event_line e)) (
            scan_plain (data_line e) (10 ∷ rest) failure h.data_plain (omega (arith, h.data_fits))
            ∙ ap (add_line (data_line e)) (scan_plain [] rest failure refl (omega arith))))

-- What the handler gets for an event: the writer sends no retry time.
unfoldable pub received : Event → Event
received e = record e { retry = pos 0 }

-- The field lines of an event fill an empty decoder with it.
fields :
    (e : Event)
    → process_line
        (data_line e)
        (process_line (event_line e) (process_line (id_line e) new_decoder))
      ≡ record {
        event = record { id = e.id; event = e.event; data_ = []; retry = pos 0 };
        built = e.data_;
      }
unfolding process_line new_decoder no_event set_field write_data
fields e = refl

events-event_lines :
    (es : List Event) → All IsSendable es → events (event_lines es) new_decoder ≡ map received es
unfolding events received finished
events-event_lines [] h = refl
events-event_lines (e ∷ es) h =
    ap (events ([] ∷ event_lines es)) (fields e)
    ∙ rw (h.0.data_given, events) (ap (λ xs. received e ∷ xs) (events-event_lines es h.1))

scan-write_events :
    (es : List Event) (failure : Option Error)
    → All IsSendable es
    → scan_from [] 0 failure (write_events es)
      ≡ record { lines = event_lines es; failure = failure }
unfolding write_events scan_from
scan-write_events [] failure h = refl
scan-write_events (e ∷ es) failure h =
    scan-write_event e (write_events es) failure h.0
    ∙ ap
        (λ s.
          add_line (id_line e) (add_line (event_line e) (add_line (data_line e) (add_line [] s))))
        (scan-write_events es failure h.1)

module _ {W : Type 0} (handler : EventSourceHandler W) where
  -- Events without line ends and carriage returns in their fields, with some data and lines shorter
  -- than the scanner's limit, are read back as they were written by the mock server, in order and
  -- without a retry time, until the handler fails; then comes the error of the reader, if any.
  pub read_events-write_events :
      (es : List Event) (failure : Option Error) (w : W)
      → All IsSendable es
      → read_events handler (record { content = write_events es; failure = failure }) w
        ≡ deliver handler.on_event (map received es) failure w
  unfolding read_events scan_lines
  read_events-write_events es failure w h =
      rw
        (
          scan-write_events es failure h,
          sse_loop-deliver handler.on_event failure (event_lines es) new_decoder w,
          events-event_lines es h,
        )
        refl
