-- ===== src/Stream/Tests.antt =====
-- Streams at concrete inputs.
use httpio.Base.{◌≡◌, refl, ◌++◌, pos, List, [], ◌∷◌, none, some, arith, Bytes, bytes}
use httpio.Http.{eof, foreign}
use httpio.Stream.{Callback, Reads, more, last, hand, stream_loop}
use httpio.Stream.{Decodes, value, stop}
use httpio.Stream.Sse.{
  Event, EventSourceHandler, sse_loop, process_line, set_field, write_data, finished, new_decoder,
  no_event, read_events,
}
use httpio.Base.{ℕ, suc, sym, ap, eq, cut, trim_prefix, strip_prefix, has_prefix}
use httpio.Stream.Scanner.{Reader, scan_lines, drop_cr}
use httpio.Stream.Sse.{stream_sse, event_full_handler}
use httpio.Stream.Sse.Closed.{Counts, stream_sse-closed}
use httpio.Stream.Sse.RoundTrip.{write_events, is_plain, IsSendable}

-- A handler that keeps what it gets, newest first.
abbrev log : {A : Type 0} → Callback A (List A)
log a w = (none, a ∷ w)

abbrev reads : Reads
reads = more (bytes "ab") (more [] (last (bytes "c") eof))

streamed : stream_loop log reads [] ≡ (none, bytes "c" ∷ bytes "ab" ∷ [])
unfolding stream_loop hand
streamed = refl

abbrev hello : Event
hello = record { id = bytes "1"; event = bytes "greet"; data_ = bytes "hello"; retry = pos 5 }

hello-IsSendable : IsSendable hello
unfolding is_plain
hello-IsSendable = record {
  id_plain = refl;
  event_plain = refl;
  data_plain = refl;
  data_given = refl;
  id_fits = omega arith;
  event_fits = omega arith;
  data_fits = omega arith;
}

abbrev collect : EventSourceHandler (List Event)
collect = record { on_event = log; lifecycle = none }

abbrev lines : List Bytes
lines = bytes "data: a" ∷ bytes "data:b" ∷ [] ∷ bytes "event: lost" ∷ [] ∷ bytes "data: c" ∷ [] ∷ []

-- Two data lines are one event; an event type without data stays for the event that follows.
dispatched : sse_loop log lines none new_decoder [] ≡ (
  none,
  record { id = []; event = bytes "lost"; data_ = bytes "c"; retry = pos 0 }
      ∷ record { id = []; event = []; data_ = bytes "a" ++ 10 ∷ bytes "b"; retry = pos 0 }
      ∷ [],
)
unfolding sse_loop process_line set_field write_data finished new_decoder no_event
dispatched = refl

-- A handler that fails at its first event; the world counts the calls of `close`.
abbrev failing : EventSourceHandler ℕ
failing = record {
  on_event = λ e w. (some (foreign 2), w);
  lifecycle = some (record { on_open = λ w. (none, w); on_close = λ w. (some (foreign 3), w) });
}

failing-Counts : Counts suc failing (λ w. w)
failing-Counts = record {
  closing = λ w. refl;
  event = λ e w. refl;
  opening = λ l w h. sym (ap (λ o. elim o [ none ↦ w | some k ↦ (k.on_open w).1 ]) h);
  ending = λ l w h. sym (ap (λ o. elim o [ none ↦ w | some k ↦ (k.on_close w).1 ]) h);
}

abbrev reader : Reader
reader = record { content = write_events (hello ∷ []); failure = none }

stream_sse-closed_example : (stream_sse suc failing reader 0).1 ≡ suc 0
stream_sse-closed_example = stream_sse-closed failing-Counts reader 0

abbrev documents : Decodes ℕ
documents = value 1 (value 2 (stop eof))

-- A handler whose functions are nil takes every event.
silent :
    stream_sse
      (λ w. suc w)
      (event_full_handler
        (record { on_event_func = none; on_open_func = none; on_close_func = none }))
      (record { content = write_events (hello ∷ []); failure = none })
      0
    ≡ (none, 1)
unfolding event_full_handler stream_sse read_events sse_loop process_line set_field write_data
    finished new_decoder no_event write_events scan_lines drop_cr eq cut trim_prefix strip_prefix
    has_prefix
silent = refl
