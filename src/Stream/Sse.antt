-- ===== src/Stream/Sse.antt =====
-- internal/client/stream.go: `StreamSSE`, which reads a stream of Server-Sent Events.
pub mod Deliver
pub mod RoundTrip
pub mod Closed
use httpio.Base.{
  ℕ, zero, suc, ◌+◌, ◌-◌, ◌*◌, ◌^◌, ℤ, pos, negsuc, Bool, true, false, ◌&&◌, List, [], ◌∷◌, ◌++◌,
  Option, none, some, Bytes, bytes, eq, has_prefix, trim_prefix, cut, is_empty, ltb, leb, ◌==◌,
  if◌then◌else◌,
}
use httpio.Http.{Error}
use httpio.Stream.{Callback}
use httpio.Stream.Scanner.{Reader, Scanned, scan_lines}

-- `type Event`; `data_` is its field Data.
pub record Event : Type 0 where
  pub id : Bytes
  pub event : Bytes
  pub data_ : Bytes
  pub retry : ℤ

-- `Event{}`
unfoldable pub no_event : Event
no_event = record { id = []; event = []; data_ = []; retry = pos 0 }

-- `strconv.Atoi` on a 64-bit platform: digits behind an optional sign, within the range of int.
digits_from : ℕ → Bytes → Option ℕ
digits_from n [] = some n
digits_from n (c ∷ s) = if leb 48 c && leb c 57 then digits_from (n * 10 + (c - 48)) s else none

unsigned : Bytes → Option ℕ
unfolding digits_from
unsigned [] = none
unsigned (c ∷ s) = digits_from 0 (c ∷ s)

abbrev negated : ℕ → Option ℤ
negated zero = some (pos 0)
negated (suc n) = if ltb n (2 ^ 63) then some (negsuc n) else none

abbrev positive : ℕ → Option ℤ
positive n = if ltb n (2 ^ 63) then some (pos n) else none

unfoldable pub atoi : Bytes → Option ℤ
unfolding unsigned
atoi [] = none
atoi (c ∷ s) =
    if c == 45
    then elim (unsigned s) [ none ↦ none | some n ↦ negated n ]
    else if c == 43
    then elim (unsigned s) [ none ↦ none | some n ↦ positive n ]
    else elim (unsigned (c ∷ s)) [ none ↦ none | some n ↦ positive n ]

-- The variables of the loop: `event`, and the contents of the builder `data`.
pub record Decoder : Type 0 where
  pub event : Event
  pub built : Bytes

unfoldable pub new_decoder : Decoder
unfolding no_event
new_decoder = record { event = no_event; built = [] }

-- `data.WriteString(value)`, behind a line end if there is data already.
unfoldable pub write_data : Bytes → Decoder → Decoder
write_data value d = record d { built = if is_empty d.built then value else d.built ++ 10 ∷ value }

-- The switch on the field.
unfoldable pub set_field : Bytes → Bytes → Decoder → Decoder
unfolding eq atoi write_data
set_field field value d =
    if eq field (bytes "event")
    then record d { event = record d.event { event = value } }
    else if eq field (bytes "id")
    then record d { event = record d.event { id = value } }
    else if eq field (bytes "retry")
    then elim (atoi value) [ none ↦ d | some n ↦ record d { event = record d.event { retry = n } } ]
    else if eq field (bytes "data")
    then write_data value d
    else d

-- A line that is not blank: a comment, or a field with its value.
unfoldable pub process_line : Bytes → Decoder → Decoder
unfolding has_prefix cut trim_prefix set_field
process_line line d =
    if has_prefix line (bytes ":")
    then d
    else let parts = cut 58 line in
      set_field parts.0 (elim parts.1 [ none ↦ [] | some rest ↦ trim_prefix rest (bytes " ") ]) d

-- The event that a blank line ends.
unfoldable pub finished : Decoder → Event
finished d = record d.event { data_ = d.built }

module _ {W : Type 0} (on_event : Callback Event W) where
  -- The loop over the lines; `failure` is what `scanner.Err()` says behind the last one.
  unfoldable pub sse_loop : List Bytes → Option Error → Decoder → W → Option Error × W
  sse_loop [] failure d w = (failure, w)
  sse_loop (line ∷ lines) failure d w = elim (is_empty line) [
    | false ↦ sse_loop lines failure (process_line line d) w
    | true ↦ elim (is_empty d.built) [
      | true ↦ sse_loop lines failure d w
      | false ↦
          let handed = on_event (finished d) w in
          elim handed.0 [
            | some e ↦ (some e, handed.1)
            | none ↦ sse_loop lines failure new_decoder handed.1
          ]
    ]
  ]

-- `EventSourceFullHandler` without its `OnEvent`.
pub record Lifecycle (W : Type 0) : Type 0 where
  pub on_open : W → Option Error × W
  pub on_close : W → Option Error × W

-- `EventSourceHandler`; `lifecycle` says whether it is an `EventSourceFullHandler` too.
pub record EventSourceHandler (W : Type 0) : Type 0 where
  pub on_event : Callback Event W
  pub lifecycle : Option (Lifecycle W)

-- `EventHandlerFunc`: a function as a handler.
abbrev pub event_handler_func : {W : Type 0} → Callback Event W → EventSourceHandler W
event_handler_func f = record { on_event = f; lifecycle = none }

-- `type EventFullHandlerFunc struct`; a nil function is `none`.
pub record EventFullHandlerFunc (W : Type 0) : Type 0 where
  pub on_event_func : Option (Callback Event W)
  pub on_open_func : Option (W → Option Error × W)
  pub on_close_func : Option (W → Option Error × W)

abbrev call_or_none : {W : Type 0} → Option (W → Option Error × W) → W → Option Error × W
call_or_none none w = (none, w)
call_or_none (some f) w = f w

-- `OnEvent`, `OnOpen` and `OnClose` of `EventFullHandlerFunc`.
unfoldable pub event_full_handler : {W : Type 0} → EventFullHandlerFunc W → EventSourceHandler W
event_full_handler l = record {
  on_event = λ event w. elim l.on_event_func [ none ↦ (none, w) | some f ↦ f event w ];
  lifecycle =
      some
        (record { on_open = call_or_none l.on_open_func; on_close = call_or_none l.on_close_func });
}

-- The part of `StreamSSE` behind `OnOpen`.
unfoldable pub read_events : {W : Type 0} → EventSourceHandler W → Reader → W → Option Error × W
read_events handler reader w =
    let s = scan_lines reader in sse_loop handler.on_event s.lines s.failure new_decoder w

module _ {W : Type 0} (close : W → W) where
  -- `StreamSSE(reader, handler)`: the deferred calls run in reverse order on every return.
  unfoldable pub stream_sse : EventSourceHandler W → Reader → W → Option Error × W
  stream_sse handler reader w = elim handler.lifecycle [
    | none ↦ let result = read_events handler reader w in (result.0, close result.1)
    | some l ↦
        let opened = l.on_open w in
        elim opened.0 [
          | some e ↦ (some e, close opened.1)
          | none ↦
              let result = read_events handler reader opened.1 in
              (result.0, close (l.on_close result.1).1)
        ]
  ]
