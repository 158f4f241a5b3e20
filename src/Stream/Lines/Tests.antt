-- ===== src/Stream/Lines/Tests.antt =====
-- `StreamLines` and `StreamInto` at concrete inputs.
use httpio.Base.{
  ℕ, ◌≡◌, refl, List, [], ◌∷◌, ◌++◌, none, some, Bytes, bytes, is_some, true, arith, strip_prefix,
  contains, has_prefix, eq, map,
}
use httpio.Http.{eof, foreign, errorf}
use httpio.Stream.{
  Callback, json_loop, value, stop, with_delimiter, with_content_type, apply_options,
  default_stream_options, check_content_type,
}
use httpio.Stream.Scanner.{drop_cr}
use httpio.Stream.Sse.Deliver.{deliver}
use httpio.Stream.Lines.{
  cut_at, scan, line_of, lines_loop, stream_lines, from_value, from_pointer, into_loop, stream_into,
  invalid_unmarshal,
}
use httpio.Stream.Lines.Ends.{lines_loop-ends}
use httpio.Stream.Lines.Pieces.{text, last_line, lines_loop-text}

program : Unit {0}
unfolding cut_at scan line_of lines_loop stream_lines into_loop stream_into strip_prefix contains
    has_prefix eq drop_cr with_delimiter with_content_type apply_options default_stream_options
    check_content_type deliver
program = tt

abbrev log : {A : Type 0} → Callback A (List A)
log a w = (none, a ∷ w)

-- The second line fails.
abbrev fails_on_empty : Callback Bytes (List Bytes)
fails_on_empty [] w = (some (foreign 3), w)
fails_on_empty (c ∷ s) w = (none, (c ∷ s) ∷ w)

lines_loop-text_example :
    lines_loop 9 (44 ∷ []) log (some (foreign 1)) (text 44 (bytes "a" ∷ [] ∷ []) (bytes "b")) []
    ≡ some (
        deliver log
          (map (line_of (44 ∷ [])) ((bytes "a" ∷ [] ∷ []) ++ last_line (bytes "b")))
          (some (foreign 1))
          [])
lines_loop-text_example =
    lines_loop-text 44 log (some (foreign 1)) 9 (bytes "a" ∷ [] ∷ []) (bytes "b") []
      (((omega arith, tt), omega arith), ((tt, omega arith), tt)) ((omega arith, tt), omega arith)
      (omega arith)

lines_loop-ends_example :
    is_some (lines_loop 9 (bytes "--") fails_on_empty none (bytes "a----b") []) ≡ true
lines_loop-ends_example =
    lines_loop-ends (bytes "--") fails_on_empty none 9 (bytes "a----b") [] (omega arith)
      (omega arith)

-- A delimiter of two bytes, the failing handler, a carriage return, the wrong type of content, and the
-- empty delimiter, which gives empty lines on and on.
runs :
    (stream_lines 9
        (λ w. w)
        log
        (with_delimiter (bytes "--") ∷ [])
        []
        (some (record { content = bytes "a----b"; failure = some (foreign 1) }))
        []
      ≡ some (some (foreign 1), bytes "b" ∷ [] ∷ bytes "a" ∷ []))
    × (stream_lines 9
          (λ w. bytes "closed" ∷ w)
          fails_on_empty
          (with_delimiter (bytes "--") ∷ [])
          []
          (some (record { content = bytes "a----b"; failure = none }))
          []
        ≡ some (some (foreign 3), bytes "closed" ∷ bytes "a" ∷ []))
    × (stream_lines 9
          (λ w. w)
          log
          []
          []
          (some (record { content = 97 ∷ 13 ∷ 10 ∷ []; failure = none }))
          []
        ≡ some (none, bytes "a" ∷ []))
    × (stream_lines 9
          (λ w. w)
          log
          (with_content_type (bytes "text") ∷ [])
          (bytes "x")
          (some (record { content = bytes "a"; failure = none }))
          []
        ≡ some (some (errorf (bytes "unexpected content type: x")), []))
    × (stream_lines 9
          (λ w. w)
          log
          (with_delimiter [] ∷ [])
          []
          (some (record { content = bytes "a"; failure = none }))
          []
        ≡ none)
unfolding program
runs = (refl, refl, refl, refl, refl)

-- A handler that does not take a pointer is never called.
into :
    (stream_into {A = ℕ} (λ w. w) (from_value log) (some (value 1 (value 2 (stop eof)))) []
      ≡ (some invalid_unmarshal, []))
    × (stream_into {A = ℕ} (λ w. w) (from_pointer log) (some (value 1 (value 2 (stop eof)))) []
        ≡ (none, 2 ∷ 1 ∷ []))
unfolding program json_loop
into = (refl, refl)
