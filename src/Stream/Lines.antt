-- ===== src/Stream/Lines.antt =====
-- internal/client/stream.go: `StreamLines`, with bufio.Scanner over a reader that gives its bytes and
-- then ends or fails, and `StreamInto`.
pub mod Ends
pub mod Pieces
mod Tests
use httpio.Base.{
  ℕ, zero, suc, ◌+◌, Bool, List, [], ◌∷◌, Option, none, some, Bytes, bytes, eq, is_empty, leb,
  length, strip_prefix, if◌then◌else◌,
}
use httpio.Http.{Error, errorf}
use httpio.Stream.{
  Callback, StreamOption, default_stream_options, apply_options, check_content_type, unless_eof,
  nil_body, Decodes, value, stop, json_loop,
}
use httpio.Stream.Scanner.{Reader, max_scan_token_size, err_too_long, drop_cr}

-- The parts of the data before and behind the first `delimiter`, if `strings.Index` finds it.
unfoldable pub cut_at : Bytes → Bytes → Option (Bytes × Bytes)
cut_at delimiter [] = elim (strip_prefix [] delimiter) [ some rest ↦ some ([], rest) | none ↦ none ]
cut_at delimiter (c ∷ s) =
    let later = cut_at delimiter s in
    elim (strip_prefix (c ∷ s) delimiter) [
      | some rest ↦ some ([], rest)
      | none ↦ elim later [ none ↦ none | some p ↦ some (c ∷ p.0, p.1) ]
    ]

-- What a call of `Scan` does: a token, and the data behind it, or the end with what `Err` says.
pub data Scan : Type 0 where
  token : Bytes → Bytes → Scan
  ended : Option Error → Scan

abbrev pub token_or_too_long : ℕ → Bytes → Bytes → Scan
token_or_too_long n line rest =
    if leb n max_scan_token_size then token line rest else ended (some err_too_long)

-- The split function for a delimiter: a token must end within the buffer.
unfoldable pub scan : Bytes → Option Error → Bytes → Scan
unfolding cut_at
scan delimiter failure [] = ended failure
scan delimiter failure (c ∷ s) = elim (cut_at delimiter (c ∷ s)) [
  | some p ↦ token_or_too_long (length p.0 + length delimiter) p.0 p.1
  | none ↦ token_or_too_long (suc (length (c ∷ s))) (c ∷ s) []
]

-- `ScanLines` drops a carriage return; it is the split function for the delimiter "\n".
unfoldable pub line_of : Bytes → Bytes → Bytes
line_of delimiter line = if eq delimiter (10 ∷ []) then drop_cr line else line

-- The loop of `StreamLines`, with at most so many calls of `Scan`.
unfoldable pub lines_loop :
    {W : Type 0}
    → ℕ
    → Bytes
    → Callback Bytes W
    → Option Error
    → Bytes
    → W
    → Option (Option Error × W)
unfolding scan line_of
lines_loop zero delimiter handler failure content w = none
lines_loop (suc n) delimiter handler failure content w = elim (scan delimiter failure content) [
  | ended e ↦ some (e, w)
  | token line rest ↦
      let handed = handler (line_of delimiter line) w in
      let later = lines_loop n delimiter handler failure rest handed.1 in
      elim handed.0 [ some h ↦ some (some h, handed.1) | none ↦ later ]
]

-- `StreamLines(r, handler, opts...)`: the body is closed on every return but the first.
unfoldable pub stream_lines :
    {W : Type 0}
    → ℕ
    → (W → W)
    → Callback Bytes W
    → List StreamOption
    → Bytes
    → Option Reader
    → W
    → Option (Option Error × W)
stream_lines fuel close handler opts content_type none w = some (some nil_body, w)
stream_lines fuel close handler opts content_type (some r) w =
    let options = apply_options opts default_stream_options in
    let read = lines_loop fuel options.delimiter_str handler r.failure r.content w in
    elim (check_content_type options content_type) [
      | some e ↦ some (some e, close w)
      | none ↦ elim read [ none ↦ none | some a ↦ some (a.0, close a.1) ]
    ]

-- What reflection tells of the argument `handler` of `StreamInto`: a function from a pointer or from
-- another type to an error, or something else.
pub data IntoHandler (A W : Type 0) : Type 0 where
  not_a_function : IntoHandler A W
  other_signature : IntoHandler A W
  from_pointer : Callback A W → IntoHandler A W
  from_value : Callback A W → IntoHandler A W

-- `json.InvalidUnmarshalError`, what `Decode` gives for a value that is no pointer.
abbrev pub invalid_unmarshal : Error
invalid_unmarshal = errorf (bytes "json: Unmarshal(non-pointer)")

-- The loop of `StreamInto`. `Decode` reads a value before it looks at its argument.
unfoldable pub into_loop : {A W : Type 0} → IntoHandler A W → Decodes A → W → Option Error × W
into_loop not_a_function decodes w = (some (errorf (bytes "handler must be a function")), w)
into_loop other_signature decodes w =
    (some (errorf (bytes "handler must have the signature func(T) error")), w)
into_loop (from_pointer handler) decodes w = json_loop handler decodes w
into_loop (from_value handler) (stop e) w = (unless_eof e, w)
into_loop (from_value handler) (value a decodes) w = (some invalid_unmarshal, w)

-- `StreamInto(r, handler, opts...)`: the options are applied and not read.
unfoldable pub stream_into :
    {A W : Type 0} → (W → W) → IntoHandler A W → Option (Decodes A) → W → Option Error × W
stream_into close handler none w = (some nil_body, w)
stream_into close handler (some decodes) w =
    let result = into_loop handler decodes w in (result.0, close result.1)
