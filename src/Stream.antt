-- ===== src/Stream.antt =====
-- internal/client/stream.go: raw chunks and Server-Sent Events, with bufio.Scanner as far as they
-- use it.
pub mod Scanner
pub mod Chunks
pub mod Sse
pub mod Lines
mod Tests
use Prim.Native.Nat.{◌/◌, ◌%◌}
use httpio.Base.{
  ltb, ◌*◌, ℕ, suc, ◌+◌, Bool, true, false, List, [], ◌∷◌, ◌++◌, Option, none, some, Bytes, bytes,
  contains, is_empty, if◌then◌else◌,
}
use httpio.Http.{Error, errorf, eof}

-- A callback of the caller: an error, or none, and the world after it.
abbrev pub Callback : Type 0 → Type 0 → Type 0
Callback A W = A → W → Option Error × W

-- `type streamOptions`
pub record StreamOptions : Type 0 where
  pub buff_size : ℕ
  pub content_type : Bytes
  pub delimiter_str : Bytes
  pub delimiter_byte : ℕ

-- `type StreamOption func(*streamOptions)`
abbrev pub StreamOption : Type 0
StreamOption = StreamOptions → StreamOptions

unfoldable pub with_buffer_size : ℕ → StreamOption
with_buffer_size size o = record o { buff_size = size }

unfoldable pub with_delimiter : Bytes → StreamOption
with_delimiter delimiter o = record o { delimiter_str = delimiter }

-- `string(delimiter)`: the UTF-8 form of the character, which from 128 on has two bytes.
unfoldable pub string_of : ℕ → Bytes
string_of delimiter =
    if ltb delimiter 128
    then delimiter ∷ []
    else (192 + delimiter / 64) ∷ (128 + delimiter % 64) ∷ []

unfoldable pub with_byte_delimiter : ℕ → StreamOption
unfolding string_of
with_byte_delimiter delimiter o = record o {
  delimiter_byte = delimiter;
  delimiter_str = string_of delimiter;
}

unfoldable pub with_content_type : Bytes → StreamOption
with_content_type content_type o = record o { content_type = content_type }

unfoldable pub default_stream_options : StreamOptions
default_stream_options = record {
  buff_size = 4096;
  content_type = [];
  delimiter_str = 10 ∷ [];
  delimiter_byte = 10;
}

-- `for _, opt := range opts { opt(options) }`
unfoldable pub apply_options : List StreamOption → StreamOptions → StreamOptions
apply_options [] o = o
apply_options (opt ∷ opts) o = apply_options opts (opt o)

-- The content type check before a stream is read.
unfoldable pub check_content_type : StreamOptions → Bytes → Option Error
check_content_type options content_type =
    if is_empty options.content_type
    then none
    else if contains content_type options.content_type
    then none
    else some (errorf (bytes "unexpected content type: " ++ content_type))

-- What successive calls of `Read` give: bytes, and in the last call an error with them.
pub data Reads : Type 0 where
  more : Bytes → Reads → Reads
  last : Bytes → Error → Reads

-- `err == io.EOF`
abbrev pub unless_eof : Error → Option Error
unless_eof eof = none
unless_eof e = some e

module _ {W : Type 0} (handler : Callback Bytes W) where
  -- `if n > 0 { handler(buffer[:n]) }`
  unfoldable pub hand : Callback Bytes W
  hand chunk w = if is_empty chunk then (none, w) else handler chunk w

  -- The loop of `Stream`.
  unfoldable pub stream_loop : Reads → W → Option Error × W
  stream_loop (last chunk e) w =
      let (failed, w') = hand chunk w in
      elim failed [ some h ↦ (some h, w') | none ↦ (unless_eof e, w') ]
  stream_loop (more chunk reads) w =
      let handed = hand chunk w in
      elim handed.0 [ some h ↦ (some h, handed.1) | none ↦ stream_loop reads handed.1 ]

abbrev nil_body : Error
nil_body = errorf (bytes "response body is nil")

module _ {W : Type 0} (close : W → W) where
  -- `Stream(r, handler, opts...)`: the body is closed on every return but the first.
  unfoldable pub stream :
      Callback Bytes W → List StreamOption → Bytes → Option Reads → W → Option Error × W
  stream handler opts content_type none w = (some nil_body, w)
  stream handler opts content_type (some reads) w =
      let result : Option Error × W =
        elim (check_content_type (apply_options opts default_stream_options) content_type) [
          | some e ↦ (some e, w)
          | none ↦ stream_loop handler reads w
        ] in
      (result.0, close result.1)

-- What successive calls of `json.Decoder.Decode` give: values, and in the end an error.
pub data Decodes (A : Type 0) : Type 0 where
  value : A → Decodes A → Decodes A
  stop : Error → Decodes A

-- The loop of `StreamJSON`.
unfoldable pub json_loop : {A W : Type 0} → Callback A W → Decodes A → W → Option Error × W
json_loop handler (stop e) w = (unless_eof e, w)
json_loop handler (value a decodes) w =
    let handed = handler a w in
    elim handed.0 [ some h ↦ (some h, handed.1) | none ↦ json_loop handler decodes handed.1 ]

-- `StreamJSON(r, handler, opts...)`: the options are applied and not read.
unfoldable pub stream_json :
    {A W : Type 0} → (W → W) → Callback A W → Option (Decodes A) → W → Option Error × W
stream_json close handler none w = (some nil_body, w)
stream_json close handler (some decodes) w =
    let result = json_loop handler decodes w in (result.0, close result.1)
