-- ===== src/Client/Readers.antt =====
-- internal/client/response.go: the methods of a response that read its whole body, which is not nil;
-- and the stream methods of responses and requests.
use httpio.Base.{
  ℕ, Bool, true, List, [], ◌∷◌, ◌++◌, Option, none, some, Bytes, bytes, is_empty, length, drop,
  take, map, if◌then◌else◌,
}
use httpio.Http.{Error, Response, Context}
use httpio.Http.Headers.{get}
use httpio.Stream.{Callback, StreamOption, Reads, more, last, Decodes, stream, stream_json}
use httpio.Stream.Scanner.{Reader}
use httpio.Stream.Lines.{IntoHandler, stream_lines, stream_into}
use httpio.Stream.Sse.{EventSourceHandler}
use httpio.Client.{ClientRequest}
use httpio.Client.Execute.{Platform, Outcome, do_}
use httpio.Client.Responses.{response_stream_sse}

-- Bodies by their numbers: io.ReadAll, io.Copy to a writer and to io.Discard, `Decode`, `Close`.
pub record Bodies (W : Type 0) : Type 0 where
  pub read_all : ℕ → W → Bytes × Option Error × W
  pub copy : ℕ → W → ℕ × Option Error × W
  pub discard : ℕ → W → Option Error × W
  pub decode : ℕ → W → Option Error × W
  pub close : ℕ → W → Option Error × W

module _ {W : Type 0} (bodies : Bodies W) (body : ℕ) where
  abbrev closing : W → W
  closing w = (bodies.close body w).1

  -- `Bytes()`
  unfoldable pub read_bytes : W → Bytes × Option Error × W
  read_bytes w = let (s, e, w') = bodies.read_all body w in (s, e, closing w')

  -- `String()`: no text comes with an error.
  unfoldable pub read_string : W → Bytes × Option Error × W
  unfolding read_bytes
  read_string w =
      let (s, e, w') = read_bytes w in elim e [ none ↦ (s, none, w') | some f ↦ ([], some f, w') ]

  -- `JSON(v)`
  unfoldable pub read_json : W → Option Error × W
  read_json w = let (e, w') = bodies.decode body w in (e, closing w')

  -- `Close()`
  unfoldable pub close : W → Option Error × W
  close w = bodies.close body w

  -- `WriteTo(w)`
  unfoldable pub write_to : W → ℕ × Option Error × W
  write_to w = let (n, e, w') = bodies.copy body w in (n, e, closing w')

  -- `Consume()`
  unfoldable pub consume : W → Option Error × W
  consume w = let (e, w') = bodies.discard body w in (e, closing w')

-- A channel of slices that share one buffer: their lengths, in the order in which they were sent.
pub record Channel : Type 0 where
  pub buf : Bytes
  pub slices : List ℕ
  pub is_closed : Bool

-- `Read(buf)` writes over the front of the buffer; `ch <- buf[:n]` sends a slice of it.
unfoldable pub send_slice : Bytes → Channel → Channel
send_slice chunk ch =
    let read : Channel = record ch { buf = chunk ++ drop (length chunk) ch.buf } in
    if is_empty chunk then read else record read { slices = ch.slices ++ length chunk ∷ [] }

-- The loop of `Pipe(ch)`; its error may be that of the end.
unfoldable pub pipe : Reads → Channel → Error × Channel
pipe (more chunk reads) ch = pipe reads (send_slice chunk ch)
pipe (last chunk e) ch = (e, record (send_slice chunk ch) { is_closed = true })

-- What is read from the slices by a receiver that takes them after the loop.
abbrev pub received : Channel → List Bytes
received ch = map (λ n. take n ch.buf) ch.slices

-- What the stream functions read of a body by its number, and its closing.
pub record Streams (J W : Type 0) : Type 0 where
  pub reads : ℕ → W → Reads
  pub reader : ℕ → W → Reader
  pub decodes : ℕ → W → Decodes J
  pub close_stream : ℕ → W → W

module _ {J W : Type 0} (streams : Streams J W) where
  abbrev closing_of : Response → W → W
  closing_of r w = elim r.body [ none ↦ w | some b ↦ streams.close_stream b w ]

  abbrev opened : {A : Type 0} → (ℕ → W → A) → Response → W → Option A
  opened f r w = elim r.body [ none ↦ none | some b ↦ some (f b w) ]

  abbrev content_type_of : Response → Bytes
  content_type_of r = get r.header (bytes "Content-Type")

  -- `resp.Stream(handler, opts...)`
  unfoldable pub response_stream :
      Callback Bytes W → List StreamOption → Response → W → Option Error × W
  response_stream handler opts r w =
      stream (closing_of r) handler opts (content_type_of r) (opened streams.reads r w) w

  -- `resp.StreamLines(handler, opts...)`
  unfoldable pub response_stream_lines :
      ℕ → Callback Bytes W → List StreamOption → Response → W → Option (Option Error × W)
  response_stream_lines fuel handler opts r w =
      stream_lines fuel (closing_of r) handler opts (content_type_of r) (opened streams.reader r w)
        w

  -- `resp.StreamJSON(handler)`
  unfoldable pub response_stream_json : Callback J W → Response → W → Option Error × W
  response_stream_json handler r w =
      stream_json (closing_of r) handler (opened streams.decodes r w) w

  -- `resp.StreamInto(handler)`
  unfoldable pub response_stream_into : IntoHandler J W → Response → W → Option Error × W
  response_stream_into handler r w =
      stream_into (closing_of r) handler (opened streams.decodes r w) w

module _ {J W : Type 0} (platform : Platform J W) (streams : Streams J W) where
  -- What a stream method of a request makes of the results of `Do`; `none` where the code would look
  -- into a response that is nil.
  unfoldable pub then_stream :
      {A : Type 0} → (Option Error × W → A) → (Response → W → A) → Outcome J W → Option A
  then_stream failed read o = elim o.error [
    | some e ↦ some (failed (some e, o.world))
    | none ↦ elim o.response [ none ↦ none | some r ↦ some (read r o.world) ]
  ]

  -- `Stream(ctx, handler, opts...)`
  unfoldable pub request_stream :
      Context
      → Callback Bytes W
      → List StreamOption
      → ClientRequest J W
      → W
      → Option (Option Error × W)
  unfolding then_stream response_stream
  request_stream ctx handler opts r w =
      then_stream (λ x. x) (response_stream streams handler opts) (do_ platform ctx r w)

  -- `StreamLines(ctx, handler, opts...)`
  unfoldable pub request_stream_lines :
      ℕ
      → Context
      → Callback Bytes W
      → List StreamOption
      → ClientRequest J W
      → W
      → Option (Option (Option Error × W))
  unfolding then_stream response_stream_lines
  request_stream_lines fuel ctx handler opts r w =
      then_stream some (response_stream_lines streams fuel handler opts) (do_ platform ctx r w)

  -- `StreamJSON(ctx, handler)`
  unfoldable pub request_stream_json :
      Context → Callback J W → ClientRequest J W → W → Option (Option Error × W)
  unfolding then_stream response_stream_json
  request_stream_json ctx handler r w =
      then_stream (λ x. x) (response_stream_json streams handler) (do_ platform ctx r w)

  -- `StreamInto(ctx, handler)`
  unfoldable pub request_stream_into :
      Context → IntoHandler J W → ClientRequest J W → W → Option (Option Error × W)
  unfolding then_stream response_stream_into
  request_stream_into ctx handler r w =
      then_stream (λ x. x) (response_stream_into streams handler) (do_ platform ctx r w)

  -- `StreamSSE(ctx, handler)`
  unfoldable pub request_stream_sse :
      Context → EventSourceHandler W → ClientRequest J W → W → Option (Option Error × W)
  unfolding then_stream
  request_stream_sse ctx handler r w =
      then_stream (λ x. x)
        (λ resp.
          response_stream_sse platform
            (λ s v. elim s.body [
              | none ↦ record { content = []; failure = none }
              | some b ↦ streams.reader b v
            ])
            (closing_of streams) resp handler)
        (do_ platform ctx r w)
