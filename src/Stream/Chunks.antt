-- ===== src/Stream/Chunks.antt =====
-- internal/client/stream.go: what `Stream` and `StreamJSON` hand to their callbacks.
use httpio.Base.{◌≡◌, refl, inl, inr, List, [], ◌∷◌, ap, Option, some, Bytes, Option-cases}
use httpio.Http.{Error}
use httpio.Stream.{
  Decodes, value, stop, json_loop, stream_json, Callback, Reads, more, last, hand, stream_loop,
  unless_eof,
}
use httpio.Stream.Sse.Deliver.{deliver}

abbrev chunk_before : Bytes → List Bytes → List Bytes
chunk_before [] chunks = chunks
chunk_before (c ∷ s) chunks = (c ∷ s) ∷ chunks

-- What the reads give that is not empty.
pub chunks : Reads → List Bytes
chunks (last chunk e) = chunk_before chunk []
chunks (more chunk reads) = chunk_before chunk (chunks reads)

-- The error that ends them; the end of the body is none.
pub ending : Reads → Option Error
ending (last chunk e) = unless_eof e
ending (more chunk reads) = ending reads

module _ {W : Type 0} (handler : Callback Bytes W) where
  -- `Stream` hands over what each read gives, unless it is empty, and what comes with the last
  -- error too, until the handler fails; then it returns the error that is not the end of the body.
  pub stream_loop-deliver :
      (reads : Reads) (w : W)
      → stream_loop handler reads w ≡ deliver handler (chunks reads) (ending reads) w
  unfolding stream_loop hand deliver chunks ending
  stream_loop-deliver (last [] e) w = refl
  stream_loop-deliver (last (c ∷ s) e) w = elim (Option-cases (handler (c ∷ s) w).0) [
    | inl ok ↦ rw (ok, stream_loop, deliver)
    | inr (h, failed) ↦ rw (failed, stream_loop, deliver)
  ]
  stream_loop-deliver (more [] reads) w = stream_loop-deliver reads w
  stream_loop-deliver (more (c ∷ s) reads) w = elim (Option-cases (handler (c ∷ s) w).0) [
    | inl ok ↦ rw (ok, stream_loop, deliver) (stream_loop-deliver reads (handler (c ∷ s) w).1)
    | inr (h, failed) ↦ rw (failed, stream_loop, deliver)
  ]

-- The values that the decoder gives.
pub decoded : {A : Type 0} → Decodes A → List A
decoded (stop e) = []
decoded (value a decodes) = a ∷ decoded decodes

pub decoded_ending : {A : Type 0} → Decodes A → Option Error
decoded_ending (stop e) = unless_eof e
decoded_ending (value a decodes) = decoded_ending decodes

json_loop-deliver :
    {A W : Type 0} (handler : Callback A W) (decodes : Decodes A) (w : W)
    → json_loop handler decodes w ≡ deliver handler (decoded decodes) (decoded_ending decodes) w
unfolding json_loop deliver decoded decoded_ending
json_loop-deliver handler (stop e) w = refl
json_loop-deliver handler (value a decodes) w = elim (Option-cases (handler a w).0) [
  | inl ok ↦ rw (ok, json_loop, deliver) (json_loop-deliver handler decodes (handler a w).1)
  | inr (h, failed) ↦ rw (failed, json_loop, deliver)
]

-- `StreamJSON` hands over the values that the decoder gives, in order, until the handler fails; it
-- returns the handler's error, or else the decoder's if that is not the end of the body, and then
-- the body has been closed behind the last callback.
pub stream_json-deliver :
    {A W : Type 0} (close : W → W) (handler : Callback A W) (decodes : Decodes A) (w : W)
    → stream_json close handler (some decodes) w ≡ (
      (deliver handler (decoded decodes) (decoded_ending decodes) w).0,
      close (deliver handler (decoded decodes) (decoded_ending decodes) w).1,
    )
unfolding stream_json
stream_json-deliver close handler decodes w =
    ap (λ r. (r.0, close r.1)) (json_loop-deliver handler decodes w)
