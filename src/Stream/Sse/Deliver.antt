-- ===== src/Stream/Sse/Deliver.antt =====
-- What the loop of `StreamSSE` gives to its handler: the events of the lines, in order.
use httpio.Base.{
  ◌≡◌, refl, inl, inr, true, false, List, [], ◌∷◌, Option, none, some, Bytes, is_empty, Bool-cases,
  Option-cases,
}
use httpio.Http.{Error}
use httpio.Stream.{Callback}
use httpio.Stream.Sse.{Event, Decoder, new_decoder, process_line, finished, sse_loop}

-- The events that lines hold, from the decoder's state on.
unfoldable pub events : List Bytes → Decoder → List Event
events [] d = []
events (line ∷ lines) d = elim (is_empty line) [
  | false ↦ events lines (process_line line d)
  | true ↦ elim (is_empty d.built) [
    | true ↦ events lines d
    | false ↦ finished d ∷ events lines new_decoder
  ]
]

-- Items are handed over until a callback fails; `failure` is returned if none does.
unfoldable pub deliver :
    {A W : Type 0} → Callback A W → List A → Option Error → W → Option Error × W
deliver f [] failure w = (failure, w)
deliver f (a ∷ as_) failure w =
    let handed = f a w in
    elim handed.0 [ some e ↦ (some e, handed.1) | none ↦ deliver f as_ failure handed.1 ]

module _ {W : Type 0} (on_event : Callback Event W) (failure : Option Error) where
  -- The loop hands over the events that the lines hold, in order, until the handler fails, whose
  -- error it returns; if it does not fail, the loop returns the scanner's error.
  pub sse_loop-deliver :
      (lines : List Bytes) (d : Decoder) (w : W)
      → sse_loop on_event lines failure d w ≡ deliver on_event (events lines d) failure w
  unfolding sse_loop deliver events
  sse_loop-deliver [] d w = refl
  sse_loop-deliver ((c ∷ s) ∷ lines) d w = sse_loop-deliver lines (process_line (c ∷ s) d) w
  sse_loop-deliver ([] ∷ lines) d w = elim (Bool-cases (is_empty d.built)) [
    | inl e ↦ rw (e, sse_loop, events) (sse_loop-deliver lines d w)
    | inr e ↦
        rw (e, sse_loop, events)
          (elim (Option-cases (on_event (finished d) w).0) [
            | inl ok ↦ rw (
              ok,
              sse_loop,
              deliver,
              sse_loop-deliver lines new_decoder (on_event (finished d) w).1,
            )
            | inr (h, failed) ↦ rw (failed, sse_loop, deliver)
          ])
  ]
