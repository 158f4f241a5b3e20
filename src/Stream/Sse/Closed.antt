-- ===== src/Stream/Sse/Closed.antt =====
-- internal/client/stream.go: `StreamSSE` closes its reader once, whatever the handler does.
use httpio.Base.{ℕ, suc, ◌≡◌, refl, ap, ◌∙◌, inl, inr, List, [], ◌∷◌, Option, some, Option-cases}
use httpio.Http.{Error}
use httpio.Stream.Scanner.{Reader, scan_lines}
use httpio.Stream.Sse.{Event, EventSourceHandler, Lifecycle, new_decoder, read_events, stream_sse}
use httpio.Stream.Sse.Deliver.{events, deliver, sse_loop-deliver}

-- `closed` counts the calls of `close`, and no callback of the handler changes it.
pub record Counts {W : Type 0} (close : W → W) (handler : EventSourceHandler W) (closed : W → ℕ)
    : Type 0 where
  pub closing : (w : W) → closed (close w) ≡ suc (closed w)
  pub event : (e : Event) (w : W) → closed (handler.on_event e w).1 ≡ closed w
  pub opening :
      (l : Lifecycle W) (w : W) → handler.lifecycle ≡ some l → closed (l.on_open w).1 ≡ closed w
  pub ending :
      (l : Lifecycle W) (w : W) → handler.lifecycle ≡ some l → closed (l.on_close w).1 ≡ closed w

module _ {W : Type 0} {close : W → W} {handler : EventSourceHandler W} {closed : W → ℕ}
    (counts : Counts close handler closed) where
  deliver_closed :
      (es : List Event) (failure : Option Error) (w : W)
      → closed (deliver handler.on_event es failure w).1 ≡ closed w
  unfolding deliver
  deliver_closed [] failure w = refl
  deliver_closed (e ∷ es) failure w = elim (Option-cases (handler.on_event e w).0) [
    | inl n ↦
        rw (n, deliver) (deliver_closed es failure (handler.on_event e w).1 ∙ counts.event e w)
    | inr (h, s) ↦ rw (s, deliver) (counts.event e w)
  ]

  read_events_closed :
      (reader : Reader) (w : W) → closed (read_events handler reader w).1 ≡ closed w
  unfolding read_events
  read_events_closed reader w =
      let s = scan_lines reader in
      ap (λ r. closed r.1) (sse_loop-deliver handler.on_event s.failure s.lines new_decoder w)
      ∙ deliver_closed (events s.lines new_decoder) s.failure w

  -- If the handler's callbacks do not close the reader, `StreamSSE` closes it once on every path:
  -- where `OnOpen` fails, where the handler fails, where the reader fails and at the stream's end.
  pub stream_sse-closed :
      (reader : Reader) (w : W) → closed (stream_sse close handler reader w).1 ≡ suc (closed w)
  unfolding stream_sse
  stream_sse-closed reader w = elim (Option-cases handler.lifecycle) [
    | inl n ↦
        rw (n, stream_sse)
          (counts.closing (read_events handler reader w).1 ∙ ap suc (read_events_closed reader w))
    | inr (l, has) ↦ elim (Option-cases (l.on_open w).0) [
      | inr (e, h) ↦
          rw (has, stream_sse, h) (counts.closing (l.on_open w).1 ∙ ap suc (counts.opening l w has))
      | inl n ↦
          let r = (read_events handler reader (l.on_open w).1).1 in
          rw (has, stream_sse, n)
            (counts.closing (l.on_close r).1
              ∙ ap suc (
                  counts.ending l r has
                  ∙ read_events_closed reader (l.on_open w).1
                  ∙ counts.opening l w has))
    ]
  ]
