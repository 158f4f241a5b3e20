-- ===== src/Mock/Ndjson.antt =====
-- mockserver/mock_server.go and internal/client/stream.go: the client reads line by line what the
-- route of newline-delimited JSON writes.
use httpio.Base.{
  ℕ, ℤ, suc, ◌+◌, ◌≤◌, ◌≡◌, refl, sym, ap, ◌∙◌, inl, inr, List, [], ◌∷◌, ◌++◌, Option, none, some,
  Bytes, bytes, length, map, append_assoc, append-nil, arith, All, Option-cases,
}
use httpio.Http.{Error, Request}
use httpio.Stream.{Callback}
use httpio.Stream.Lines.{lines_loop, line_of}
use httpio.Stream.Lines.Pieces.{text, IsLine, lines_loop-text}
use httpio.Stream.Sse.Deliver.{deliver}
use httpio.Mock.{put_header, ResponseWriter, MockServer, write, handler}
use httpio.Mock.Dispatch.{write_whole, IsFresh, Asks, if_flusher-true, handler-add_route}
use httpio.Mock.Routes.{Platform, ndjson_items, add_ndjson_route, pause, ndjson_handler}

module _ {J S : Type 0} (platform : Platform J S) where
  -- The texts of the items that can be marshalled.
  unfoldable pub marshalled : List J → List Bytes
  marshalled [] = []
  marshalled (j ∷ items) = elim (platform.marshal j) [
    | none ↦ marshalled items
    | some b ↦ b ∷ marshalled items
  ]

  ndjson_items-body :
      (i interval : ℕ) (items : List J) (w : ResponseWriter) (s : S)
      → w.left ≡ none
      → (ndjson_items platform i interval items w s).0.body
        ≡ w.body ++ text 10 (marshalled items) []
  unfolding ndjson_items marshalled
  ndjson_items-body i interval [] w s h = sym (append-nil w.body)
  ndjson_items-body i interval (j ∷ items) w s h = elim (Option-cases (platform.marshal j)) [
    | inl bad ↦
        rw (bad, ndjson_items, marshalled)
          (ndjson_items-body (suc i) interval items w (pause platform i interval s) h)
    | inr (b, good) ↦
        let (sent, body, left) = write_whole (b ++ 10 ∷ []) w h in
        let rest = text 10 (marshalled items) [] in
        rw (good, ndjson_items, marshalled, sent)
          (ndjson_items-body (suc i) interval items (write (b ++ 10 ∷ []) w).1
              (pause platform i interval s) left
            ∙ ap (λ x. x ++ rest) body
            ∙ append_assoc w.body (b ++ 10 ∷ []) rest
            ∙ ap (λ x. w.body ++ x) (append_assoc b (10 ∷ []) rest))
  ]

  ndjson_handler-body :
      (items : List J) (interval : ℕ) (delay : ℤ) (w : ResponseWriter) (r : Request) (s : S)
      → IsFresh w
      → (ndjson_handler platform items interval delay w r s).0.body ≡ text 10 (marshalled items) []
  unfolding ndjson_handler
  ndjson_handler-body items interval delay w r s fresh =
      ap (λ x. x.0.body)
        (if_flusher-true platform (ndjson_items platform 0 interval items) _ s fresh.flushes)
      ∙ (ndjson_items-body 0 interval items
            (put_header (bytes "Transfer-Encoding") (bytes "chunked")
              (put_header (bytes "Content-Type") (bytes "application/x-ndjson") w))
            s fresh.unbroken
          ∙ ap (λ x. x ++ text 10 (marshalled items) []) fresh.unwritten)

  route-body :
      (path : Bytes) (items : List J) (interval : ℕ) (ms : MockServer S) (w : ResponseWriter)
      (r : Request) (s : S)
      → ms.middleware ≡ []
      → Asks path r
      → IsFresh w
      → (handler (add_ndjson_route platform path items interval ms) w r s).0.body
        ≡ text 10 (marshalled items) []
  unfolding add_ndjson_route
  route-body path items interval ms w r s plain asks fresh =
      ap (λ x. x.0.body)
        (handler-add_route path (ndjson_handler platform items interval) ms w r s plain asks)
      ∙ ndjson_handler-body items interval ms.default_delay w r s fresh

  -- A text of encoding/json is one line.
  pub record IsJsonLine (b : Bytes) : Type 0 where
    pub one_line : IsLine 10 b
    pub no_return : line_of (10 ∷ []) b ≡ b

  json_lines : (bs : List Bytes) → All IsJsonLine bs → All (IsLine 10) bs
  json_lines [] h = tt
  json_lines (b ∷ bs) (h, hs) = (h.one_line, json_lines bs hs)

  same_lines : (bs : List Bytes) → All IsJsonLine bs → map (line_of (10 ∷ [])) bs ≡ bs
  same_lines [] h = refl
  same_lines (b ∷ bs) (h, hs) = rw (h.no_return, same_lines bs hs)

  -- On a server without global middlewares a GET request for the path of an NDJSON route, whose
  -- connection does not break, is answered with a body from which the loop of `StreamLines` hands over
  -- exactly the texts of the items that encoding/json can marshal, in order, until its handler fails.
  -- That each text is one line of less than 65536 bytes without a carriage return at its end is assumed.
  pub lines_loop-handler :
      (path : Bytes) (items : List J) (interval : ℕ) (ms : MockServer S) (w : ResponseWriter)
      (r : Request) (s : S) {W : Type 0} (f : Callback Bytes W) (failure : Option Error) (fuel : ℕ)
      (v : W)
      → ms.middleware ≡ []
      → Asks path r
      → IsFresh w
      → All IsJsonLine (marshalled items)
      → length (marshalled items) + 2 ≤ fuel
      → lines_loop fuel
          (10 ∷ [])
          f
          failure
          (handler (add_ndjson_route platform path items interval ms) w r s).0.body
          v
        ≡ some (deliver f (marshalled items) failure v)
  lines_loop-handler path items interval ms w r s f failure fuel v plain asks fresh lines enough =
      ap (λ b. lines_loop fuel (10 ∷ []) f failure b v)
        (route-body path items interval ms w r s plain asks fresh)
      ∙ lines_loop-text 10 f failure fuel (marshalled items) [] v
          (json_lines (marshalled items) lines) (tt, omega arith) enough
      ∙ ap (λ ls. some (deliver f ls failure v))
          (ap (map (line_of (10 ∷ []))) (append-nil (marshalled items))
            ∙ same_lines (marshalled items) lines)
