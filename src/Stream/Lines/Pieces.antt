-- ===== src/Stream/Lines/Pieces.antt =====
-- internal/client/stream.go: which lines `StreamLines` gives to its handler.
use httpio.Base.{
  ℕ, zero, suc, ◌+◌, ◌<◌, ◌≤◌, ◌≡◌, ◌≢◌, refl, inl, inr, true, false, List, [], ◌∷◌, ◌++◌, Option,
  none, some, Bytes, length, map, le→leb, Option-cases, arith, All, strip_prefix, ◌==◌,
}
use httpio.Http.{Error}
use httpio.Stream.{Callback}
use httpio.Stream.Scanner.{max_scan_token_size}
use httpio.Stream.Sse.Deliver.{deliver}
use httpio.Stream.Lines.{cut_at, token, token_or_too_long, scan, line_of, lines_loop}

-- Lines with the delimiter behind each, and what stands behind the last delimiter.
abbrev pub text : ℕ → List Bytes → Bytes → Bytes
text b [] rest = rest
text b (line ∷ lines) rest = line ++ b ∷ text b lines rest

-- What stands behind the last delimiter is a line unless it is empty.
abbrev pub last_line : Bytes → List Bytes
last_line [] = []
last_line (c ∷ s) = (c ∷ s) ∷ []

-- A line without the delimiter, which fits the scanner's buffer together with it.
abbrev pub IsLine : ℕ → Bytes → Type 0
IsLine b line = All (λ c. c ≢ b) line × (length line < max_scan_token_size)

is_not : (c b : ℕ) → c ≢ b → (c == b) ≡ false
is_not c b h = ground arith

is_same : (b : ℕ) → (b == b) ≡ true
is_same b = ground arith

module _ (b : ℕ) where
  strip_same : (s : Bytes) → strip_prefix (b ∷ s) (b ∷ []) ≡ some s
  unfolding strip_prefix
  strip_same s = rw (is_same b)

  strip_other : (c : ℕ) (s : Bytes) → c ≢ b → strip_prefix (c ∷ s) (b ∷ []) ≡ none
  unfolding strip_prefix
  strip_other c s h = rw (is_not c b h)

  cut_at-line :
      (line rest : Bytes)
      → All (λ c. c ≢ b) line
      → cut_at (b ∷ []) (line ++ b ∷ rest) ≡ some (line, rest)
  unfolding cut_at
  cut_at-line [] rest h = rw (strip_same rest, cut_at)
  cut_at-line (c ∷ line) rest (h, hs) =
      rw (strip_other c (line ++ b ∷ rest) h, cut_at-line line rest hs, cut_at)

  cut_at-absent : (line : Bytes) → All (λ c. c ≢ b) line → cut_at (b ∷ []) line ≡ none
  unfolding cut_at strip_prefix
  cut_at-absent [] h = refl
  cut_at-absent (c ∷ line) (h, hs) = rw (strip_other c line h, cut_at-absent line hs, cut_at)

  fits :
      (n : ℕ) (line rest : Bytes)
      → n ≤ max_scan_token_size
      → token_or_too_long n line rest ≡ token line rest
  fits n line rest h = rw (le→leb n max_scan_token_size h)

  scan_line :
      (failure : Option Error) (line rest : Bytes)
      → IsLine b line
      → scan (b ∷ []) failure (line ++ b ∷ rest) ≡ token line rest
  unfolding scan
  scan_line failure [] rest (plain, small) =
      rw (cut_at-line [] rest plain, scan) (fits 1 [] rest (omega arith))
  scan_line failure (c ∷ line) rest (plain, small) =
      rw (cut_at-line (c ∷ line) rest plain, scan)
        (fits (length (c ∷ line) + 1) (c ∷ line) rest (omega (arith, small)))

  scan_last :
      (failure : Option Error) (c : ℕ) (line : Bytes)
      → IsLine b (c ∷ line)
      → scan (b ∷ []) failure (c ∷ line) ≡ token (c ∷ line) []
  unfolding scan
  scan_last failure c line (plain, small) =
      rw (cut_at-absent (c ∷ line) plain, scan)
        (fits (suc (length (c ∷ line))) (c ∷ line) [] (omega (arith, small)))

  module _ {W : Type 0} (handler : Callback Bytes W) (failure : Option Error) where
    -- A token is handed over.
    loop_token :
        (n : ℕ) (content line rest : Bytes) (lines : List Bytes) (w : W)
        → scan (b ∷ []) failure content ≡ token line rest
        → ((v : W)
            → lines_loop n (b ∷ []) handler failure rest v
              ≡ some (deliver handler (map (line_of (b ∷ [])) lines) failure v))
        → lines_loop (suc n) (b ∷ []) handler failure content w
          ≡ some (deliver handler (map (line_of (b ∷ [])) (line ∷ lines)) failure w)
    unfolding lines_loop deliver
    loop_token n content line rest lines w got later =
        elim (Option-cases (handler (line_of (b ∷ []) line) w).0) [
          | inr (h, failed) ↦ rw (got, lines_loop, failed, deliver)
          | inl fine ↦ rw (got, lines_loop, fine, deliver) (later _)
        ]

    -- For a delimiter of one byte, "\n" among them: of a body that consists of lines with the delimiter
    -- behind each, and perhaps one more line, each of them shorter than 65536 bytes and without the
    -- delimiter, the handler is given exactly these lines in order, for "\n" without a carriage
    -- return at the end, until it fails; the loop returns its error, or else the reader's. Two calls of
    -- `Scan` more than there are lines with a delimiter are enough.
    pub lines_loop-text :
        (fuel : ℕ) (lines : List Bytes) (rest : Bytes) (w : W)
        → All (IsLine b) lines
        → IsLine b rest
        → length lines + 2 ≤ fuel
        → lines_loop fuel (b ∷ []) handler failure (text b lines rest) w
          ≡ some (deliver handler (map (line_of (b ∷ [])) (lines ++ last_line rest)) failure w)
    unfolding lines_loop scan deliver
    lines_loop-text zero lines rest w h k enough = ground (arith, enough)
    lines_loop-text (suc zero) lines rest w h k enough = ground (arith, enough)
    lines_loop-text (suc (suc n)) [] [] w h k enough = refl
    lines_loop-text (suc (suc n)) [] (c ∷ s) w h k enough =
        loop_token (suc n) (c ∷ s) (c ∷ s) [] [] w (scan_last failure c s k) (λ v. refl)
    lines_loop-text (suc (suc n)) (line ∷ lines) rest w (h, hs) k enough =
        loop_token (suc n) (text b (line ∷ lines) rest) line (text b lines rest)
          (lines ++ last_line rest) w (scan_line failure line (text b lines rest) h)
          (λ v. lines_loop-text (suc n) lines rest v hs k (omega (arith, enough)))
