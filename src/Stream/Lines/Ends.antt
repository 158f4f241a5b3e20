-- ===== src/Stream/Lines/Ends.antt =====
-- internal/client/stream.go: when `StreamLines` comes to an end.
use httpio.Base.{
  ℕ, zero, suc, ◌+◌, ◌<◌, ◌≡◌, refl, ◌⊎◌, inl, inr, if_either, subst, [], ◌∷◌, Option, none, some,
  Bytes, length, leb, Option-cases, arith, is_some, true, strip_prefix,
}
use httpio.Http.{Error}
use httpio.Stream.{Callback}
use httpio.Stream.Scanner.{max_scan_token_size}
use httpio.Stream.Lines.{cut_at, Scan, token, ended, token_or_too_long, scan, line_of, lines_loop}

strip_prefix-length : (s p r : Bytes) → strip_prefix s p ≡ some r → length r + length p ≡ length s
unfolding strip_prefix
strip_prefix-length s [] r e = grind (arith, e)
strip_prefix-length [] (b ∷ p) r e = grind (arith, e)
strip_prefix-length (a ∷ s) (b ∷ p) r e = ground (arith, strip_prefix-length s p r)

-- The parts and the delimiter make up the data.
abbrev IsCut : Bytes → Bytes → Type 0
IsCut delimiter s =
    (line : Bytes) × (rest : Bytes) × (cut_at delimiter s ≡ some (line, rest))
    × (length line + (length delimiter + length rest) ≡ length s)

cut_at-cases : (delimiter s : Bytes) → (cut_at delimiter s ≡ none) ⊎ IsCut delimiter s
unfolding cut_at
cut_at-cases delimiter [] = elim (Option-cases (strip_prefix [] delimiter)) [
  | inl absent ↦ inl (rw (absent, cut_at))
  | inr (r, e) ↦ inr ([], r, rw (e, cut_at), omega (arith, strip_prefix-length [] delimiter r e))
]
cut_at-cases delimiter (c ∷ s) = elim (Option-cases (strip_prefix (c ∷ s) delimiter)) [
  | inr (r, e) ↦
      inr ([], r, rw (e, cut_at), omega (arith, strip_prefix-length (c ∷ s) delimiter r e))
  | inl absent ↦ elim (cut_at-cases delimiter s) [
    | inl none_later ↦ inl (rw (absent, none_later, cut_at))
    | inr (line, rest, e, n) ↦ inr (c ∷ line, rest, rw (absent, e, cut_at), omega (arith, n))
  ]
]

-- The token of a scan, if any, leaves less data.
abbrev IsShorter : Bytes → Scan → Type 0
IsShorter s (token line rest) = length rest < length s
IsShorter s (ended e) = Unit

token-IsShorter :
    (n : ℕ) (s line rest : Bytes)
    → length rest < length s
    → IsShorter s (token_or_too_long n line rest)
token-IsShorter n s line rest h = if_either (IsShorter s) (leb n max_scan_token_size) _ _ h tt

scan-IsShorter :
    (delimiter : Bytes) (failure : Option Error) (s : Bytes)
    → 0 < length delimiter
    → IsShorter s (scan delimiter failure s)
unfolding scan
scan-IsShorter delimiter failure [] h = tt
scan-IsShorter delimiter failure (c ∷ s) h = elim (cut_at-cases delimiter (c ∷ s)) [
  | inl absent ↦ rw (absent, scan) (token-IsShorter _ (c ∷ s) (c ∷ s) [] (omega arith))
  | inr (line, rest, e, n) ↦
      rw (e, scan) (token-IsShorter _ (c ∷ s) line rest (omega (arith, n, h)))
]

pub Scan-cases :
    (x : Scan)
    → ((e : Option Error) × (x ≡ ended e))
      ⊎ ((line : Bytes) × (rest : Bytes) × (x ≡ token line rest))
Scan-cases (ended e) = inl (e, refl)
Scan-cases (token line rest) = inr (line, rest, refl)

module _ {W : Type 0} (delimiter : Bytes) (handler : Callback Bytes W)
    (failure : Option Error) where
  scan_void :
      (c : ℕ) (content : Bytes)
      → delimiter ≡ []
      → scan delimiter failure (c ∷ content) ≡ token [] (c ∷ content)
  unfolding scan cut_at strip_prefix
  scan_void c content void = rw (void)

  -- With a delimiter that is not empty the loop ends: one call of `Scan` more than the body has bytes
  -- is enough, whatever the handler returns.
  pub lines_loop-ends :
      (fuel : ℕ) (content : Bytes) (w : W)
      → 0 < length delimiter
      → length content < fuel
      → is_some (lines_loop fuel delimiter handler failure content w) ≡ true
  unfolding lines_loop
  lines_loop-ends zero content w given enough = ground (arith, enough)
  lines_loop-ends (suc n) content w given enough =
      elim (Scan-cases (scan delimiter failure content)) [
        | inl (e, over) ↦ rw (over, lines_loop)
        | inr (line, rest, got) ↦
            let shorter =
              subst (IsShorter content) got (scan-IsShorter delimiter failure content given) in
            elim (Option-cases (handler (line_of delimiter line) w).0) [
              | inr (h, failed) ↦ rw (got, lines_loop, failed)
              | inl fine ↦
                  rw (got, lines_loop, fine)
                    (lines_loop-ends n rest _ given (omega (arith, shorter, enough)))
            ]
      ]

  -- With the empty delimiter, which is found in front of every byte, the loop never ends: where the
  -- body is not empty and the handler does not fail, no number of calls of `Scan` is enough.
  pub lines_loop-runs_on :
      (fuel : ℕ) (c : ℕ) (content : Bytes) (w : W)
      → delimiter ≡ []
      → ((line : Bytes) (v : W) → (handler line v).0 ≡ none)
      → lines_loop fuel delimiter handler failure (c ∷ content) w ≡ none
  unfolding lines_loop
  lines_loop-runs_on zero c content w void fine = refl
  lines_loop-runs_on (suc n) c content w void fine =
      rw (scan_void c content void, lines_loop, fine (line_of delimiter []) w)
        (lines_loop-runs_on n c content _ void fine)
