-- ===== src/Stream/Scanner.antt =====
-- `bufio.Scanner` with its default buffer and `ScanLines`, over a reader that gives its bytes and
-- then ends, or fails, in a read of its own.
use httpio.Base.{
  ℕ, ◌+◌, ◌<◌, ◌≡◌, ◌≢◌, false, List, [], ◌∷◌, ◌++◌, Option, some, arith, leb, ◌==◌, if◌then◌else◌,
  Bytes, bytes, length, append_assoc, append-nil, All,
}
use httpio.Http.{Error, errorf}

pub record Reader : Type 0 where
  pub content : Bytes
  pub failure : Option Error

-- The tokens that `Scan` gives, and what `Err` says in the end.
pub record Scanned : Type 0 where
  pub lines : List Bytes
  pub failure : Option Error

abbrev pub add_line : Bytes → Scanned → Scanned
add_line line s = record s { lines = line ∷ s.lines }

-- `bufio.MaxScanTokenSize`
abbrev pub max_scan_token_size : ℕ
max_scan_token_size = 65536

unfoldable pub err_too_long : Error
err_too_long = errorf (bytes "bufio.Scanner: token too long")

-- A line without the carriage return at its end.
unfoldable pub drop_cr : Bytes → Bytes
drop_cr [] = []
drop_cr (c ∷ []) = if c == 13 then [] else c ∷ []
drop_cr (c ∷ d ∷ s) = c ∷ drop_cr (d ∷ s)

at_eof : Bytes → Option Error → Scanned
at_eof [] failure = record { lines = []; failure = failure }
at_eof (c ∷ s) failure = record { lines = drop_cr (c ∷ s) ∷ []; failure = failure }

-- `cur` is the line so far, `n` its length: a full buffer with no line end in it is an error.
unfoldable pub scan_from : Bytes → ℕ → Option Error → Bytes → Scanned
unfolding at_eof
scan_from cur n failure [] = at_eof cur failure
scan_from cur n failure (c ∷ s) =
    let line = add_line (drop_cr cur) (scan_from [] 0 failure s) in
    let longer = scan_from (cur ++ c ∷ []) (n + 1) failure s in
    if c == 10
    then line
    else if leb max_scan_token_size (n + 1)
    then record { lines = []; failure = some err_too_long }
    else longer

unfoldable pub scan_lines : Reader → Scanned
unfolding scan_from
scan_lines r = scan_from [] 0 r.failure r.content

ne-eq : (a b : ℕ) → a ≢ b → (a == b) ≡ false
ne-eq a b h = ground arith

not-leb : (a b : ℕ) → b < a → leb a b ≡ false
not-leb a b h = ground arith

-- A line that fits the buffer is a token.
pub scan_from_line :
    (cur line rest : Bytes) (n : ℕ) (failure : Option Error)
    → All (λ c. c ≢ 10) line
    → n + length line < max_scan_token_size
    → scan_from cur n failure (line ++ 10 ∷ rest)
      ≡ add_line (drop_cr (cur ++ line)) (scan_from [] 0 failure rest)
unfolding scan_from
scan_from_line cur [] rest n failure h lt = rw (append-nil cur)
scan_from_line cur (c ∷ line) rest n failure h lt =
    let ih = scan_from_line (cur ++ c ∷ []) line rest (n + 1) failure h.1 (omega (arith, lt)) in
    rw (
      ne-eq c 10 h.0,
      not-leb max_scan_token_size (n + 1) (omega (arith, lt)),
      ih,
      append_assoc cur (c ∷ []) line,
    )
