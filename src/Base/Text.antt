-- ===== src/Base/Text.antt =====
-- Go's strings and byte slices: lists of bytes, with the functions of package strings that the
-- program calls.
use Prim.Native.Nat.{ℕ}
use Prim.Native.Char.{code}
use Prim.Native.String.{String}
use mathlib.Core.Path.{◌≡◌, refl}
use mathlib.Core.Logic.{◌↔◌}
use mathlib.Core.Bool.{Bool, true, false, ◌&&◌, ◌||◌}
use mathlib.Core.Option
use mathlib.Core.Option.{Option, none, some}
use mathlib.Core.List.{List, [], ◌∷◌, reverse}
use native.Mathlib.Omega.{arith}
use httpio.Base.Tests.{◌==◌, if◌then◌else◌}

abbrev pub Bytes : Type 0
Bytes = List ℕ

-- A string literal of the source.
abbrev pub bytes : String → Bytes
bytes String.[] = []
bytes (String.◌∷◌ c s) = code c ∷ bytes s

-- `==` on strings.
unfoldable pub eq : Bytes → Bytes → Bool
eq [] [] = true
eq (a ∷ s) (b ∷ t) = (a == b) && eq s t
eq _ _ = false

pub eq_iff : (s t : Bytes) → (eq s t ≡ true) ↔ (s ≡ t)
unfolding eq
eq_iff [] [] = (λ h. refl, λ h. refl)
eq_iff [] (b ∷ t) = (λ h. cc, λ h. cc)
eq_iff (a ∷ s) [] = (λ h. cc, λ h. cc)
eq_iff (a ∷ s) (b ∷ t) = ground (arith, eq_iff s t)

pub eq_refl : (s : Bytes) → eq s s ≡ true
eq_refl s = (eq_iff s s).1 refl

-- `s == ""`
abbrev pub is_empty : Bytes → Bool
is_empty [] = true
is_empty (a ∷ s) = false

-- The rest of `s` behind the prefix, if `strings.HasPrefix(s, prefix)`.
unfoldable pub strip_prefix : Bytes → Bytes → Option Bytes
strip_prefix s [] = some s
strip_prefix [] (p ∷ ps) = none
strip_prefix (a ∷ s) (p ∷ ps) = if a == p then strip_prefix s ps else none

-- `strings.HasPrefix(s, prefix)`
unfoldable pub has_prefix : Bytes → Bytes → Bool
unfolding strip_prefix
has_prefix s p = elim (strip_prefix s p) [ none ↦ false | some _ ↦ true ]

-- `strings.TrimPrefix(s, prefix)`
unfoldable pub trim_prefix : Bytes → Bytes → Bytes
unfolding strip_prefix
trim_prefix s p = Option.get_or (strip_prefix s p) s

-- `strings.Contains(s, sub)`
unfoldable pub contains : Bytes → Bytes → Bool
unfolding has_prefix
contains [] sub = has_prefix [] sub
contains (a ∷ s) sub = has_prefix (a ∷ s) sub || contains s sub

-- The parts before and behind the first byte `c`, as `strings.SplitN(s, c, 2)` gives them.
unfoldable pub cut : ℕ → Bytes → Bytes × Option Bytes
cut c [] = ([], none)
cut c (a ∷ s) = if a == c then ([], some s) else (a ∷ (cut c s).0, (cut c s).1)

-- `strings.Split(s, c)` for a separator of one byte: the first part, and those behind it.
unfoldable pub split : ℕ → Bytes → Bytes × List Bytes
split c [] = ([], [])
split c (a ∷ s) =
    if a == c then ([], (split c s).0 ∷ (split c s).1) else (a ∷ (split c s).0, (split c s).1)

-- ASCII white space: what `strings.TrimSpace` cuts from a text of ASCII bytes.
abbrev is_space : ℕ → Bool
is_space c = c == 9 || c == 10 || c == 11 || c == 12 || c == 13 || c == 32

trim_left : Bytes → Bytes
trim_left [] = []
trim_left (a ∷ s) = if is_space a then trim_left s else a ∷ s

unfoldable pub trim_space : Bytes → Bytes
unfolding trim_left
trim_space s = reverse (trim_left (reverse (trim_left s)))
