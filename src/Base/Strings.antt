-- ===== src/Base/Strings.antt =====
-- Text as a list of character codes, with the decimal numbers of the C and C++ libraries.
use Prim.Native.Nat.{ℕ, zero, suc, ◌+◌, ◌-◌, ◌*◌, ◌/◌, ◌%◌, ◌^◌}
use Prim.Native.Char.{code}
use Prim.Native.String.{String}
use mathlib.Core.Bool.{Bool, true, false, ◌&&◌, ◌||◌}
use mathlib.Core.List.{List, [], ◌∷◌}
use gapbs_bfs_experiment.Base.Tests.{if◌then◌else◌, ltb, leb, ◌==◌}
use gapbs_bfs_experiment.Base.Int.{ℤ, pos, negsuc, sub_ℕ, to_int32}

abbrev pub Text : Type 0
Text = List ℕ

abbrev pub codes : String → Text
codes String.[] = []
codes (String.◌∷◌ c s) = code c ∷ codes s

infix 50 ◌≟◌
abbrev pub ◌≟◌ : Text → Text → Bool
[] ≟ [] = true
[] ≟ (d ∷ ds) = false
(c ∷ cs) ≟ [] = false
(c ∷ cs) ≟ (d ∷ ds) = c == d && cs ≟ ds

abbrev pub is_space : ℕ → Bool
is_space c = c == 32 || (leb 9 c && leb c 13)

abbrev pub is_digit : ℕ → Bool
is_digit c = leb 48 c && leb c 57

unfoldable pub skip_spaces : Text → Text
skip_spaces [] = []
skip_spaces (c ∷ cs) = let rest = skip_spaces cs in if is_space c then rest else c ∷ cs

-- The digits in front, after the value of those before them, and the text behind them.
unfoldable pub read_digits : ℕ → Text → ℕ × Text
read_digits acc [] = (acc, [])
read_digits acc (c ∷ cs) =
    let rest = read_digits (acc * 10 + (c - 48)) cs in if is_digit c then rest else (acc, c ∷ cs)

-- Out of the range of a 64-bit number, the end of the range.
abbrev pub clamp64 : Bool → ℕ → ℤ
clamp64 true n = if leb n (2 ^ 63) then sub_ℕ 0 n else negsuc (2 ^ 63 - 1)
clamp64 false n = if ltb n (2 ^ 63) then pos n else pos (2 ^ 63 - 1)

abbrev pub signed : Text → ℤ
unfolding read_digits
signed [] = pos 0
signed (c ∷ cs) =
    if c == b'-'
    then clamp64 true (read_digits 0 cs).0
    else if c == b'+'
    then clamp64 false (read_digits 0 cs).0
    else clamp64 false (read_digits 0 (c ∷ cs)).0

-- atol, and atoi, which narrows its result.
unfoldable pub atol : Text → ℤ
unfolding skip_spaces
atol s = signed (skip_spaces s)

unfoldable pub atoi : Text → ℤ
unfolding atol
atoi s = to_int32 (atol s)

-- The digits of `n` in front of `rest`, with at most `fuel` digits.
unfoldable pub digits_onto : ℕ → ℕ → Text → Text
digits_onto zero n rest = rest
digits_onto (suc fuel) n rest =
    let shown = (48 + n % 10) ∷ rest in
    let more = digits_onto fuel (n / 10) shown in if n / 10 == 0 then shown else more

-- A number below n + 1 has at most n + 1 digits.
unfoldable pub decimal : ℕ → Text
unfolding digits_onto
decimal n = digits_onto (suc n) n []

unfoldable pub decimal_ℤ : ℤ → Text
unfolding decimal
decimal_ℤ (pos n) = decimal n
decimal_ℤ (negsuc n) = b'-' ∷ decimal (suc n)
