-- ===== src/Base/Decimal.antt =====
-- strconv.Itoa on a number that is not negative, and strconv.Atoi with its error dropped.
use Prim.Native.Nat.{ℕ, zero, suc, ◌<◌, ◌+◌, ◌-◌, ◌*◌, ◌/◌, ◌%◌}
use mathlib.Core.Bool.{◌&&◌}
use mathlib.Core.Path.{◌≡◌}
use native.Mathlib.Omega.{arith}
use mathlib.Core.Option.{Option, none, some}
use mathlib.Core.List.{[], ◌∷◌}
use maintainer_d.Base.Tests.{leb, ltb, eqb, if◌then◌else◌}
use maintainer_d.Base.Strings.{Text}

pub data ℤ : Type 0 where
  pos : ℕ → ℤ
  negsuc : ℕ → ℤ

-- The digits of `n` before `rest`. A number has no more digits than its value plus one, so `n + 1` is
-- fuel enough.
unfoldable pub digits : ℕ → ℕ → Text → Text
digits zero n rest = rest
digits (suc fuel) n rest =
    let higher = digits fuel (n / 10) ((b'0' + n % 10) ∷ rest) in
    if ltb n 10 then (b'0' + n) ∷ rest else higher

unfoldable pub itoa : ℕ → Text
unfolding digits
itoa n = digits (suc n) n []

unfoldable pub parse_digits : ℕ → Text → Option ℕ
parse_digits acc [] = some acc
parse_digits acc (c ∷ s) =
    let rest = parse_digits (acc * 10 + (c - b'0')) s in
    if leb b'0' c && leb c b'9' then rest else none

abbrev clamp : ℕ → ℕ → ℕ
clamp limit n = if leb n limit then n else limit

abbrev pub negate : ℕ → ℤ
negate zero = pos zero
negate (suc n) = negsuc n

abbrev pub max_int : ℕ
max_int = 9223372036854775807

-- A text that is no number reads as 0, one out of the range of int as the nearest end of the range.
abbrev signed : (ℕ → ℤ) → Option ℕ → ℤ
signed sign none = pos 0
signed sign (some n) = sign n

abbrev plus : Text → ℤ
plus [] = pos 0
plus (c ∷ s) = signed (λ n. pos (clamp max_int n)) (parse_digits 0 (c ∷ s))

abbrev minus : Text → ℤ
minus [] = pos 0
minus (c ∷ s) = signed (λ n. negate (clamp (max_int + 1) n)) (parse_digits 0 (c ∷ s))

unfoldable pub atoi : Text → ℤ
unfolding parse_digits
atoi [] = pos 0
atoi (c ∷ s) = if eqb c b'-' then minus s else if eqb c b'+' then plus s else plus (c ∷ s)

-- A number in the range of int: up to `limit`.
abbrev pub in_range : (ℕ → ℤ) → ℕ → Option ℕ → Option ℤ
in_range sign limit none = none
in_range sign limit (some n) = if leb n limit then some (sign n) else none

abbrev pub parse_plus : Text → Option ℤ
parse_plus [] = none
parse_plus (c ∷ s) = in_range pos max_int (parse_digits 0 (c ∷ s))

abbrev pub parse_minus : Text → Option ℤ
parse_minus [] = none
parse_minus (c ∷ s) = in_range negate (max_int + 1) (parse_digits 0 (c ∷ s))

-- strconv.Atoi with its error
unfoldable pub parse_int : Text → Option ℤ
unfolding parse_digits
parse_int [] = none
parse_int (c ∷ s) =
    if eqb c b'-' then parse_minus s else if eqb c b'+' then parse_plus s else parse_plus (c ∷ s)

parse_digits-digits :
    (fuel n : ℕ) (rest : Text)
    → n < fuel
    → parse_digits 0 (digits fuel n rest) ≡ parse_digits n rest
unfolding digits parse_digits
parse_digits-digits zero n rest h = absurd (omega arith)
parse_digits-digits (suc fuel) n rest h =
    ground (arith, parse_digits-digits fuel (n / 10) ((b'0' + n % 10) ∷ rest))

pub parse_digits-itoa : (n : ℕ) → parse_digits 0 (itoa n) ≡ some n
unfolding itoa parse_digits
parse_digits-itoa n = parse_digits-digits (suc n) n [] (omega arith)
