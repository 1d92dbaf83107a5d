-- ===== src/Web/Params/Bounds.antt =====
-- The ranges of the parameters that cmd/web-bff/main.go reads.
use maintainer_d.Base.{
  ℕ, zero, suc, ◌≤◌, ◌+◌, Text, trim, trim_prefix, eqb, leb, Option, none, some, [], ◌∷◌, arith,
  if◌then◌else◌, if-Splits,
}
use maintainer_d.Base.Decimal.{
  ℤ, pos, negsuc, max_int, parse_int, parse_plus, parse_minus, in_range, parse_digits, negate,
}
use maintainer_d.Web.Params.{clamp_param, parse_int_param, positive, parse_id_param}

clamp_param-bounds :
    (fallback min max : ℕ) (value : Option ℤ)
    → min ≤ fallback
    → fallback ≤ max
    → (min ≤ clamp_param fallback min max value) × (clamp_param fallback min max value ≤ max)
unfolding clamp_param
clamp_param-bounds fallback min max none h k = (h, k)
clamp_param-bounds fallback min max (some (negsuc n)) h k = (ground arith, ground arith)
clamp_param-bounds fallback min max (some (pos n)) h k = (ground arith, ground arith)

-- A parameter that parse_int_param reads is in its range, whatever the text, if the fallback is.
pub parse_int_param-bounds :
    (raw : Text) (fallback min max : ℕ)
    → min ≤ fallback
    → fallback ≤ max
    → (min ≤ parse_int_param raw fallback min max) × (parse_int_param raw fallback min max ≤ max)
unfolding parse_int_param
parse_int_param-bounds raw fallback min max h k =
    clamp_param-bounds fallback min max (parse_int raw) h k

-- A number that is positive fits uint as it is.
abbrev Fits : Option ℤ → Type 0
Fits none = Unit
Fits (some (negsuc n)) = Unit
Fits (some (pos n)) = n ≤ max_int

abbrev pub IsId : Option ℕ → Type 0
IsId none = Unit
IsId (some n) = (1 ≤ n) × (n ≤ max_int)

in_range-Fits : (o : Option ℕ) → Fits (in_range pos max_int o)
in_range-Fits none = tt
in_range-Fits (some n) =
    if-Splits Fits (leb n max_int) (some (pos n)) none (λ h. ground arith) (λ h. tt)

negate-Fits : (n : ℕ) → Fits (some (negate n))
negate-Fits zero = ground arith
negate-Fits (suc n) = tt

in_range-negate-Fits : (o : Option ℕ) → Fits (in_range negate (max_int + 1) o)
in_range-negate-Fits none = tt
in_range-negate-Fits (some n) =
    if-Splits Fits (leb n (max_int + 1)) (some (negate n)) none (λ h. negate-Fits n) (λ h. tt)

parse_plus-Fits : (s : Text) → Fits (parse_plus s)
parse_plus-Fits [] = tt
parse_plus-Fits (c ∷ s) = in_range-Fits (parse_digits 0 (c ∷ s))

parse_minus-Fits : (s : Text) → Fits (parse_minus s)
parse_minus-Fits [] = tt
parse_minus-Fits (c ∷ s) = in_range-negate-Fits (parse_digits 0 (c ∷ s))

parse_int-Fits : (s : Text) → Fits (parse_int s)
unfolding parse_int
parse_int-Fits [] = tt
parse_int-Fits (c ∷ s) =
    if-Splits Fits (eqb c b'-') (parse_minus s)
      (if eqb c b'+' then parse_plus s else parse_plus (c ∷ s)) (λ h. parse_minus-Fits s)
      (λ h.
        if-Splits Fits (eqb c b'+') (parse_plus s) (parse_plus (c ∷ s)) (λ k. parse_plus-Fits s)
          (λ k. parse_plus-Fits (c ∷ s)))

positive-IsId : (o : Option ℤ) → Fits o → IsId (positive o)
unfolding positive
positive-IsId none h = tt
positive-IsId (some (negsuc n)) h = tt
positive-IsId (some (pos zero)) h = tt
positive-IsId (some (pos (suc n))) h = (ground arith, h)

-- An id that parse_id_param reads is at least 1 and fits int, so that its conversion to uint does
-- not change it.
pub parse_id_param-IsId : (path prefix : Text) → IsId (parse_id_param path prefix)
unfolding parse_id_param
parse_id_param-IsId path prefix =
    let s = trim (eqb b'/') (trim_prefix path prefix) in
    positive-IsId (parse_int s) (parse_int-Fits s)
