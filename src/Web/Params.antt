-- ===== src/Web/Params.antt =====
-- The functions of cmd/web-bff/main.go that read the parameters of a request; the texts of the
-- query are arguments.
pub mod Bounds
pub mod Paths
use maintainer_d.Base.{
  ℕ, zero, suc, Text, text, ◌==◌, to_lower, trim, trim_space, trim_prefix, split_on, ltb, eqb, Bool,
  not, Option, none, some, List, [], ◌∷◌, ◌++◌, if◌then◌else◌,
}
use maintainer_d.Base.Decimal.{ℤ, pos, negsuc, parse_int}

-- The bounds are not negative at any call.
unfoldable pub clamp_param : ℕ → ℕ → ℕ → Option ℤ → ℕ
clamp_param fallback min max none = fallback
clamp_param fallback min max (some (negsuc n)) = min
clamp_param fallback min max (some (pos n)) =
    if ltb n min then min else if ltb max n then max else n

unfoldable pub parse_int_param : Text → ℕ → ℕ → ℕ → ℕ
unfolding clamp_param parse_int
parse_int_param raw fallback min max = clamp_param fallback min max (parse_int raw)

-- The parts of one value that are not blank.
unfoldable pub keep_items : List Text → List Text
unfolding trim_space ◌==◌
keep_items [] = []
keep_items (part ∷ parts) =
    let rest = keep_items parts in
    if not (trim_space part == []) then trim_space part ∷ rest else rest

unfoldable pub parse_csv_param : List Text → List Text
unfolding keep_items split_on
parse_csv_param [] = []
parse_csv_param (value ∷ values) = keep_items (split_on b',' value) ++ parse_csv_param values

unfoldable pub positive : Option ℤ → Option ℕ
positive none = none
positive (some (negsuc n)) = none
positive (some (pos zero)) = none
positive (some (pos (suc n))) = some (suc n)

unfoldable pub parse_id_param : Text → Text → Option ℕ
unfolding positive parse_int trim trim_prefix
parse_id_param path prefix = positive (parse_int (trim (eqb b'/') (trim_prefix path prefix)))

unfoldable pub maturity_of : Text → Option Text
unfolding ◌==◌
maturity_of name =
    if name == text "sandbox"
    then some (text "Sandbox")
    else if name == text "incubating"
    then some (text "Incubating")
    else if name == text "graduated"
    then some (text "Graduated")
    else if name == text "archived"
    then some (text "Archived")
    else none

unfoldable pub parse_maturity : Text → Option Text
unfolding maturity_of to_lower trim_space
parse_maturity value = maturity_of (to_lower (trim_space value))

unfoldable pub normalize_value : Text → Text → Text
unfolding ◌==◌
normalize_value value sentinel = if value == sentinel then [] else value
