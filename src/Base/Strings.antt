-- ===== src/Base/Strings.antt =====
-- Go strings as lists of code points, and the functions of package strings that the program calls.
-- Letters and spaces are those of ASCII: `ToLower`, `EqualFold` and `TrimSpace` act on no others.
use Prim.Native.Nat.{ℕ, ◌+◌}
use Prim.Native.Char.{code}
use Prim.Native.String.{String}
use mathlib.Core.Path.{◌≡◌, refl, ap₂}
use mathlib.Core.Logic.{◌↔◌}
use mathlib.Core.Bool.{Bool, true, false, ◌&&◌, ◌||◌}
use mathlib.Core.List.{List, [], ◌∷◌, ◌++◌, reverse}
use mathlib.Core.Option.{Option, none, some}
use native.Mathlib.Omega.{arith}
use maintainer_d.Base.Tests.{leb, eqb, if◌then◌else◌}

abbrev pub Text : Type 0
Text = List ℕ

abbrev pub text : String → Text
text String.[] = []
text (String.◌∷◌ c s) = code c ∷ text s

infix 50 ◌==◌
unfoldable pub ◌==◌ : Text → Text → Bool
[] == [] = true
[] == (_ ∷ _) = false
(_ ∷ _) == [] = false
(a ∷ s) == (b ∷ t) = eqb a b && s == t

pub eq_iff : (s t : Text) → ((s == t) ≡ true) ↔ (s ≡ t)
unfolding ◌==◌
eq_iff [] [] = ground arith
eq_iff [] (b ∷ t) = ground arith
eq_iff (a ∷ s) [] = ground arith
eq_iff (a ∷ s) (b ∷ t) = ground (arith, eq_iff s t)

pub eq_refl : (s : Text) → (s == s) ≡ true
eq_refl s = (eq_iff s s).1 refl

-- strings.ToLower
unfoldable pub lower : ℕ → ℕ
lower c = if leb b'A' c && leb c b'Z' then c + 32 else c

pub lower_idem : (c : ℕ) → lower (lower c) ≡ lower c
unfolding lower
lower_idem c = ground arith

unfoldable pub to_lower : Text → Text
unfolding lower
to_lower [] = []
to_lower (c ∷ s) = lower c ∷ to_lower s

pub to_lower_idem : (s : Text) → to_lower (to_lower s) ≡ to_lower s
unfolding to_lower
to_lower_idem [] = refl
to_lower_idem (c ∷ s) = ap₂ ◌∷◌ (lower_idem c) (to_lower_idem s)

-- strings.EqualFold
unfoldable pub equal_fold : Text → Text → Bool
unfolding to_lower ◌==◌
equal_fold s t = to_lower s == to_lower t

-- unicode.IsSpace
abbrev pub is_space : ℕ → Bool
is_space c = eqb c 32 || (leb 9 c && leb c 13)

-- Drops what passes the test from the front: strings.TrimLeftFunc.
unfoldable pub trim_left : (ℕ → Bool) → Text → Text
trim_left p [] = []
trim_left p (c ∷ s) = if p c then trim_left p s else c ∷ s

-- strings.TrimFunc: both ends.
unfoldable pub trim : (ℕ → Bool) → Text → Text
unfolding trim_left
trim p s = reverse (trim_left p (reverse (trim_left p s)))

-- strings.TrimSpace
unfoldable pub trim_space : Text → Text
unfolding trim
trim_space s = trim is_space s

-- strings.HasPrefix
unfoldable pub has_prefix : Text → Text → Bool
has_prefix s [] = true
has_prefix [] (b ∷ t) = false
has_prefix (a ∷ s) (b ∷ t) = eqb a b && has_prefix s t

-- What follows the prefix, if the text begins with it.
unfoldable pub after_prefix : Text → Text → Option Text
after_prefix s [] = some s
after_prefix [] (b ∷ t) = none
after_prefix (a ∷ s) (b ∷ t) = if eqb a b then after_prefix s t else none

pub after_prefix-append : (prefix s : Text) → after_prefix (prefix ++ s) prefix ≡ some s
unfolding after_prefix
after_prefix-append [] s = refl
after_prefix-append (c ∷ prefix) s = ground (arith, after_prefix-append prefix s)

abbrev pub text_or : Text → Option Text → Text
text_or s none = s
text_or s (some t) = t

-- strings.TrimPrefix
unfoldable pub trim_prefix : Text → Text → Text
unfolding after_prefix
trim_prefix s p = text_or s (after_prefix s p)

-- strings.HasSuffix
unfoldable pub has_suffix : Text → Text → Bool
unfolding has_prefix
has_suffix s t = has_prefix (reverse s) (reverse t)

abbrev map_reverse : Option Text → Option Text
map_reverse none = none
map_reverse (some s) = some (reverse s)

-- strings.TrimSuffix
unfoldable pub trim_suffix : Text → Text → Text
unfolding after_prefix
trim_suffix s t = text_or s (map_reverse (after_prefix (reverse s) (reverse t)))

abbrev cons_head : ℕ → List Text → List Text
cons_head c [] = (c ∷ []) ∷ []
cons_head c (s ∷ ss) = (c ∷ s) ∷ ss

-- strings.Split with a separator of one character
unfoldable pub split_on : ℕ → Text → List Text
split_on sep [] = [] ∷ []
split_on sep (c ∷ s) =
    let rest = split_on sep s in if eqb c sep then [] ∷ rest else cons_head c rest

-- strings.Join
unfoldable pub join : Text → List Text → Text
join sep [] = []
join sep (s ∷ []) = s
join sep (s ∷ t ∷ ss) = s ++ sep ++ join sep (t ∷ ss)

-- strings.Contains
unfoldable pub contains : Text → Text → Bool
unfolding has_prefix
contains [] t = has_prefix [] t
contains (c ∷ s) t = has_prefix (c ∷ s) t || contains s t
