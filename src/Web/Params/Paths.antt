-- ===== src/Web/Params/Paths.antt =====
-- The path of a row and the id that cmd/web-bff/main.go reads back.
use mathlib.Core.List.{reverse, reverse-cons, reverse-reverse}
use Prim.Native.Nat.{◌/◌, ◌%◌}
use maintainer_d.Base.{
  after_prefix-append, text_or, if-Has, if-Splits, ℕ, zero, suc, ◌≤◌, ◌+◌, Text, trim, trim_left,
  trim_prefix, eqb, ltb, Bool, false, ◌≡◌, ◌≢◌, refl, sym, ap, ◌∙◌, subst, some, [], ◌∷◌, ◌++◌, All,
  All-append, arith,
}
use maintainer_d.Base.Decimal.{pos, max_int, digits, itoa, parse_int, parse_digits}
use maintainer_d.Base.Decimal.{parse_digits-itoa}
use maintainer_d.Web.Params.{positive, parse_id_param}

abbrev IsDigit : ℕ → Type 0
IsDigit c = (b'0' ≤ c) × (c ≤ b'9')

digits-IsDigit : (fuel n : ℕ) (rest : Text) → All IsDigit rest → All IsDigit (digits fuel n rest)
unfolding digits
digits-IsDigit zero n rest h = h
digits-IsDigit (suc fuel) n rest h =
    if-Splits (All IsDigit) (ltb n 10) ((b'0' + n) ∷ rest)
      (digits fuel (n / 10) ((b'0' + n % 10) ∷ rest)) (λ small. ((ground arith, ground arith), h))
      (λ large.
        digits-IsDigit fuel (n / 10) ((b'0' + n % 10) ∷ rest) ((ground arith, ground arith), h))

module _ (p : ℕ → Bool) where
  trim_left-none : (s : Text) → All (λ c. p c ≡ false) s → trim_left p s ≡ s
  unfolding trim_left
  trim_left-none [] h = refl
  trim_left-none (c ∷ s) (e, h) = ground arith

  All-reverse : (P : ℕ → Type 0) (s : Text) → All P s → All P (reverse s)
  All-reverse P [] h = tt
  All-reverse P (c ∷ s) (q, h) =
      subst (All P) (sym (reverse-cons c s))
        (All-append P (reverse s) (c ∷ []) (All-reverse P s h) (q, tt))

  trim-none : (s : Text) → All (λ c. p c ≡ false) s → trim p s ≡ s
  unfolding trim
  trim-none s h =
      ap (λ t. reverse (trim_left p (reverse t))) (trim_left-none s h)
      ∙ ap reverse (trim_left-none (reverse s) (All-reverse (λ c. p c ≡ false) s h))
      ∙ reverse-reverse s

trim_prefix-append : (prefix s : Text) → trim_prefix (prefix ++ s) prefix ≡ s
unfolding trim_prefix
trim_prefix-append prefix s = ap (text_or (prefix ++ s)) (after_prefix-append prefix s)

-- A text of digits reads as a number, without a sign.
parse_int-digits :
    (s : Text) (n : ℕ)
    → All IsDigit s
    → s ≢ []
    → parse_digits 0 s ≡ some n
    → n ≤ max_int
    → parse_int s ≡ some (pos n)
unfolding parse_int
parse_int-digits [] n h ne e k = absurd (ne refl)
parse_int-digits (c ∷ s) n (d, h) ne e k = ground arith

IsDigit-not : (s : Text) → All IsDigit s → All (λ c. eqb b'/' c ≡ false) s
IsDigit-not [] h = tt
IsDigit-not (c ∷ s) (d, h) = (ground arith, IsDigit-not s h)

itoa-IsDigit : (n : ℕ) → All IsDigit (itoa n)
unfolding itoa
itoa-IsDigit n = digits-IsDigit (suc n) n [] tt

digits-ne : (fuel n : ℕ) (rest : Text) → rest ≢ [] → digits fuel n rest ≢ []
unfolding digits
digits-ne zero n rest h = h
digits-ne (suc fuel) n rest h =
    if-Has (λ s. s ≢ []) (ltb n 10) ((b'0' + n) ∷ rest)
      (digits fuel (n / 10) ((b'0' + n % 10) ∷ rest)) (λ e. ground arith)
      (digits-ne fuel (n / 10) ((b'0' + n % 10) ∷ rest) (λ e. ground arith))

itoa-ne : (n : ℕ) → itoa n ≢ []
unfolding itoa digits
itoa-ne n =
    if-Has (λ s. s ≢ []) (ltb n 10) ((b'0' + n) ∷ []) (digits n (n / 10) ((b'0' + n % 10) ∷ []))
      (λ e. ground arith) (digits-ne n (n / 10) ((b'0' + n % 10) ∷ []) (λ e. ground arith))

positive-pos : (n : ℕ) → 1 ≤ n → positive (some (pos n)) ≡ some n
unfolding positive
positive-pos zero h = absurd (omega arith)
positive-pos (suc n) h = refl

-- parse_id_param reads back an id from the path that has it after the prefix, in decimal digits,
-- if it is at least 1 and fits int.
pub parse_id_param-itoa :
    (prefix : Text) (n : ℕ)
    → 1 ≤ n
    → n ≤ max_int
    → parse_id_param (prefix ++ itoa n) prefix ≡ some n
unfolding parse_id_param
parse_id_param-itoa prefix n h k =
    ap (λ s. positive (parse_int (trim (eqb b'/') s))) (trim_prefix-append prefix (itoa n))
    ∙ ap (λ s. positive (parse_int s))
        (trim-none (eqb b'/') (itoa n) (IsDigit-not (itoa n) (itoa-IsDigit n)))
    ∙ ap positive (parse_int-digits (itoa n) n (itoa-IsDigit n) (itoa-ne n) (parse_digits-itoa n) k)
    ∙ positive-pos n h
