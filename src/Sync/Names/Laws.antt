-- ===== src/Sync/Names/Laws.antt =====
-- What the results of `sanitizeName` of cmd/sync/main.go are.
use mathlib.Core.List.{reverse, reverse-cons, reverse-reverse}
use maintainer_d.Base.{
  ℕ, suc, zero, ◌≤◌, Text, lower, to_lower, trim_left, trim, trim_space, is_space, ◌≡◌, ◌≢◌, ◌↔◌,
  refl, sym, ap, ap₂, ◌∙◌, subst, Bool, true, false, [], ◌∷◌, All, All-append, length, arith, ltb,
  Bool-cases, inl, inr,
}
use maintainer_d.Sync.Names.{
  name_char, is_edge, replace_invalid, take, unnamed, or_unnamed, shorten, finish_name,
  sanitize_name,
}
use maintainer_d.Sync.Names.Trim.{HeadNot, trim-HeadNot, trim-All, length-trim}

abbrev pub NameChars : Text → Type 0
NameChars s = All (λ (c : ℕ). name_char c ≡ true) s

-- A name: 1 to 63 lower-case letters, digits, dashes and dots, the first and the last neither a
-- dash nor a dot.
abbrev pub IsName : Text → Type 0
IsName s =
    NameChars s × (s ≢ []) × (length s ≤ 63) × HeadNot is_edge s × HeadNot is_edge (reverse s)

replace_invalid-NameChars : (in_run : Bool) (s : Text) → NameChars (replace_invalid in_run s)
unfolding replace_invalid
replace_invalid-NameChars in_run [] = tt
replace_invalid-NameChars in_run (c ∷ s) =
    ground (arith, replace_invalid-NameChars false s, replace_invalid-NameChars true s)

take-NameChars : (n : ℕ) (s : Text) → NameChars s → NameChars (take n s)
unfolding take
take-NameChars zero s h = tt
take-NameChars (suc n) [] h = tt
take-NameChars (suc n) (c ∷ s) (p, h) = (p, take-NameChars n s h)

length-take : (n : ℕ) (s : Text) → length (take n s) ≤ n
unfolding take
length-take zero s = omega arith
length-take (suc n) [] = omega arith
length-take (suc n) (c ∷ s) = omega (arith, length-take n s)

-- Where nothing is to be cut or replaced.
abbrev IsTrimmed : Text → Type 0
IsTrimmed s = NameChars s × HeadNot is_edge s × HeadNot is_edge (reverse s)

unnamed-IsName : IsName unnamed
unnamed-IsName = (ground arith, λ e. ground (arith, e), omega arith, refl, refl)

trim-IsTrimmed : (s : Text) → NameChars s → IsTrimmed (trim is_edge s)
trim-IsTrimmed s h =
    let (first, last) = trim-HeadNot is_edge s in
    (trim-All is_edge (λ (c : ℕ). name_char c ≡ true) s h, first, last)

or_unnamed-IsName : (s : Text) → IsTrimmed s → length s ≤ 63 → IsName (or_unnamed s)
or_unnamed-IsName [] h short = unnamed-IsName
or_unnamed-IsName (c ∷ s) (chars, first, last) short =
    (chars, λ e. ground (arith, e), short, first, last)

shorten-IsName : (s : Text) → IsTrimmed s → IsName (or_unnamed (shorten s))
unfolding shorten
shorten-IsName s h = elim (Bool-cases (ltb 63 (length s))) [
  | inl long ↦ rw long (
      or_unnamed-IsName (trim is_edge (take 63 s))
        (trim-IsTrimmed (take 63 s) (take-NameChars 63 s h.0))
        (omega (arith, length-trim is_edge (take 63 s), length-take 63 s)))
  | inr short ↦ rw short (or_unnamed-IsName s h (ground (arith, short)))
]

finish_name-IsName : (s : Text) → IsTrimmed s → IsName (finish_name s)
unfolding finish_name
finish_name-IsName [] h = unnamed-IsName
finish_name-IsName (c ∷ s) h = shorten-IsName (c ∷ s) h

sanitize_name-IsName : (s : Text) → IsName (sanitize_name s)
unfolding sanitize_name
sanitize_name-IsName [] = unnamed-IsName
sanitize_name-IsName (c ∷ s) =
    finish_name-IsName _
      (trim-IsTrimmed _ (replace_invalid-NameChars false (to_lower (trim_space (c ∷ s)))))

-- Each step leaves a name alone.
trim_left_fixed : (p : ℕ → Bool) (s : Text) → HeadNot p s → trim_left p s ≡ s
unfolding trim_left
trim_left_fixed p [] h = refl
trim_left_fixed p (c ∷ s) h = rw h refl

trim_fixed : (p : ℕ → Bool) (s : Text) → HeadNot p s → HeadNot p (reverse s) → trim p s ≡ s
unfolding trim
trim_fixed p s first last =
    ap (λ t. reverse (trim_left p (reverse t))) (trim_left_fixed p s first)
    ∙ ap reverse (trim_left_fixed p (reverse s) last)
    ∙ reverse-reverse s

-- A character of a name is no space.
NameChars-HeadNot : (s : Text) → NameChars s → HeadNot is_space s
NameChars-HeadNot [] h = tt
NameChars-HeadNot (c ∷ s) (p, h) = ground (arith, p)

NameChars-reverse : (s : Text) → NameChars s → NameChars (reverse s)
NameChars-reverse [] h = tt
NameChars-reverse (c ∷ s) (p, h) = subst NameChars (sym (reverse-cons c s)) (
    All-append (λ (d : ℕ). name_char d ≡ true) (reverse s) (c ∷ []) (NameChars-reverse s h) (p, tt))

to_lower_fixed : (s : Text) → NameChars s → to_lower s ≡ s
unfolding to_lower lower
to_lower_fixed [] h = refl
to_lower_fixed (c ∷ s) (p, h) = ap₂ ◌∷◌ (ground (arith, p)) (to_lower_fixed s h)

replace_invalid_fixed : (in_run : Bool) (s : Text) → NameChars s → replace_invalid in_run s ≡ s
unfolding replace_invalid
replace_invalid_fixed in_run [] h = refl
replace_invalid_fixed in_run (c ∷ s) (p, h) =
    rw p (ap (λ t. c ∷ t) (replace_invalid_fixed false s h))

finish_name_fixed : (s : Text) → IsName s → finish_name s ≡ s
unfolding finish_name shorten
finish_name_fixed [] h = absurd (h.1 refl)
finish_name_fixed (c ∷ s) h =
    let fits : ltb 63 (length (c ∷ s)) ≡ false = ground (arith, h.2) in rw fits refl

sanitize_name_fixed : (s : Text) → IsName s → sanitize_name s ≡ s
unfolding sanitize_name trim_space
sanitize_name_fixed [] h = absurd (h.1 refl)
sanitize_name_fixed (c ∷ s) h =
    let (chars, some_char, short, first, last) = h in
    let spaces : trim_space (c ∷ s) ≡ c ∷ s =
      trim_fixed is_space (c ∷ s) (NameChars-HeadNot (c ∷ s) chars)
        (NameChars-HeadNot (reverse (c ∷ s)) (NameChars-reverse (c ∷ s) chars)) in
    ap (λ t. finish_name (trim is_edge (replace_invalid false (to_lower t)))) spaces
    ∙ ap (λ t. finish_name (trim is_edge (replace_invalid false t))) (to_lower_fixed (c ∷ s) chars)
    ∙ ap (λ t. finish_name (trim is_edge t)) (replace_invalid_fixed false (c ∷ s) chars)
    ∙ ap finish_name (trim_fixed is_edge (c ∷ s) first last)
    ∙ finish_name_fixed (c ∷ s) h

-- Every result of `sanitize_name` is a name: 1 to 63 lower-case letters, digits, dashes and dots, the
-- first and the last neither a dash nor a dot; and a text is a name exactly if `sanitize_name` leaves
-- it as it is.
pub sanitize_name-IsName_iff :
    (s : Text) → IsName (sanitize_name s) × (IsName s ↔ (sanitize_name s ≡ s))
sanitize_name-IsName_iff s =
    (sanitize_name-IsName s, (sanitize_name_fixed s, λ e. subst IsName e (sanitize_name-IsName s)))
