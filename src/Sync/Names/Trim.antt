-- ===== src/Sync/Names/Trim.antt =====
-- What strings.TrimFunc leaves: a part of the text, whose ends do not pass the test.
use mathlib.Core.List.{reverse, reverse-append, reverse-reverse}
use maintainer_d.Base.{
  ℕ, ◌≤◌, Text, trim_left, trim, ◌≡◌, refl, sym, ap, ◌∙◌, subst, Bool, false, [], ◌∷◌, ◌++◌, All,
  length, length-append, arith, Bool-cases, inl, inr,
}

-- The first character does not pass the test.
abbrev pub HeadNot : (ℕ → Bool) → Text → Type 0
HeadNot p [] = Unit
HeadNot p (c ∷ s) = p c ≡ false

HeadNot-prefix : (p : ℕ → Bool) (s t : Text) → HeadNot p (s ++ t) → HeadNot p s
HeadNot-prefix p [] t h = tt
HeadNot-prefix p (c ∷ s) t h = h

All-prefix : (P : ℕ → Type 0) (s t : Text) → All P (s ++ t) → All P s
All-prefix P [] t h = tt
All-prefix P (c ∷ s) t (p, h) = (p, All-prefix P s t h)

All-suffix : (P : ℕ → Type 0) (s t : Text) → All P (s ++ t) → All P t
All-suffix P [] t h = h
All-suffix P (c ∷ s) t (p, h) = All-suffix P s t h

-- What `trim_left` and `trim` cut off.
trim_left-HeadNot : (p : ℕ → Bool) (s : Text) → HeadNot p (trim_left p s)
unfolding trim_left
trim_left-HeadNot p [] = tt
trim_left-HeadNot p (c ∷ s) = elim (Bool-cases (p c)) [
  | inl passes ↦ rw passes (trim_left-HeadNot p s)
  | inr stays ↦ rw stays stays
]

trim_left-suffix : (p : ℕ → Bool) (s : Text) → (pre : Text) × (s ≡ pre ++ trim_left p s)
unfolding trim_left
trim_left-suffix p [] = ([], refl)
trim_left-suffix p (c ∷ s) = elim (Bool-cases (p c)) [
  | inl passes ↦ rw passes (let (pre, e) = trim_left-suffix p s in (c ∷ pre, ap (λ t. c ∷ t) e))
  | inr stays ↦ rw stays ([], refl)
]

trim-prefix : (p : ℕ → Bool) (s : Text) → (post : Text) × (trim_left p s ≡ trim p s ++ post)
unfolding trim
trim-prefix p s =
    let t = trim_left p s in
    let (pre, e) = trim_left-suffix p (reverse t) in
    (
      reverse pre,
      sym (reverse-reverse t) ∙ ap reverse e ∙ reverse-append pre (trim_left p (reverse t)),
    )

pub trim-HeadNot : (p : ℕ → Bool) (s : Text) → HeadNot p (trim p s) × HeadNot p (reverse (trim p s))
unfolding trim
trim-HeadNot p s =
    let (post, e) = trim-prefix p s in
    (
      HeadNot-prefix p (trim p s) post (subst (HeadNot p) e (trim_left-HeadNot p s)),
      subst (HeadNot p) (sym (reverse-reverse _)) (trim_left-HeadNot p (reverse (trim_left p s))),
    )

pub trim-All : (p : ℕ → Bool) (P : ℕ → Type 0) (s : Text) → All P s → All P (trim p s)
trim-All p P s h =
    let (pre, e) = trim_left-suffix p s in
    let (post, f) = trim-prefix p s in
    All-prefix P (trim p s) post
      (subst (All P) f (All-suffix P pre (trim_left p s) (subst (All P) e h)))

pub length-trim : (p : ℕ → Bool) (s : Text) → length (trim p s) ≤ length s
length-trim p s =
    let (pre, e) = trim_left-suffix p s in
    let (post, f) = trim-prefix p s in
    omega (
      arith,
      ap length e,
      ap length f,
      length-append pre (trim_left p s),
      length-append (trim p s) post,
    )
