-- ===== src/Web/Summary/Distinct.antt =====
-- Which maintainers the summaries of cmd/web-bff/main.go keep.
use maintainer_d.Base.{
  Text, text, ◌==◌, eq_refl, true, false, ◌||◌, ◌≡◌, List, [], ◌∷◌, any, All, All-imp, arith,
  if◌then◌else◌, if-Splits,
}
use maintainer_d.Model.{Maintainer}
use maintainer_d.Web.Summary.{summary_key, has_key, kept}

-- The key is neither blank nor one of those.
abbrev IsFresh : List Text → Maintainer → Type 0
IsFresh seen m = ((summary_key m == text "|") ≡ false) × (has_key (summary_key m) seen ≡ false)

IsFresh-weaken :
    (k : Text) (seen : List Text) (m : Maintainer) → IsFresh (k ∷ seen) m → IsFresh seen m
IsFresh-weaken k seen m (filled, new) = (filled, ground arith)

kept-IsFresh : (seen : List Text) (ms : List Maintainer) → All (IsFresh seen) (kept seen ms)
unfolding kept
kept-IsFresh seen [] = tt
kept-IsFresh seen (m ∷ ms) =
    if-Splits (All (IsFresh seen)) (summary_key m == text "|") (kept seen ms)
      (if has_key (summary_key m) seen then kept seen ms else m ∷ kept (summary_key m ∷ seen) ms)
      (λ blank. kept-IsFresh seen ms)
      (λ filled.
        if-Splits (All (IsFresh seen)) (has_key (summary_key m) seen) (kept seen ms)
          (m ∷ kept (summary_key m ∷ seen) ms) (λ old. kept-IsFresh seen ms)
          (λ new. (
            (filled, new),
            All-imp (IsFresh (summary_key m ∷ seen)) (IsFresh seen) (kept (summary_key m ∷ seen) ms)
                (λ n. IsFresh-weaken (summary_key m) seen n)
                (kept-IsFresh (summary_key m ∷ seen) ms),
          )))

-- No two have the same key.
abbrev pub KeysDiffer : List Maintainer → Type 0
KeysDiffer [] = Unit
KeysDiffer (m ∷ ms) = All (λ n. (summary_key m == summary_key n) ≡ false) ms × KeysDiffer ms

kept-KeysDiffer : (seen : List Text) (ms : List Maintainer) → KeysDiffer (kept seen ms)
unfolding kept
kept-KeysDiffer seen [] = tt
kept-KeysDiffer seen (m ∷ ms) =
    if-Splits KeysDiffer (summary_key m == text "|") (kept seen ms)
      (if has_key (summary_key m) seen then kept seen ms else m ∷ kept (summary_key m ∷ seen) ms)
      (λ blank. kept-KeysDiffer seen ms)
      (λ filled.
        if-Splits KeysDiffer (has_key (summary_key m) seen) (kept seen ms)
          (m ∷ kept (summary_key m ∷ seen) ms) (λ old. kept-KeysDiffer seen ms)
          (λ new. (
            All-imp (IsFresh (summary_key m ∷ seen)) (λ n. (summary_key m == summary_key n) ≡ false)
                (kept (summary_key m ∷ seen) ms) (λ n (full, other). ground arith)
                (kept-IsFresh (summary_key m ∷ seen) ms),
            kept-KeysDiffer (summary_key m ∷ seen) ms,
          )))

-- The maintainer's key is blank, was seen, or is that of one of the list.
abbrev IsCovered : List Text → List Maintainer → Maintainer → Type 0
IsCovered seen out m =
    (summary_key m == text "|"
      || has_key (summary_key m) seen
      || any (λ n. summary_key n == summary_key m) out)
    ≡ true

kept-IsCovered : (seen : List Text) (ms : List Maintainer) → All (IsCovered seen (kept seen ms)) ms
unfolding kept
kept-IsCovered seen [] = tt
kept-IsCovered seen (m ∷ ms) =
    if-Splits (λ out. All (IsCovered seen out) (m ∷ ms)) (summary_key m == text "|") (kept seen ms)
      (if has_key (summary_key m) seen then kept seen ms else m ∷ kept (summary_key m ∷ seen) ms)
      (λ blank. (ground (arith, blank), kept-IsCovered seen ms))
      (λ filled.
        if-Splits (λ out. All (IsCovered seen out) (m ∷ ms)) (has_key (summary_key m) seen)
          (kept seen ms) (m ∷ kept (summary_key m ∷ seen) ms)
          (λ old. (ground (arith, old), kept-IsCovered seen ms))
          (λ new. (
            ground (arith, eq_refl (summary_key m)),
            All-imp (IsCovered (summary_key m ∷ seen) (kept (summary_key m ∷ seen) ms))
                (IsCovered seen (m ∷ kept (summary_key m ∷ seen) ms)) ms
                (λ n covered. ground (arith, covered)) (kept-IsCovered (summary_key m ∷ seen) ms),
          )))

-- Of the maintainers that both summaries show, with the key of a maintainer being the trimmed name,
-- a bar and the shown account: no two have the same key, each has a name or an account, and each
-- maintainer of the list who has a name or an account has the key of one that is shown.
pub kept-Distinct :
    (ms : List Maintainer)
    → KeysDiffer (kept [] ms)
      × All (λ m. (summary_key m == text "|") ≡ false) (kept [] ms)
      × All
          (λ m.
            (summary_key m == text "|" || any (λ n. summary_key n == summary_key m) (kept [] ms))
            ≡ true)
          ms
kept-Distinct ms = (
  kept-KeysDiffer [] ms,
  All-imp (IsFresh []) (λ m. (summary_key m == text "|") ≡ false) (kept [] ms) (λ m f. f.0)
      (kept-IsFresh [] ms),
  All-imp (IsCovered [] (kept [] ms))
      (λ m.
        (summary_key m == text "|" || any (λ n. summary_key n == summary_key m) (kept [] ms))
        ≡ true)
      ms (λ m covered. ground (arith, covered)) (kept-IsCovered [] ms),
)
