-- ===== src/Sync/Names.antt =====
-- `sanitizeName` of cmd/sync/main.go: the name of the resource for a name or an email.
pub mod Trim
pub mod Laws
use maintainer_d.Base.{
  ℕ, suc, zero, Text, text, ◌==◌, to_lower, trim_space, trim, Bool, true, false, ◌&&◌, ◌||◌, List,
  [], ◌∷◌, length, eqb, leb, ltb, if◌then◌else◌,
}

-- What `dns1123InvalidChars` does not match.
abbrev pub name_char : ℕ → Bool
name_char c = (leb b'a' c && leb c b'z') || (leb b'0' c && leb c b'9') || eqb c b'-' || eqb c b'.'

-- The cutset of `strings.Trim(s, "-.")`.
abbrev pub is_edge : ℕ → Bool
is_edge c = eqb c b'-' || eqb c b'.'

-- `dns1123InvalidChars.ReplaceAllString(s, "-")`: a run of other characters becomes one dash. The
-- flag tells whether the character before belongs to such a run.
unfoldable pub replace_invalid : Bool → Text → Text
replace_invalid in_run [] = []
replace_invalid in_run (c ∷ s) =
    let kept = replace_invalid false s in
    let dropped = replace_invalid true s in
    if name_char c then c ∷ kept else if in_run then dropped else b'-' ∷ dropped

-- `s[:n]` for a text of at least `n` characters, each of one byte.
unfoldable pub take : ℕ → Text → Text
take zero s = []
take (suc n) [] = []
take (suc n) (c ∷ s) = c ∷ take n s

abbrev pub unnamed : Text
unnamed = text "unnamed"

abbrev pub or_unnamed : Text → Text
or_unnamed [] = unnamed
or_unnamed (c ∷ s) = c ∷ s

unfoldable pub shorten : Text → Text
unfolding take trim
shorten s = if ltb 63 (length s) then trim is_edge (take 63 s) else s

-- What follows the first `strings.Trim`.
unfoldable pub finish_name : Text → Text
unfolding shorten
finish_name [] = unnamed
finish_name (c ∷ s) = or_unnamed (shorten (c ∷ s))

unfoldable pub sanitize_name : Text → Text
unfolding finish_name trim trim_space replace_invalid to_lower
sanitize_name [] = unnamed
sanitize_name (c ∷ s) =
    finish_name (trim is_edge (replace_invalid false (to_lower (trim_space (c ∷ s)))))
