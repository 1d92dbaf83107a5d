-- ===== src/Web/Summary.antt =====
-- summarizeMaintainers and summarizeMaintainerDetails of cmd/web-bff/main.go. Both have the same loop,
-- which keeps some of the maintainers, and differ in what they say of one that is kept.
pub mod Distinct
use maintainer_d.Base.{
  ℕ, Text, text, ◌==◌, trim_space, Bool, List, [], ◌∷◌, ◌++◌, map, any, if◌then◌else◌,
}
use maintainer_d.Model.{Maintainer, github_missing}

pub record MaintainerSummary : Type 0 where
  pub id : ℕ
  pub name : Text
  pub git_hub : Text

pub record ProjectMaintainerDetail : Type 0 where
  pub id : ℕ
  pub name : Text
  pub git_hub : Text
  pub in_maintainer_ref : Bool
  pub status : Text
  pub company : Text

unfoldable pub shown_account : Maintainer → Text
unfolding trim_space ◌==◌
shown_account m =
    if trim_space m.git_hub_account == github_missing then [] else trim_space m.git_hub_account

-- fmt.Sprintf("%s|%s", name, github)
unfoldable pub summary_key : Maintainer → Text
unfolding shown_account trim_space
summary_key m = trim_space m.name ++ text "|" ++ shown_account m

unfoldable pub summary_of : Maintainer → MaintainerSummary
unfolding shown_account trim_space
summary_of m = record { id = m.id; name = trim_space m.name; git_hub = shown_account m }

unfoldable pub detail_in : (ℕ → Bool) → Maintainer → ProjectMaintainerDetail
unfolding shown_account trim_space
detail_in ref_matches m = record {
  id = m.id;
  name = trim_space m.name;
  git_hub = shown_account m;
  in_maintainer_ref = ref_matches m.id;
  status = m.maintainer_status;
  company = trim_space m.company;
}

abbrev pub has_key : Text → List Text → Bool
has_key k keys = any (λ (j : Text). j == k) keys

-- The loop: a maintainer with neither name nor account, or with a key that was seen, is left out.
unfoldable pub kept : List Text → List Maintainer → List Maintainer
unfolding summary_key ◌==◌
kept seen [] = []
kept seen (m ∷ ms) =
    let rest = kept seen ms in
    let more = kept (summary_key m ∷ seen) ms in
    if summary_key m == text "|"
    then rest
    else if has_key (summary_key m) seen
    then rest
    else m ∷ more

unfoldable pub summarize_maintainers : List Maintainer → List MaintainerSummary
unfolding kept summary_of
summarize_maintainers ms = map summary_of (kept [] ms)

unfoldable pub summarize_maintainer_details :
    List Maintainer → (ℕ → Bool) → List ProjectMaintainerDetail
unfolding kept detail_in
summarize_maintainer_details ms ref_matches = map (detail_in ref_matches) (kept [] ms)
