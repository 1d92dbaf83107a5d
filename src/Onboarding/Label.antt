-- ===== src/Onboarding/Label.antt =====
-- `handleLabelCommand` of onboarding/server.go, and `GetProjectNameFromProjectTitle` of
-- onboarding/task.go. The handler asks the store first and calls GitHub last; the two halves are two
-- functions.
pub mod Decision
use mathlib.Core.List.{reverse}
use maintainer_d.Base.{
  ℕ, zero, suc, Text, text, ◌==◌, to_lower, trim_space, is_space, has_prefix, length, Bool, true,
  false, ◌||◌, not, Option, none, some, List, [], ◌∷◌, any, if◌then◌else◌,
}
use maintainer_d.Base.Dict.{Dict, get}
use maintainer_d.Model.{Maintainer, Project}
use maintainer_d.Fossa.{Result, ok, err}
use maintainer_d.Onboarding.Team.{Store}

-- strings.Fields
unfoldable pub fields_from : Text → Text → List Text
fields_from word [] = elim word [ [] ↦ [] | c ∷ w ↦ reverse (c ∷ w) ∷ [] ]
fields_from word (c ∷ s) =
    let rest = fields_from [] s in
    let more = fields_from (c ∷ word) s in
    if is_space c then elim word [ [] ↦ rest | d ∷ w ↦ reverse (d ∷ w) ∷ rest ] else more

unfoldable pub fields : Text → List Text
unfolding fields_from
fields s = fields_from [] s

unfoldable pub drop : ℕ → Text → Text
drop zero s = s
drop (suc n) [] = []
drop (suc n) (c ∷ s) = drop n s

abbrev cons_first : ℕ → Option (Text × Text) → Option (Text × Text)
cons_first c none = none
cons_first c (some (before, after)) = some (c ∷ before, after)

-- What stands before and after the first `sep`, which is not empty.
unfoldable pub cut : Text → Text → Option (Text × Text)
unfolding has_prefix drop
cut sep [] = none
cut sep (c ∷ s) =
    let rest = cut sep s in
    if has_prefix (c ∷ s) sep then some ([], drop (length sep) (c ∷ s)) else cons_first c rest

abbrev title_prefix : Text
title_prefix = text "PROJECT ONBOARDING]"

abbrev first_of : Text → Option (Text × Text) → Text
first_of s none = s
first_of s (some (before, after)) = before

-- `parts[1]` of strings.Split: what is between the first prefix and the next, if there is one.
unfoldable pub get_project_name_from_project_title : Text → Option Text
unfolding cut trim_space
get_project_name_from_project_title title = elim (cut title_prefix title) [
  | none ↦ none
  | some (before, rest) ↦ some (trim_space (first_of rest (cut title_prefix rest)))
]

-- The comments that the handler posts.
pub data Comment : Type 0 where
  invalid_format unknown_title : Comment
  invalid_label unknown_project not_registered label_failed : Text → Comment
  label_added : Text → Text → Comment

pub data LabelDecision : Type 0 where
  refused : Comment → LabelDecision
  allowed : Text → LabelDecision

-- An error counts as an empty answer.
abbrev pub rows_of : Result (List Maintainer) → List Maintainer
rows_of (ok ms) = ms
rows_of (err e) = []

abbrev pub is_true : Result Bool → Bool
is_true (ok b) = b
is_true (err e) = false

unfoldable pub is_registered : Text → Result (List Maintainer) → Bool
unfolding ◌==◌
is_registered actor answer = any (λ (m : Maintainer). m.git_hub_account == actor) (rows_of answer)

-- The test of the label's name.
unfoldable pub is_label : Text → Bool
unfolding ◌==◌
is_label name = name == text "fossa" || name == text "snyk"

module _ {W : Type 0} (store : Store W) (projects : Dict Project) (actor : Text) where
  -- The staff is asked only for an actor who is no maintainer of the project.
  unfoldable pub is_authorized : ℕ → W → Bool × W
  unfolding is_registered
  is_authorized id w =
      let (maintainers, w') = store.get_maintainers_by_project id w in
      if is_registered actor maintainers
      then (true, w')
      else (let (staff, w'') = store.is_staff_git_hub_account actor w' in (is_true staff, w''))

  unfoldable pub after_authorized : Text → Bool × W → LabelDecision × W
  after_authorized label (true, w) = (allowed label, w)
  after_authorized label (false, w) = (refused (not_registered actor), w)

  unfoldable pub after_project : Text → Text → Option Project → W → LabelDecision × W
  unfolding after_authorized is_authorized
  after_project label name none w = (refused (unknown_project name), w)
  after_project label name (some project) w = after_authorized label (is_authorized project.id w)

  unfoldable pub after_title : Text → Option Text → W → LabelDecision × W
  unfolding after_project get
  after_title label none w = (refused unknown_title, w)
  after_title label (some name) w = after_project label name (get name projects) w

  unfoldable pub after_fields : List Text → Text → W → LabelDecision × W
  unfolding after_title is_label to_lower get_project_name_from_project_title
  after_fields (command ∷ name ∷ []) title w =
      if not (is_label (to_lower name))
      then (refused (invalid_label name), w)
      else after_title (to_lower name) (get_project_name_from_project_title title) w
  after_fields _ title w = (refused invalid_format, w)

  unfoldable pub decide_label : Text → Text → W → LabelDecision × W
  unfolding after_fields fields
  decide_label body title w = after_fields (fields body) title w

-- GitHub as the handler calls it; an error of a comment is only logged.
pub record GitHub (W : Type 0) : Type 0 where
  pub add_label : Text → W → Option Text × W
  pub create_comment : Comment → W → W

abbrev report : Text → Text → Option Text → Comment
report actor label none = label_added actor label
report actor label (some e) = label_failed label

unfoldable pub apply_label : {W : Type 0} → GitHub W → Text → LabelDecision × W → W
apply_label git_hub actor (refused comment, w) = git_hub.create_comment comment w
apply_label git_hub actor (allowed label, w) =
    let (error, w') = git_hub.add_label label w in
    git_hub.create_comment (report actor label error) w'

unfoldable pub handle_label_command :
    {W : Type 0} → Store W → GitHub W → Dict Project → Text → Text → Text → W → W
unfolding apply_label decide_label
handle_label_command store git_hub projects actor body title w =
    apply_label git_hub actor (decide_label store projects actor body title w)
