-- ===== src/Web/Changes.antt =====
-- The differences that an audit event of a maintainer names: the same code in handleMaintainer and
-- handleMaintainerFromRef of cmd/web-bff/main.go. The map of changes is listed by field name, the
-- order in which the message has the fields.
use maintainer_d.Base.{
  ℕ, Text, text, ◌==◌, trim_space, Option, none, some, List, [], ◌∷◌, ◌++◌, join, if◌then◌else◌,
}
use maintainer_d.Base.Decimal.{itoa}
use maintainer_d.Base.Dict.{Dict}
use maintainer_d.Model.{Maintainer, Company, email_missing, github_missing}
use maintainer_d.Store.{Answer, found, failed, Change, Gorm}
use maintainer_d.Web.Params.{normalize_value}

unfoldable pub or_missing : Text → Text → Text
or_missing missing [] = missing
or_missing missing (c ∷ s) = c ∷ s

-- An entry for a field whose texts differ.
unfoldable pub change : Text → Text → Text → Dict Change
unfolding ◌==◌
change field from to = if from == to then [] else (field, record { from = some from; to = to }) ∷ []

unfoldable pub change_value : Text → Text → Text → Text → Dict Change
unfolding change normalize_value
change_value field missing from to =
    change field (normalize_value from missing) (normalize_value to missing)

abbrev name_missing : Text
name_missing = text "NAME_MISSING"

abbrev company_missing : Text
company_missing = text "COMPANY_MISSING"

unfoldable pub change_name : Text → Text → Dict Change
unfolding change or_missing trim_space
change_name from to =
    change (text "name") (or_missing name_missing (trim_space from))
      (or_missing name_missing (trim_space to))

unfoldable pub id_text : Option ℕ → Text
unfolding itoa
id_text none = []
id_text (some id) = itoa id

abbrev trimmed_name : Answer Company → Text
trimmed_name (found c) = trim_space c.name
trimmed_name (failed e) = []

abbrev fields : Dict Change → List Text
fields [] = []
fields ((field, c) ∷ changes) = field ∷ fields changes

unfoldable pub update_message : Dict Change → Text → Text
unfolding join
update_message [] actor = text "Maintainer updated by " ++ actor
update_message (c ∷ changes) actor =
    text "Maintainer [" ++ join (text ", ") (fields (c ∷ changes)) ++ text "] updated by " ++ actor

module _ {W : Type 0} (db : Gorm W) where
  unfoldable pub company_name : Option ℕ → W → Text
  unfolding trim_space
  company_name none w = []
  company_name (some id) w = trimmed_name (db.first_company id w)

  -- handleMaintainer names the companies only if their ids differ.
  unfoldable pub change_company : Maintainer → Maintainer → W → Dict Change
  unfolding company_name or_missing id_text trim_space ◌==◌
  change_company before after w =
      if id_text before.company_id == id_text after.company_id
      then []
      else (
        text "company",
        record {
          from = some (or_missing company_missing (company_name before.company_id w));
          to = or_missing company_missing (trim_space after.company);
        },
      )
        ∷ []

  unfoldable pub change_status : Text → Text → Dict Change
  unfolding change
  change_status from to = change (text "status") from to

  unfoldable pub update_changes : Maintainer → Maintainer → W → Dict Change
  unfolding change_company change_value change_name change_status
  update_changes before after w =
      change_company before after w
      ++ change_value (text "email") email_missing before.email after.email
      ++ change_value (text "github") github_missing before.git_hub_account after.git_hub_account
      ++ change_name before.name after.name
      ++ change_status before.maintainer_status after.maintainer_status

  -- handleMaintainerFromRef compares the names of the companies.
  unfoldable pub name_after : Maintainer → Text → W → Text
  unfolding company_name trim_space or_missing
  name_after after company w =
      or_missing (trim_space company)
        (or_missing (company_name after.company_id w) (trim_space after.company))

  unfoldable pub ref_changes : Maintainer → Maintainer → Text → W → Dict Change
  unfolding company_name name_after or_missing change change_value change_name
  ref_changes before after company w =
      change (text "company") (or_missing company_missing (company_name before.company_id w))
        (or_missing company_missing (name_after after company w))
      ++ change_value (text "email") email_missing before.email after.email
      ++ change_value (text "github") github_missing before.git_hub_account after.git_hub_account
      ++ change_name before.name after.name
