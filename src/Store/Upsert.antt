-- ===== src/Store/Upsert.antt =====
-- `UpsertMaintainer` of db/store_impl.go. `fail` rolls the transaction back; a row's id is not 0,
-- so that no row is `none`.
use maintainer_d.Base.{
  ℕ, Text, ◌==◌, to_lower, trim_space, ◌||◌, ◌&&◌, not, Option, none, some, [], ◌∷◌, if◌then◌else◌,
}
use maintainer_d.Model.{
  Maintainer, Company, Project, email_missing, github_missing, active_maintainer, status_is_valid,
}
use maintainer_d.Store.{DbError, record_not_found, Answer, found, failed, Gorm}
use maintainer_d.Store.Companies.{project_error}
use maintainer_d.Store.Maintainers.{normalize_or_sentinel, update_maintainer_details}

-- The arguments of `UpsertMaintainer`.
pub record Incoming : Type 0 where
  pub project_id : ℕ
  pub name : Text
  pub email : Text
  pub github : Text
  pub company : Text

abbrev company_id_of : Option Company → Option ℕ
company_id_of none = none
company_id_of (some c) = some c.id

abbrev company_name_of : Option Company → Text
company_name_of none = []
company_name_of (some c) = c.name

-- The row for someone who has none.
unfoldable pub fresh_maintainer : Incoming → Option Company → Maintainer
unfolding normalize_or_sentinel
fresh_maintainer args company = record {
  id = 0;
  name = args.name;
  email = normalize_or_sentinel args.email email_missing;
  git_hub_account = normalize_or_sentinel args.github github_missing;
  git_hub_email = github_missing;
  maintainer_status = active_maintainer;
  registered_at = none;
  company_id = company_id_of company;
  company = company_name_of company;
}

unfoldable pub final_name : Maintainer → Text → Text
unfolding trim_space ◌==◌
final_name m name = if trim_space m.name == [] && not (trim_space name == []) then name else m.name

-- `finalGitHub` and `finalEmail`: what the row has, unless that is missing and there is better.
unfoldable pub final_text : Text → Text → Text → Text
unfolding trim_space ◌==◌
final_text sentinel current given =
    if (current == [] || current == sentinel) && not (trim_space given == [])
    then given
    else current

unfoldable pub final_company : Option ℕ → Option Company → Option ℕ
final_company none company = company_id_of company
final_company (some id) company = some id

unfoldable pub final_status : Text → Text
unfolding status_is_valid
final_status s = if status_is_valid s then s else active_maintainer

module _ {W : Type 0} (db : Gorm W) (args : Incoming) where
  unfoldable pub fail : DbError → W → Answer Maintainer × W
  fail e w = (failed e, db.rollback w)

  unfoldable pub after_commit :
      Maintainer → Option Company → Option DbError × W → Answer Maintainer × W
  unfolding update_maintainer_details final_name final_text final_company final_status
  after_commit m company (some e, w) = (failed e, w)
  after_commit m company (none, w) =
      update_maintainer_details db m.id (final_name m args.name)
        (final_text email_missing m.email args.email)
        (final_text github_missing m.git_hub_account args.github) (final_status m.maintainer_status)
        (final_company m.company_id company) w

  unfoldable pub after_append :
      Maintainer → Option Company → Option DbError × W → Answer Maintainer × W
  unfolding after_commit fail
  after_append m company (some e, w) = fail e w
  after_append m company (none, w) = after_commit m company (db.commit w)

  unfoldable pub after_insert : Option Company → Answer Maintainer × W → Answer Maintainer × W
  unfolding after_append fail
  after_insert company (failed e, w) = fail e w
  after_insert company (found m, w) =
      after_append m company (db.append_project m.id args.project_id w)

  -- With the row that was found, or a new one.
  unfoldable pub with_company : Option Maintainer → Option Company → W → Answer Maintainer × W
  unfolding after_insert fresh_maintainer
  with_company (some m) company w = after_insert company (found m, w)
  with_company none company w =
      after_insert company (db.insert_maintainer (fresh_maintainer args company) w)

  -- `FirstOrCreate`: the condition is a text, so that it does not set the new row's name.
  unfoldable pub after_company_row : Option Maintainer → Answer Company × W → Answer Maintainer × W
  unfolding with_company fail
  after_company_row m (failed e, w) = fail e w
  after_company_row m (found c, w) = with_company m (some c) w

  unfoldable pub with_row : Option Maintainer → Text → W → Answer Maintainer × W
  unfolding after_company_row with_company
  with_row m [] w = with_company m none w
  with_row m (c ∷ s) w = after_company_row m (db.first_or_create_company (c ∷ s) w)

  unfoldable pub after_email : Answer Maintainer → W → Answer Maintainer × W
  unfolding with_row fail
  after_email (found m) w = with_row (some m) args.company w
  after_email (failed record_not_found) w = with_row none args.company w
  after_email (failed e) w = fail e w

  unfoldable pub by_email : Text → W → Answer Maintainer × W
  unfolding after_email with_row to_lower
  by_email [] w = with_row none args.company w
  by_email (c ∷ s) w = after_email (db.first_maintainer_by_email (to_lower (c ∷ s)) w) w

  unfoldable pub after_account : Answer Maintainer → W → Answer Maintainer × W
  unfolding with_row by_email fail
  after_account (found m) w = with_row (some m) args.company w
  after_account (failed record_not_found) w = by_email args.email w
  after_account (failed e) w = fail e w

  unfoldable pub by_account : Text → W → Answer Maintainer × W
  unfolding after_account by_email to_lower
  by_account [] w = by_email args.email w
  by_account (c ∷ s) w = after_account (db.first_maintainer_by_account (to_lower (c ∷ s)) w) w

  unfoldable pub after_upsert_project : Answer Project → W → Answer Maintainer × W
  unfolding by_account fail project_error
  after_upsert_project (failed e) w = fail (project_error e) w
  after_upsert_project (found p) w = by_account args.github w

  unfoldable pub after_begin : Option DbError × W → Answer Maintainer × W
  unfolding after_upsert_project
  after_begin (some e, w) = (failed e, w)
  after_begin (none, w) = after_upsert_project (db.first_project args.project_id w) w

  unfoldable pub upsert_maintainer : W → Answer Maintainer × W
  unfolding after_begin
  upsert_maintainer w = after_begin (db.begin w)
