-- ===== src/Store/Companies.antt =====
-- The operations of db/store_impl.go on companies and projects.
use maintainer_d.Base.{
  ℕ, zero, suc, Text, to_lower, trim_space, eqb, Option, none, some, [], ◌∷◌, text, if◌then◌else◌,
}
use maintainer_d.Model.{Company, Project}
use maintainer_d.Store.{
  DbError, record_not_found, project_not_found, company_exists, invalid, Answer, found, failed,
  Gorm,
}

-- `ErrRecordNotFound` as the store's own error.
unfoldable pub project_error : DbError → DbError
project_error record_not_found = project_not_found
project_error e = e

-- After an update of a project: no row is an error.
unfoldable pub some_row : {W : Type 0} → DbError → Answer ℕ × W → Option DbError × W
some_row missing (failed e, w) = (some e, w)
some_row missing (found zero, w) = (some missing, w)
some_row missing (found (suc n), w) = (none, w)

-- The error of a look-up in `MergeCompanies`.
unfoldable pub merge_error : Text → DbError → DbError
merge_error what record_not_found = invalid what
merge_error what e = e

module _ {W : Type 0} (db : Gorm W) where
  unfoldable pub after_project : Answer Project → Answer Project
  unfolding project_error
  after_project (found p) = found p
  after_project (failed e) = failed (project_error e)

  unfoldable pub get_project_by_id : ℕ → W → Answer Project
  unfolding after_project
  get_project_by_id id w = after_project (db.first_project id w)

  unfoldable pub update_project_legacy_maintainer_ref : ℕ → Text → W → Option DbError × W
  unfolding some_row
  update_project_legacy_maintainer_ref id ref w =
      some_row project_not_found (db.update_maintainer_ref id ref w)

  unfoldable pub update_project_maturity : ℕ → Text → W → Option DbError × W
  unfolding some_row
  update_project_maturity id maturity w =
      some_row project_not_found (db.update_maturity id maturity w)

  -- After the query for a company with the same name up to case.
  unfoldable pub after_same_name : Text → Answer Company → W → Answer Company × W
  after_same_name name (found c) w = (failed company_exists, w)
  after_same_name name (failed record_not_found) w = db.insert_company name w
  after_same_name name (failed e) w = (failed e, w)

  unfoldable pub create_trimmed : Text → W → Answer Company × W
  unfolding after_same_name to_lower
  create_trimmed [] w = (failed (invalid (text "company name is required")), w)
  create_trimmed (c ∷ s) w =
      after_same_name (c ∷ s) (db.first_company_by_lower_name (to_lower (c ∷ s)) w) w

  unfoldable pub create_company : Text → W → Answer Company × W
  unfolding create_trimmed trim_space
  create_company name w = create_trimmed (trim_space name) w

  unfoldable pub after_move : ℕ → Answer ℕ × W → Option DbError × W
  after_move from (failed e, w) = (some e, w)
  after_move from (found n, w) = db.delete_company from w

  unfoldable pub after_source : ℕ → ℕ → Answer Company → W → Option DbError × W
  unfolding after_move merge_error
  after_source from to (failed e) w = (some (merge_error (text "source company not found") e), w)
  after_source from to (found source) w = after_move from (db.update_maintainer_company from to w)

  unfoldable pub after_target : ℕ → ℕ → Answer Company → W → Option DbError × W
  unfolding after_source merge_error
  after_target from to (failed e) w = (some (merge_error (text "target company not found") e), w)
  after_target from to (found target) w = after_source from to (db.first_company from w) w

  -- The function that `MergeCompanies` gives to `Transaction`.
  unfoldable pub merge_body : ℕ → ℕ → W → Option DbError × W
  unfolding after_target
  merge_body from to w = after_target from to (db.first_company to w) w

  unfoldable pub merge_companies : ℕ → ℕ → W → Option DbError × W
  unfolding merge_body
  merge_companies from to w =
      if eqb from to
      then (some (invalid (text "fromID and toID must differ")), w)
      else db.transaction (merge_body from to) w
