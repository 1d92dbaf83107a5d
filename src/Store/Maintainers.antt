-- ===== src/Store/Maintainers.antt =====
-- The operations of db/store_impl.go on maintainers.
use maintainer_d.Base.{
  ℕ, Text, text, trim_space, not, Option, none, some, List, [], ◌∷◌, if◌then◌else◌,
}
use maintainer_d.Model.{Maintainer, Company, email_missing, github_missing, status_is_valid}
use maintainer_d.Store.{DbError, record_not_found, invalid, Answer, found, failed, Gorm, Details}
use maintainer_d.Store.Companies.{some_row}

abbrev pub or_sentinel : Text → Text → Text
or_sentinel sentinel [] = sentinel
or_sentinel sentinel (c ∷ s) = c ∷ s

unfoldable pub normalize_or_sentinel : Text → Text → Text
unfolding trim_space
normalize_or_sentinel value sentinel = or_sentinel sentinel (trim_space value)

-- The map `updates` of `UpdateMaintainerDetails`.
unfoldable pub details_of : Text → Text → Text → Text → Option ℕ → Details
unfolding normalize_or_sentinel trim_space
details_of name email github status company = record {
  name = trim_space name;
  email = normalize_or_sentinel email email_missing;
  git_hub_account = normalize_or_sentinel github github_missing;
  maintainer_status = status;
  company_id = company;
}

abbrev pub invalid_status : DbError
invalid_status = invalid (text "invalid maintainer status")

module _ {W : Type 0} (db : Gorm W) where
  unfoldable pub update_maintainer_status : ℕ → Text → W → Option DbError × W
  unfolding some_row status_is_valid
  update_maintainer_status id status w =
      if not (status_is_valid status)
      then (some invalid_status, w)
      else some_row record_not_found (db.update_maintainer_status (id ∷ []) status w)

  unfoldable pub error_of : Answer ℕ × W → Option DbError × W
  error_of (failed e, w) = (some e, w)
  error_of (found n, w) = (none, w)

  unfoldable pub update_maintainers_status : List ℕ → Text → W → Option DbError × W
  unfolding error_of status_is_valid
  update_maintainers_status [] status w = (none, w)
  update_maintainers_status (id ∷ ids) status w =
      if not (status_is_valid status)
      then (some invalid_status, w)
      else error_of (db.update_maintainer_status (id ∷ ids) status w)

  -- After the update: the row is read again.
  unfoldable pub after_updates : ℕ → Answer ℕ × W → Answer Maintainer × W
  after_updates id (failed e, w) = (failed e, w)
  after_updates id (found n, w) = (db.first_maintainer id w, w)

  unfoldable pub after_company : ℕ → Details → Answer Company → W → Answer Maintainer × W
  unfolding after_updates
  after_company id d (failed e) w = (failed e, w)
  after_company id d (found c) w = after_updates id (db.updates_maintainer id d w)

  -- The company is looked up only if there is one.
  unfoldable pub write_details : ℕ → Details → Option ℕ → W → Answer Maintainer × W
  unfolding after_company
  write_details id d none w = after_updates id (db.updates_maintainer id d w)
  write_details id d (some company) w = after_company id d (db.first_company company w) w

  unfoldable pub update_maintainer_details :
      ℕ → Text → Text → Text → Text → Option ℕ → W → Answer Maintainer × W
  unfolding write_details details_of status_is_valid
  update_maintainer_details id name email github status company w =
      if not (status_is_valid status)
      then (failed invalid_status, w)
      else write_details id (details_of name email github status company) company w
