-- ===== src/Model.antt =====
-- model/main.go: the rows of the database, with the fields that the modelled operations read or
-- write; a preloaded company or foundation is its name. The bookkeeping columns of gorm.Model other
-- than the id are left out.
use maintainer_d.Base.{ℕ, Text, text, ◌==◌, Bool, ◌||◌, Option, List}

abbrev pub email_missing : Text
email_missing = text "EMAIL_MISSING"

abbrev pub github_missing : Text
github_missing = text "GITHUB_MISSING"

pub record Maintainer : Type 0 where
  pub id : ℕ
  pub name : Text
  pub email : Text
  pub git_hub_account : Text
  pub git_hub_email : Text
  pub maintainer_status : Text
  pub registered_at : Option ℕ
  pub company_id : Option ℕ
  pub company : Text

pub record StaffMember : Type 0 where
  pub id : ℕ
  pub name : Text
  pub email : Text
  pub git_hub_account : Text
  pub git_hub_email : Text
  pub registered_at : Option ℕ
  pub foundation_id : Option ℕ
  pub foundation : Text

pub record Company : Type 0 where
  pub id : ℕ
  pub name : Text

pub record Project : Type 0 where
  pub id : ℕ
  pub name : Text
  pub parent_project_id : Option ℕ
  pub maturity : Text
  pub legacy_maintainer_ref : Text
  pub onboarding_issue : Option Text
  pub mailing_list : Option Text
  pub maintainers : List Maintainer

abbrev pub active_maintainer : Text
active_maintainer = text "Active"

-- MaintainerStatus.IsValid
unfoldable pub status_is_valid : Text → Bool
unfolding ◌==◌
status_is_valid s =
    s == text "Active" || s == text "Emeritus" || s == text "Retired" || s == text "Archived"

-- Maturity.IsValid
unfoldable pub maturity_is_valid : Text → Bool
unfolding ◌==◌
maturity_is_valid m =
    m == text "Sandbox" || m == text "Incubating" || m == text "Graduated" || m == text "Archived"
