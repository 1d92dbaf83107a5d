-- ===== src/Store.antt =====
-- db/store_impl.go: the interface to the database and what the operations write to it. `Gorm`
-- has the statements that the program gives to gorm. A query leaves the state of the world as it
-- is, and its answer may be an error. The handlers run one at a time.
pub mod Companies
pub mod Maintainers
pub mod Upsert
pub mod Tables
pub mod Laws
pub mod Memory
pub mod Tests
use maintainer_d.Base.{ℕ, Text, Option, List}
use maintainer_d.Base.Dict.{Dict}
use maintainer_d.Model.{Maintainer, Company, Project, StaffMember}

-- gorm.ErrRecordNotFound, the errors of db/store.go, those that the store makes up, and others.
pub data DbError : Type 0 where
  record_not_found project_not_found project_exists company_exists : DbError
  invalid other : Text → DbError

pub data Answer (A : Type 0) : Type 0 where
  found : A → Answer A
  failed : DbError → Answer A

-- The columns that `UpdateMaintainerDetails` sets.
pub record Details : Type 0 where
  pub name : Text
  pub email : Text
  pub git_hub_account : Text
  pub maintainer_status : Text
  pub company_id : Option ℕ

-- One entry of the map `changes` of an audit event.
pub record Change : Type 0 where
  pub from : Option Text
  pub to : Text

-- The metadata of an audit event, as data in place of its JSON; the texts are the actor's login
-- and role.
pub data Metadata : Type 0 where
  changed : Text → Text → Dict Change → Metadata
  company_made : Text → Text → Company → Metadata
  project_made : Dict Change → Metadata

-- model.AuditLog
pub record AuditLog : Type 0 where
  pub project_id : Option ℕ
  pub maintainer_id : Option ℕ
  pub staff_id : Option ℕ
  pub action : Text
  pub message : Text
  pub metadata : Metadata

-- The columns of a new project.
pub record NewProject : Type 0 where
  pub name : Text
  pub maturity : Text
  pub git_hub_org : Text
  pub parent_project_id : Option ℕ
  pub legacy_maintainer_ref : Text
  pub dot_project_yaml_ref : Text
  pub onboarding_issue : Text

-- The statements, each with the columns that it tests or sets: `first_...` is a query for the first
-- row with the id, the account or the name (these two compared with LOWER of the column, but
-- `first_project_by_name`, which compares the column itself), the others write. A maintainer comes
-- with the name of the company that its row refers to. An update answers with the number of rows. `find_...` has all rows, `maintainers_of_company` those
-- with the company in order of their names, and `count_maintainers` the ids of the companies with the
-- number of maintainers each. `count_projects_like` counts the projects whose issue or name is the
-- text in small letters; an empty text is no condition.
pub record Gorm (W : Type 0) : Type 0 where
  pub first_maintainer : ℕ → W → Answer Maintainer
  pub first_maintainer_by_account : Text → W → Answer Maintainer
  pub first_maintainer_by_email : Text → W → Answer Maintainer
  pub updates_maintainer : ℕ → Details → W → Answer ℕ × W
  pub update_maintainer_status : List ℕ → Text → W → Answer ℕ × W
  pub update_maintainer_company : ℕ → ℕ → W → Answer ℕ × W
  pub insert_maintainer : Maintainer → W → Answer Maintainer × W
  pub append_project : ℕ → ℕ → W → Option DbError × W
  pub first_company : ℕ → W → Answer Company
  pub first_company_by_lower_name : Text → W → Answer Company
  pub first_or_create_company : Text → W → Answer Company × W
  pub insert_company : Text → W → Answer Company × W
  pub delete_company : ℕ → W → Option DbError × W
  pub find_companies : W → Answer (List Company)
  pub count_maintainers : W → Answer (List (ℕ × ℕ))
  pub maintainers_of_company : ℕ → W → Answer (List Maintainer)
  pub first_project : ℕ → W → Answer Project
  pub first_project_by_name : Text → W → Answer Project
  pub count_projects_like : Text → Text → W → Answer ℕ
  pub update_maintainer_ref : ℕ → Text → W → Answer ℕ × W
  pub update_maturity : ℕ → Text → W → Answer ℕ × W
  pub insert_project : NewProject → W → Answer ℕ × W
  pub first_staff : ℕ → W → Answer StaffMember
  pub first_staff_by_account : Text → W → Answer StaffMember
  pub first_update_event : ℕ → W → Answer AuditLog
  pub insert_event : AuditLog → W → Option DbError × W
  pub begin : W → Option DbError × W
  pub commit : W → Option DbError × W
  pub rollback : W → W
  pub transaction : (W → Option DbError × W) → W → Option DbError × W
