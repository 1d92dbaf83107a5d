-- ===== src/Sync/Kinds.antt =====
-- The five `sync` functions of cmd/sync/main.go and `syncAll`. The store's rows are arguments: a map
-- is the list of its values in the order in which the loop reads them.
pub mod Laws
use maintainer_d.Base.{
  ℕ, Text, text, ◌==◌, Bool, not, Option, none, some, List, [], ◌∷◌, ◌++◌, map, eqb, if◌then◌else◌,
}
use maintainer_d.Fossa.{Result, ok, err}
use maintainer_d.Model.{Maintainer, StaffMember, Company, Project}
use maintainer_d.Sync.Names.{sanitize_name}
use maintainer_d.Sync.Rows.{Objects, sync_rows}
use maintainer_d.Sync.Specs.{
  MaintainerSpec, StaffMemberSpec, ProjectSpec, ProjectMembershipSpec, project_spec_equal,
  maintainer_spec_equal, staff_spec_equal, membership_spec_equal,
}

-- A reference to the named thing, if there is an id and a name.
abbrev pub ref_of : Option ℕ → Text → Option Text
ref_of none name = none
ref_of (some id) name = if name == [] then none else some (sanitize_name name)

abbrev pub text_or_empty : Option Text → Text
text_or_empty none = []
text_or_empty (some s) = s

unfoldable pub company_row : Company → Text × Text
company_row comp = (sanitize_name comp.name, comp.name)

unfoldable pub staff_row : StaffMember → Text × StaffMemberSpec
unfolding ◌==◌
staff_row staff =
    let source =
      if not (staff.email == [])
      then staff.email
      else if not (staff.git_hub_account == [])
      then staff.git_hub_account
      else staff.name in
    (
      sanitize_name source,
      record {
        display_name = staff.name;
        primary_email = staff.email;
        git_hub_account = staff.git_hub_account;
        git_hub_email = staff.git_hub_email;
        foundation_ref = ref_of staff.foundation_id staff.foundation;
        registered_at = staff.registered_at;
      },
    )

-- An empty status stands for Active.
unfoldable pub maintainer_row : Maintainer → Text × MaintainerSpec
unfolding ◌==◌
maintainer_row m = (
  sanitize_name m.email,
  record {
    display_name = m.name;
    primary_email = m.email;
    git_hub_account = m.git_hub_account;
    git_hub_email = m.git_hub_email;
    lifecycle = if m.maintainer_status == [] then text "Active" else m.maintainer_status;
    company_ref = ref_of m.company_id m.company;
    registered_at = m.registered_at;
  },
)

-- `parentNameByID[id]`; ids are unique.
unfoldable pub parent_name_by_id : List Project → ℕ → Option Text
parent_name_by_id [] id = none
parent_name_by_id (p ∷ ps) id =
    let rest = parent_name_by_id ps id in if eqb p.id id then some p.name else rest

abbrev sanitized : Option Text → Option Text
sanitized none = none
sanitized (some name) = some (sanitize_name name)

abbrev pub parent_ref : List Project → Option ℕ → Option Text
parent_ref projects none = none
parent_ref projects (some id) = sanitized (parent_name_by_id projects id)

unfoldable pub project_row : List Project → Project → Text × ProjectSpec
unfolding parent_name_by_id ◌==◌
project_row projects p = (
  sanitize_name p.name,
  record {
    display_name = p.name;
    maturity = p.maturity;
    parent_project_ref = parent_ref projects p.parent_project_id;
    maintainer_lead_ref =
        if p.legacy_maintainer_ref == []
        then none
        else some (sanitize_name p.legacy_maintainer_ref);
    onboarding_issue = text_or_empty p.onboarding_issue;
    mailing_list = text_or_empty p.mailing_list;
    maintainer_refs = map (λ (m : Maintainer). sanitize_name m.email) p.maintainers;
  },
)

unfoldable pub membership_rows : List Project → List (Text × ProjectMembershipSpec)
membership_rows [] = []
membership_rows (p ∷ ps) =
    map
      (λ (m : Maintainer). (
        sanitize_name (p.name ++ text "-" ++ m.email),
        record { project_ref = sanitize_name p.name; maintainer_ref = sanitize_name m.email },
      ))
      p.maintainers
    ++ membership_rows ps

module _ {W : Type 0} where
  unfoldable pub sync_companies : Objects W Text → List Company → W → Option Text × W
  unfolding sync_rows company_row
  sync_companies c companies w = sync_rows c (text "company") ◌==◌ (map company_row companies) w

  unfoldable pub sync_staff : Objects W StaffMemberSpec → List StaffMember → W → Option Text × W
  unfolding sync_rows staff_row
  sync_staff c staff w = sync_rows c (text "staffmember") staff_spec_equal (map staff_row staff) w

  unfoldable pub sync_maintainers : Objects W MaintainerSpec → List Maintainer → W → Option Text × W
  unfolding sync_rows maintainer_row
  sync_maintainers c maintainers w =
      sync_rows c (text "maintainer") maintainer_spec_equal (map maintainer_row maintainers) w

  unfoldable pub sync_projects : Objects W ProjectSpec → List Project → W → Option Text × W
  unfolding sync_rows project_row
  sync_projects c projects w =
      sync_rows c (text "project") project_spec_equal (map (project_row projects) projects) w

  unfoldable pub sync_memberships :
      Objects W ProjectMembershipSpec → List Project → W → Option Text × W
  unfolding sync_rows membership_rows
  sync_memberships c projects w =
      sync_rows c (text "membership") membership_spec_equal (membership_rows projects) w

-- The five kinds of one cluster, and what the queries of the store answer;
-- that for the projects is asked twice.
pub record Cluster (W : Type 0) : Type 0 where
  pub companies : Objects W Text
  pub staff : Objects W StaffMemberSpec
  pub maintainers : Objects W MaintainerSpec
  pub projects : Objects W ProjectSpec
  pub memberships : Objects W ProjectMembershipSpec

pub record Register : Type 0 where
  pub companies : Result (List Company)
  pub staff : Result (List StaffMember)
  pub maintainers : Result (List Maintainer)
  pub projects : Result (List Project)
  pub membership_projects : Result (List Project)

abbrev under : Text → Option Text → Option Text
under kind none = none
under kind (some e) = some (kind ++ e)

module _ {W : Type 0} where
  -- A stage: its query, then its loop; an error is wrapped with the kind.
  abbrev stage : {A : Type 0} → Text → Result A → (A → W → Option Text × W) → W → Option Text × W
  stage kind (err e) sync w = (some (kind ++ e.message), w)
  stage kind (ok rows) sync w = let (e, w') = sync rows w in (under kind e, w')

  abbrev after : Option Text × W → (W → Option Text × W) → Option Text × W
  after (some e, w) next = (some e, w)
  after (none, w) next = next w

  -- The first error ends the run.
  unfoldable pub sync_all : Cluster W → Register → W → Option Text × W
  unfolding sync_companies sync_staff sync_maintainers sync_projects sync_memberships
  sync_all c rows w =
      after (stage (text "companies: ") rows.companies (sync_companies c.companies) w) (λ w1.
        after (stage (text "staffmembers: ") rows.staff (sync_staff c.staff) w1) (λ w2.
          after (stage (text "maintainers: ") rows.maintainers (sync_maintainers c.maintainers) w2)
            (λ w3.
              after (stage (text "projects: ") rows.projects (sync_projects c.projects) w3) (λ w4.
                stage (text "projectmemberships: ") rows.membership_projects
                  (sync_memberships c.memberships) w4))))
