-- ===== src/Web/Create.antt =====
-- handleProjectCreate of cmd/web-bff/main.go, with ensureProjectNameAvailable. The checks up to the
-- first write are one chain; what GitHub answers for the title is an argument.
use maintainer_d.Base.{
  ℕ, Text, text, ◌==◌, trim_space, equal_fold, Bool, ◌&&◌, not, Option, none, some, [], ◌∷◌, ◌++◌,
}
use maintainer_d.Base.Dict.{Dict}
use maintainer_d.Model.{Project, maturity_is_valid}
use maintainer_d.Onboarding.Label.{get_project_name_from_project_title}
use maintainer_d.Auth.Stores.{Session}
use maintainer_d.Store.{
  record_not_found, project_not_found, Answer, found, failed, Gorm, AuditLog, Change, project_made,
  NewProject,
}
use maintainer_d.Store.Companies.{get_project_by_id}
use maintainer_d.Web.{
  Method, options, Reply, refused, no_content, ok, bad_request, conflict, server_error, bad_gateway,
  CreateRequest, for_staff, Checked, refuse, pass, ◌>>=◌, ◌>>◌, refuse_if,
}
use maintainer_d.Web.Urls.{ParseUrl, parse_git_hub_issue_url, parse_git_hub_org_from_url}
use maintainer_d.Web.Actor.{Actor, looked_up_actor, log_event}
use maintainer_d.Web.Issues.{IssueCache, invalidate_onboarding_cache}

-- What the handler takes from outside: url.Parse, whether a token or the test mode is set, and the
-- title of an issue, or none if it cannot be fetched.
pub record Outside : Type 0 where
  pub parse_url : ParseUrl
  pub configured : Bool
  pub title_of : Text → Text → ℕ → Option Text

-- projectCreateResponse
pub record Created : Type 0 where
  pub id : ℕ
  pub name : Text
  pub maturity : Text
  pub git_hub_org : Text

unfoldable pub check_title : Option Text → Checked Text
check_title none = refuse bad_gateway (text "failed to fetch onboarding issue")
check_title (some title) = pass title

unfoldable pub check_name : Option Text → Checked Text
check_name none =
    refuse bad_request (text "title does not contain the substring PROJECT ONBOARDING]")
check_name (some name) = pass name

-- The project's name from the issue's title.
unfoldable pub project_name_for : Outside → CreateRequest → Checked Text
unfolding check_title check_name get_project_name_from_project_title parse_git_hub_issue_url
    trim_space ◌==◌
project_name_for outside req = do
  let issue = trim_space req.onboarding_issue
  refuse_if (issue == []) bad_request (text "onboardingIssue is required")
  let (owner, repo, number) = (← parse_git_hub_issue_url outside.parse_url issue)
  refuse_if (not (owner == text "cncf" && repo == text "sandbox")) bad_request
      (text "onboardingIssue must be from github.com/cncf/sandbox")
  refuse_if (not outside.configured) server_error (text "github api token not configured")
  let title = (← check_title (outside.title_of owner repo number))
  let name = (← check_name (get_project_name_from_project_title title))
  refuse_if (not (req.project_name == []) && not (trim_space req.project_name == name)) bad_request
      (text "projectName must match onboarding issue title")
  pass name

-- The organization of a URL that is given; `inferred` if none is.
unfoldable pub org_or : ParseUrl → Text → Text → Checked Text
unfolding parse_git_hub_org_from_url
org_or parse inferred [] = pass inferred
org_or parse inferred (c ∷ s) = parse_git_hub_org_from_url parse (c ∷ s)

unfoldable pub org_for : ParseUrl → CreateRequest → Checked Text
unfolding org_or trim_space equal_fold ◌==◌
org_for parse req = do
  let org = trim_space req.git_hub_org
  let legacy = trim_space req.legacy_maintainer_ref
  let dot_project = trim_space req.dot_project_yaml_ref
  refuse_if (legacy == [] && dot_project == []) bad_request
      (text "legacyMaintainerRef or dotProjectYamlRef is required")
  let first = (← org_or parse [] legacy)
  let inferred = (← org_or parse first dot_project)
  refuse_if (not (dot_project == []) && not (first == []) && not (equal_fold first inferred))
      bad_request
      (text "legacyMaintainerRef and dotProjectYamlRef must reference the same GitHub org")
  refuse_if (not (org == []) && not (equal_fold org inferred)) bad_request
      (text "githubOrg must match the GitHub org in the maintainer file URLs")
  refuse_if (inferred == []) bad_request
      (text "failed to infer github org from maintainer file URLs")
  pass inferred

unfoldable pub check_parent : Answer Project → Checked (Unit {0})
check_parent (found p) = pass tt
check_parent (failed project_not_found) = refuse bad_request (text "parent project not found")
check_parent (failed e) = refuse server_error (text "failed to validate parent project")

-- An empty maturity is Sandbox.
unfoldable pub maturity_for : Text → Checked Text
unfolding maturity_is_valid trim_space
maturity_for [] = pass (text "Sandbox")
maturity_for (c ∷ s) = do
  refuse_if (not (maturity_is_valid (trim_space (c ∷ s)))) bad_request (text "invalid maturity")
  pass (trim_space (c ∷ s))

-- ensureProjectNameAvailable, with the handler's answers to its errors
unfoldable pub check_available : Answer Project → Checked (Unit {0})
check_available (found p) = refuse conflict (text "project already exists")
check_available (failed record_not_found) = pass tt
check_available (failed e) = refuse server_error (text "failed to validate project")

unfoldable pub creation_changes : NewProject → Dict Change
creation_changes p =
    (text "projectName", record { from = none; to = p.name })
    ∷ (text "githubOrg", record { from = none; to = p.git_hub_org })
    ∷ (text "maturity", record { from = none; to = p.maturity })
    ∷ (text "onboardingIssue", record { from = none; to = p.onboarding_issue })
    ∷ []

unfoldable pub creation_event : Actor → NewProject → ℕ → AuditLog
unfolding creation_changes
creation_event actor p id = record {
  project_id = some id;
  maintainer_id = none;
  staff_id = actor.staff_id;
  action = text "PROJECT_CREATE";
  message = text "Project created by " ++ actor.name;
  metadata = project_made (creation_changes p);
}

module _ {W : Type 0} (db : Gorm W) (outside : Outside) where
  unfoldable pub parent_for : Option ℕ → W → Checked (Unit {0})
  unfolding check_parent get_project_by_id
  parent_for none w = pass tt
  parent_for (some id) w = check_parent (get_project_by_id db id w)

  unfoldable pub draft : CreateRequest → W → Checked NewProject
  unfolding project_name_for org_for parent_for maturity_for check_available trim_space
  draft req w = do
    let name = (← project_name_for outside req)
    let org = (← org_for outside.parse_url req)
    parent_for req.parent_project_id w
    let maturity = (← maturity_for req.maturity)
    check_available (db.first_project_by_name name w)
    pass record {
      name = name;
      maturity = maturity;
      git_hub_org = org;
      parent_project_id = req.parent_project_id;
      legacy_maintainer_ref = trim_space req.legacy_maintainer_ref;
      dot_project_yaml_ref = trim_space req.dot_project_yaml_ref;
      onboarding_issue = trim_space req.onboarding_issue;
    }

  unfoldable pub after_insert_project :
      Session → NewProject → Answer ℕ × W → IssueCache → Reply Created × (W × IssueCache)
  unfolding creation_event looked_up_actor log_event invalidate_onboarding_cache
  after_insert_project session p (failed e, w) cache =
      (refused server_error (text "failed to create project"), (w, cache))
  after_insert_project session p (found id, w) cache = (
    ok record { id = id; name = p.name; maturity = p.maturity; git_hub_org = p.git_hub_org },
    (
      log_event db (creation_event (looked_up_actor db session.login w) p id) w,
      invalidate_onboarding_cache cache,
    ),
  )

  unfoldable pub insert_draft :
      Session → Checked NewProject → W × IssueCache → Reply Created × (W × IssueCache)
  unfolding after_insert_project
  insert_draft session (refuse status message) (w, cache) = (refused status message, (w, cache))
  insert_draft session (pass p) (w, cache) =
      after_insert_project session p (db.insert_project p w) cache

  unfoldable pub create_requested :
      Session → Option CreateRequest → W × IssueCache → Reply Created × (W × IssueCache)
  unfolding insert_draft draft
  create_requested session none state = (refused bad_request (text "invalid request"), state)
  create_requested session (some req) state = insert_draft session (draft req state.0) state

  unfoldable pub handle_project_create :
      Method
      → Option Session
      → Option CreateRequest
      → W × IssueCache
      → Reply Created × (W × IssueCache)
  unfolding for_staff create_requested
  handle_project_create options session body state = (no_content, state)
  handle_project_create _ session body state =
      for_staff session (λ owner state. create_requested owner body state) state
