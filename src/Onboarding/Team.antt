-- ===== src/Onboarding/Team.antt =====
-- `filterEligibleMaintainers`, `containsEmail` and
-- `addProjectMaintainersToFossaTeam` of onboarding/server.go.
pub mod Calls
use maintainer_d.Base.{
  ℕ, Text, text, ◌==◌, trim_space, Bool, true, false, ◌||◌, not, Option, none, some, List, [], ◌∷◌,
  ◌++◌, any, if◌then◌else◌,
}
use maintainer_d.Model.{Maintainer, Project, email_missing, github_missing}
use maintainer_d.Fossa.{FossaClient, Result, ok, err, wrap, Error, user_already_member}

-- The lines of the report, as data: the handle stands for the maintainer.
pub data Action : Type 0 where
  no_maintainers : Action
  still_pending already_member add_error : Text → Action
  added_as_admin : Text → Text → Action

-- The methods of the store that are used here; the audit event is the project, the maintainer, the
-- handle and the team's name.
pub record Store (W : Type 0) : Type 0 where
  pub get_maintainers_by_project : ℕ → W → Result (List Maintainer) × W
  pub is_staff_git_hub_account : Text → W → Result Bool × W
  pub log_audit_event : ℕ → ℕ → Text → Text → W → W

-- Neither email nor handle is empty or a placeholder.
unfoldable pub is_eligible : Maintainer → Bool
unfolding trim_space ◌==◌
is_eligible m =
    let email = trim_space m.email in
    let handle = trim_space m.git_hub_account in
    not (email == [] || email == email_missing || handle == [] || handle == github_missing)

-- The eligible and the skipped ones, each in order.
unfoldable pub filter_eligible_maintainers : List Maintainer → List Maintainer × List Maintainer
unfolding is_eligible
filter_eligible_maintainers [] = ([], [])
filter_eligible_maintainers (m ∷ ms) =
    let (eligible, skipped) = filter_eligible_maintainers ms in
    if is_eligible m then (m ∷ eligible, skipped) else (eligible, m ∷ skipped)

unfoldable pub contains_email : List Text → Text → Bool
unfolding ◌==◌
contains_email list target = any (λ (e : Text). e == target) list

-- A look-up that fails is logged, and counts as one that found none pending.
abbrev pub is_pending_answer : Result Bool → Bool
is_pending_answer (ok b) = b
is_pending_answer (err e) = false

module _ {W : Type 0} (fossa : FossaClient W) (store : Store W) (project : Project) (team : ℕ) where
  -- After `AddUserToTeamByEmail` with the role 3, the team's admin.
  unfoldable pub after_admin : List Text → Maintainer → Option Error → W → (Action × List Text) × W
  after_admin existing m (some e) w = (
    (
      elim e.kind [
        | user_already_member ↦ already_member m.git_hub_account
        | _ ↦ add_error m.git_hub_account
      ],
      existing,
    ),
    w,
  )
  after_admin existing m none w = (
    (added_as_admin m.git_hub_account project.name, existing ++ m.email ∷ []),
    store.log_audit_event project.id m.id m.git_hub_account project.name w,
  )

  -- After `HasPendingInvitation`: an error counts as none pending.
  unfoldable pub after_pending : List Text → Maintainer → Result Bool → W → (Action × List Text) × W
  unfolding after_admin contains_email
  after_pending existing m checked w =
      if is_pending_answer checked
      then ((still_pending m.git_hub_account, existing), w)
      else if contains_email existing m.email
      then ((already_member m.git_hub_account, existing), w)
      else (let (answer, w') = fossa.add_user_to_team_by_email team m.email 3 w in
          after_admin existing m answer w')

  unfoldable pub add_one : List Text → Maintainer → W → (Action × List Text) × W
  unfolding after_pending
  add_one existing m w =
      let (checked, w') = fossa.has_pending_invitation m.email w in
      after_pending existing m checked w'

  unfoldable pub add_maintainers : List Text → List Maintainer → W → List Action × W
  unfolding add_one
  add_maintainers existing [] w = ([], w)
  add_maintainers existing (m ∷ ms) w =
      let ((action, existing'), w') = add_one existing m w in
      let (actions, w'') = add_maintainers existing' ms w' in (action ∷ actions, w'')

  -- After `FetchTeamUserEmails`.
  unfoldable pub after_emails :
      List Maintainer → Result (List Text) → W → (List Action × Option Error) × W
  unfolding add_maintainers
  after_emails ms (err e) w = (([], some (wrap (text "FetchTeamUserEmails: ") e)), w)
  after_emails ms (ok existing) w =
      let (actions, w') = add_maintainers existing ms w in ((actions, none), w')

  -- After `GetMaintainersByProject`, with the eligible maintainers.
  unfoldable pub after_eligible : List Maintainer → W → (List Action × Option Error) × W
  unfolding after_emails
  after_eligible [] w = ((no_maintainers ∷ [], none), w)
  after_eligible (m ∷ ms) w =
      let (existing, w') = fossa.fetch_team_user_emails team w in after_emails (m ∷ ms) existing w'

  unfoldable pub after_maintainers : Result (List Maintainer) → W → (List Action × Option Error) × W
  unfolding after_eligible filter_eligible_maintainers
  after_maintainers (err e) w = (([], some (wrap (text "GetMaintainersByProject: ") e)), w)
  after_maintainers (ok ms) w = after_eligible (filter_eligible_maintainers ms).0 w

  unfoldable pub add_project_maintainers_to_fossa_team : W → (List Action × Option Error) × W
  unfolding after_maintainers
  add_project_maintainers_to_fossa_team w =
      let (maintainers, w') = store.get_maintainers_by_project project.id w in
      after_maintainers maintainers w'
