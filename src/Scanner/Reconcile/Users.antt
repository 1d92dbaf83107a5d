-- ===== src/Scanner/Reconcile/Users.antt =====
-- What step 8 of `Reconcile` leaves in the status, and the steps before it.
use maintainer_d.Base.{
  arith, ℕ, Text, text, ◌==◌, ◌≡◌, ◌≢◌, refl, sym, ap, ◌∙◌, Bool, none, List, [], ◌∷◌,
}
use maintainer_d.Fossa.{FossaClient, Result, ok, err, Team, User}
use maintainer_d.Scanner.Types.{FossaUserInvitation}
use maintainer_d.Scanner.Conditions.{
  Status, Note, condition_true, no_users_requested, invitations_verdict, invitations_requeue,
}
use maintainer_d.Scanner.Conditions.Update.{IsDistinct}
use maintainer_d.Scanner.Invite.{ensure_user_invitations}
use maintainer_d.Scanner.Invite.Entries.{waiting, Reports, ensure_user_invitations-Reports}
use maintainer_d.Scanner.Membership.Keeps.{joined-Same}
use maintainer_d.Scanner.Kube.{CodeScannerFossa, CodeScannerFossaStatus, Kube}
use maintainer_d.Scanner.Resource.{
  team_ready_type, config_map_ready_type, invitations_type, with_condition, with_team_reference,
  with_team, with_config_map, with_invitations, with_verdict, without_users,
}
use maintainer_d.Scanner.Stages.{invited_users, joined, process_emails}
use maintainer_d.Scanner.Reconcile.Shows.{
  Shows, with_condition-IsDistinct, with_condition-Shows, with_condition-keeps,
}

-- What the status says of the team and of the config map.
abbrev pub IsPrepared : CodeScannerFossaStatus → Type 0
IsPrepared s =
    IsDistinct s.conditions
    × (s.fossa_team ≢ none)
    × Shows team_ready_type condition_true (text "TeamCreated") s.conditions
    × Shows config_map_ready_type condition_true (text "ConfigMapCreated") s.conditions

-- What it says of the invitations, and when the next run is due.
abbrev pub UsersReady : List Text → CodeScannerFossaStatus → ℕ → Type 0
UsersReady [] s requeue =
    (s.user_invitations ≡ [])
    × Shows invitations_type condition_true (text "NoInvitationsRequested") s.conditions
    × (requeue ≡ 0)
UsersReady (_ ∷ _) s requeue =
    Shows invitations_type (invitations_verdict s.user_invitations).status
      (invitations_verdict s.user_invitations).reason s.conditions
    × (requeue ≡ invitations_requeue (waiting s.user_invitations) s.user_invitations)

-- `UsersReady` also of a status with another reference to the config map.
pub UsersReady-with_ref :
    (emails : List Text) (s : CodeScannerFossaStatus) (requeue : ℕ) (ref : Text)
    → UsersReady emails s requeue
    → UsersReady emails (record s { config_map_ref = ref }) requeue
UsersReady-with_ref [] s requeue ref h = h
UsersReady-with_ref (_ ∷ _) s requeue ref h = h

abbrev pub IsReady : List Text → CodeScannerFossaStatus → ℕ → Type 0
IsReady emails s requeue = IsPrepared s × UsersReady emails s requeue

-- What a status has once the team is in it.
abbrev pub HasTeam : CodeScannerFossaStatus → Type 0
HasTeam s =
    IsDistinct s.conditions
    × (s.fossa_team ≢ none)
    × Shows team_ready_type condition_true (text "TeamCreated") s.conditions

pub with_team-HasTeam :
    (org_id : Text) (team : Team) (now : ℕ) (cr : CodeScannerFossa)
    → IsDistinct cr.status.conditions
    → HasTeam (with_team org_id team now cr).status
unfolding with_team with_team_reference with_condition
with_team-HasTeam org_id team now cr h =
    let cr' = with_team_reference org_id team cr in
    (
      with_condition-IsDistinct _ _ _ _ _ cr' h,
      λ e. ground (arith, e),
      with_condition-Shows _ _ _ _ _ cr' h,
    )

pub with_config_map-IsPrepared :
    (now : ℕ) (cr : CodeScannerFossa)
    → HasTeam cr.status
    → IsPrepared (with_config_map now cr).status
unfolding with_config_map with_condition ◌==◌
with_config_map-IsPrepared now cr (h, team, shows) = (
  with_condition-IsDistinct _ _ _ _ _ cr h,
  team,
  with_condition-keeps _ _ _ _ _ cr _ refl h shows,
  with_condition-Shows _ _ _ _ _ cr h,
)

-- A stage that sets the condition on the invitations.
with_users-IsPrepared :
    (status : Status) (reason : Text) (message : Note) (now : ℕ) (cr : CodeScannerFossa)
    → IsPrepared cr.status
    → IsPrepared (with_condition invitations_type status reason message now cr).status
      × Shows invitations_type status reason
          (with_condition invitations_type status reason message now cr).status.conditions
unfolding with_condition ◌==◌
with_users-IsPrepared status reason message now cr (h, team, team_shows, config_shows) = (
  (
    with_condition-IsDistinct _ _ _ _ _ cr h,
    team,
    with_condition-keeps _ _ _ _ _ cr _ refl h team_shows,
    with_condition-keeps _ _ _ _ _ cr _ refl h config_shows,
  ),
  with_condition-Shows _ _ _ _ _ cr h,
)

-- The flag of an answer tells whether something waits.
abbrev IsFlagged : Result (List FossaUserInvitation × Bool) → Type 0
IsFlagged (ok (invs, waits)) = waits ≡ waiting invs
IsFlagged (err e) = Unit

Reports-IsFlagged :
    (users : Result (List User)) (emails : List Text)
    (answer : Result (List FossaUserInvitation × Bool))
    → Reports users emails answer
    → IsFlagged answer
Reports-IsFlagged (ok users) emails (ok r) h = h.2
Reports-IsFlagged (ok users) emails (err e) h = tt
Reports-IsFlagged (err e) emails (ok r) h = absurd h
Reports-IsFlagged (err e) emails (err f) h = tt

module _ {W : Type 0} (kube : Kube W) (clock : W → ℕ) (fossa : FossaClient W) where
  invited_users-IsPrepared :
      (cr : CodeScannerFossa) (answer : Result (List FossaUserInvitation × Bool)) (w : W)
      → IsPrepared cr.status
      → IsFlagged answer
      → IsPrepared (invited_users kube clock fossa cr answer w).0.0.status
        × ((invited_users kube clock fossa cr answer w).0.2
            ≡ waiting (invited_users kube clock fossa cr answer w).0.1)
        × ((invited_users kube clock fossa cr answer w).0.0.annotations ≡ cr.annotations)
  unfolding invited_users with_condition
  invited_users-IsPrepared cr (ok (invs, waits)) w h flag = (h, flag, refl)
  invited_users-IsPrepared cr (err e) w h flag =
      ((with_users-IsPrepared _ _ _ _ cr h).0, refl, refl)

  pub process_emails-IsReady :
      (emails : List Text) (cr : CodeScannerFossa) (team : Team) (w : W)
      → IsPrepared cr.status
      → IsReady emails
          (process_emails kube clock fossa emails cr team w).0.0.status
          (process_emails kube clock fossa emails cr team w).0.1
        × ((process_emails kube clock fossa emails cr team w).0.0.annotations ≡ cr.annotations)
  unfolding process_emails without_users with_verdict with_condition
  process_emails-IsReady [] cr team w h =
      let cr' = with_invitations [] cr in
      let (prepared, shows) = with_users-IsPrepared _ _ no_users_requested (clock w) cr' h in
      ((prepared, (refl, shows, refl)), refl)
  process_emails-IsReady (email ∷ emails) cr team w h =
      let existing = cr.status.user_invitations in
      let (answer, w') = ensure_user_invitations fossa clock (email ∷ emails) existing w in
      let flag =
        Reports-IsFlagged _ _ answer
          (ensure_user_invitations-Reports fossa clock (email ∷ emails) existing w) in
      let ((cr', invitations, has_pending), w'') = invited_users kube clock fossa cr answer w' in
      let (prepared', flag', same) = invited_users-IsPrepared cr answer w' h flag in
      let (invs, w''') = joined kube clock fossa team.id invitations w'' in
      let waits : has_pending ≡ waiting invs =
        flag' ∙ sym (joined-Same fossa clock kube team.id invitations w'').1 in
      let v = invitations_verdict invs in
      let (prepared, shows) =
        with_users-IsPrepared v.status v.reason v.message (clock w''') (with_invitations invs cr')
          prepared' in
      ((prepared, (shows, ap (λ b. invitations_requeue b invs) waits)), same)
