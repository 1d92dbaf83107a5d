-- ===== src/Scanner/Stages.antt =====
-- Steps 5 and 8 of `Reconcile` in code-scanners/internal/controller/codescannerfossa_controller.go.
use maintainer_d.Base.{
  ℕ, Text, text, Bool, false, Option, none, some, List, [], ◌∷◌, ltb, if◌then◌else◌,
}
use maintainer_d.Fossa.{FossaClient, Result, ok, err, wrap, Team, Error}
use maintainer_d.Scanner.Types.{FossaUserInvitation}
use maintainer_d.Scanner.Invite.{ensure_user_invitations}
use maintainer_d.Scanner.Membership.{ensure_team_membership}
use maintainer_d.Scanner.Conditions.{
  condition_false, error_text, invitations_requeue, reason_failed,
}
use maintainer_d.Scanner.Kube.{CodeScannerFossa, Kube, event, warning}
use maintainer_d.Scanner.Resource.{invitations_type, with_condition, with_verdict, without_users}

module _ {W : Type 0} (kube : Kube W) (clock : W → ℕ) (fossa : FossaClient W) where
  -- `ensureFossaTeam`: any error of the look-up leads to a creation.
  unfoldable pub after_fetch_team : Text → Result Team → W → Result Team × W
  after_fetch_team name (ok team) w = (ok team, w)
  after_fetch_team name (err e) w =
      let (created, w') = fossa.create_team name w in
      (
        elim created [
          | ok team ↦ ok team
          | err e' ↦ err (wrap (text "failed to create FOSSA team: ") e')
        ],
        w',
      )

  unfoldable pub ensure_fossa_team : Text → W → Result Team × W
  unfolding after_fetch_team
  ensure_fossa_team name w =
      let (fetched, w') = fossa.fetch_team name w in after_fetch_team name fetched w'

  abbrev tell : Option Error → W → W
  tell none w = w
  tell (some e) w =
      kube.record_event (event warning (text "TeamMembershipFailed") (error_text e.message)) w

  -- Step 8.2: an error of the membership stage is only told as an event.
  unfoldable pub joined : ℕ → List FossaUserInvitation → W → List FossaUserInvitation × W
  unfolding ensure_team_membership
  joined id invitations w =
      if ltb 0 id
      then (let ((invs, error), w') = ensure_team_membership fossa clock id invitations w in
          (invs, tell error w'))
      else (invitations, w)

  -- Step 8.1: on an error there are no invitations, and none is pending.
  unfoldable pub invited_users :
      CodeScannerFossa
      → Result (List FossaUserInvitation × Bool)
      → W
      → (CodeScannerFossa × List FossaUserInvitation × Bool) × W
  unfolding with_condition
  invited_users cr (ok (invitations, has_pending)) w = ((cr, invitations, has_pending), w)
  invited_users cr (err e) w = (
    (
      with_condition invitations_type condition_false reason_failed (error_text e.message) (clock w)
          cr,
      [],
      false,
    ),
    kube.record_event (event warning reason_failed (error_text e.message)) w,
  )

  -- Step 8, by the emails of the specification: the resource, and the time to requeue after.
  unfoldable pub process_emails :
      List Text → CodeScannerFossa → Team → W → (CodeScannerFossa × ℕ) × W
  unfolding invited_users joined with_verdict ensure_user_invitations invitations_requeue
      without_users
  process_emails [] cr team w = ((without_users (clock w) cr, 0), w)
  process_emails (email ∷ emails) cr team w =
      let (answer, w') =
        ensure_user_invitations fossa clock (email ∷ emails) cr.status.user_invitations w in
      let ((cr', invitations, has_pending), w'') = invited_users cr answer w' in
      let (invs, w''') = joined team.id invitations w'' in
      ((with_verdict invs (clock w''') cr', invitations_requeue has_pending invs), w''')

  unfoldable pub process_users : CodeScannerFossa → Team → W → (CodeScannerFossa × ℕ) × W
  unfolding process_emails
  process_users cr team w = process_emails cr.spec.fossa_user_emails cr team w
