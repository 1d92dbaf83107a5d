-- ===== src/Scanner/Membership.antt =====
-- `ensureTeamMembership` of code-scanners/internal/controller/codescannerfossa_controller.go.
pub mod Calls
pub mod Keeps
use maintainer_d.Base.{
  ℕ, Text, text, to_lower, ◌==◌, Bool, ◌||◌, not, Option, none, some, List, [], ◌∷◌, any,
  if◌then◌else◌,
}
use maintainer_d.Fossa.{FossaClient, Result, wrap, ok, err, Error, user_already_member}
use maintainer_d.Scanner.Types.{
  FossaUserInvitation, added_to_team, user_is_team_member, user_added_to_team, add_failed,
  is_accepted, is_already_member, is_added_to_team, Message,
}

-- `teamMemberSet[email]`, for a lower-cased email.
unfoldable pub team_member_set_has : List Text → Text → Bool
unfolding to_lower ◌==◌
team_member_set_has team_emails email = any (λ (e : Text). to_lower e == email) team_emails

abbrev pub on_team : FossaUserInvitation → Message → ℕ → FossaUserInvitation
on_team inv message now = record inv {
  status = added_to_team;
  message = message;
  added_to_team_at = some now;
}

-- After `AddUserToTeamByEmail`.
unfoldable pub after_add : FossaUserInvitation → ℕ → Option Error → FossaUserInvitation
after_add inv now none = on_team inv user_added_to_team now
after_add inv now (some e) = elim e.kind [
  | user_already_member ↦ on_team inv user_is_team_member now
  | _ ↦ record inv { message = add_failed e.message }
]

module _ {W : Type 0} (fossa : FossaClient W) (clock : W → ℕ) (team : ℕ) where
  -- One round of the loop over the invitations.
  unfoldable pub join_one : List Text → FossaUserInvitation → W → FossaUserInvitation × W
  unfolding after_add team_member_set_has
  join_one team_emails inv w =
      if not (is_accepted inv.status || is_already_member inv.status)
      then (inv, w)
      else if team_member_set_has team_emails (to_lower inv.email)
      then (
        if is_added_to_team inv.status then inv else on_team inv user_is_team_member (clock w),
        w,
      )
      else let (answer, w') = fossa.add_user_to_team_by_email team inv.email 0 w in
        (after_add inv (clock w') answer, w')

  unfoldable pub join_all : List Text → List FossaUserInvitation → W → List FossaUserInvitation × W
  unfolding join_one
  join_all team_emails [] w = ([], w)
  join_all team_emails (inv ∷ invs) w =
      let (inv', w') = join_one team_emails inv w in
      let (invs', w'') = join_all team_emails invs w' in (inv' ∷ invs', w'')

  -- After `FetchTeamUserEmails`: on an error the invitations stay as they are, and the error comes
  -- beside them.
  unfoldable pub after_members :
      List FossaUserInvitation
      → Result (List Text)
      → W
      → (List FossaUserInvitation × Option Error) × W
  unfolding join_all
  after_members invs (err e) w = ((invs, some (wrap (text "failed to fetch team members: ") e)), w)
  after_members invs (ok team_emails) w =
      let (invs', w') = join_all team_emails invs w in ((invs', none), w')

  unfoldable pub ensure_team_membership :
      List FossaUserInvitation → W → (List FossaUserInvitation × Option Error) × W
  unfolding after_members
  ensure_team_membership invs w =
      let (answer, w') = fossa.fetch_team_user_emails team w in after_members invs answer w'
