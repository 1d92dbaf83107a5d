-- ===== src/Scanner/Invite.antt =====
-- `ensureUserInvitations` of code-scanners/internal/controller/codescannerfossa_controller.go.
pub mod Entries
pub mod Calls
use maintainer_d.Base.{
  ℕ, Text, text, to_lower, ◌==◌, Bool, true, false, ◌||◌, Option, none, some, List, [], ◌∷◌, any,
  if◌then◌else◌,
}
use maintainer_d.Base.Dict.{Dict, get, put}
use maintainer_d.Fossa.{
  FossaClient, Result, wrap, ok, err, User, Error, invite_already_exists, user_already_member,
}
use maintainer_d.Scanner.Types.{
  FossaUserInvitation, pending, accepted, failed, Message, already_in_organization,
  invitation_pending_48h, invitation_pending, invitation_sent, check_failed, send_failed,
}

-- `existingMap`: of invitations with one lower-cased email the last stays.
unfoldable pub existing_map :
    Dict FossaUserInvitation → List FossaUserInvitation → Dict FossaUserInvitation
unfolding put to_lower
existing_map m [] = m
existing_map m (inv ∷ invs) = existing_map (put (to_lower inv.email) inv m) invs

-- `userEmails[email]`, for a lower-cased email.
unfoldable pub user_emails_has : List User → Text → Bool
unfolding to_lower ◌==◌
user_emails_has users email = any (λ (u : User). to_lower u.email == email) users

abbrev pub invited_at_of : Option FossaUserInvitation → Option ℕ
invited_at_of none = none
invited_at_of (some inv) = inv.invited_at

abbrev pub or_now : Option ℕ → ℕ → ℕ
or_now none now = now
or_now (some t) now = t

-- The four kinds of entries that the loop appends.
abbrev pub member_entry : Text → ℕ → Option ℕ → FossaUserInvitation
member_entry email now invited = record {
  email = email;
  status = accepted;
  message = already_in_organization;
  invited_at = invited;
  accepted_at = some now;
  added_to_team_at = none;
}

abbrev pub pending_entry : Text → Message → ℕ → FossaUserInvitation
pending_entry email message at = record {
  email = email;
  status = pending;
  message = message;
  invited_at = some at;
  accepted_at = none;
  added_to_team_at = none;
}

abbrev pub failed_entry : Text → Message → FossaUserInvitation
failed_entry email message = record {
  email = email;
  status = failed;
  message = message;
  invited_at = none;
  accepted_at = none;
  added_to_team_at = none;
}

-- After `SendUserInvitation`; the flag is what the round does to `hasPending`.
unfoldable pub after_send : Text → ℕ → Option Error → FossaUserInvitation × Bool
after_send email now none = (pending_entry email invitation_sent now, true)
after_send email now (some e) = elim e.kind [
  | invite_already_exists ↦ (pending_entry email invitation_pending now, true)
  | user_already_member ↦ (member_entry email now none, false)
  | _ ↦ (failed_entry email (send_failed e.message), false)
]

module _ {W : Type 0} (fossa : FossaClient W) (clock : W → ℕ) where
  -- After `HasPendingInvitation`. An invitation that was pending and is no longer is sent again,
  -- whether or not its time has passed.
  unfoldable pub after_check :
      Option FossaUserInvitation → Text → ℕ → Result Bool → W → (FossaUserInvitation × Bool) × W
  unfolding after_send
  after_check existing email now (err e) w =
      ((failed_entry email (check_failed e.message), false), w)
  after_check existing email now (ok true) w =
      ((pending_entry email invitation_pending_48h (or_now (invited_at_of existing) now), true), w)
  after_check existing email now (ok false) w =
      let (answer, w') = fossa.send_user_invitation email w in (after_send email now answer, w')

  -- One round of the loop over the emails.
  unfoldable pub invite_one :
      Dict FossaUserInvitation → List User → Text → W → (FossaUserInvitation × Bool) × W
  unfolding after_check user_emails_has get
  invite_one existing users email w =
      let now = clock w in
      let old = get (to_lower email) existing in
      if user_emails_has users (to_lower email)
      then ((member_entry email now (invited_at_of old), false), w)
      else let (checked, w') = fossa.has_pending_invitation email w in
        after_check old email now checked w'

  unfoldable pub invite_all :
      Dict FossaUserInvitation → List User → List Text → W → (List FossaUserInvitation × Bool) × W
  unfolding invite_one
  invite_all existing users [] w = (([], false), w)
  invite_all existing users (email ∷ emails) w =
      let ((inv, waits), w') = invite_one existing users email w in
      let ((invs, wait), w'') = invite_all existing users emails w' in
      ((inv ∷ invs, waits || wait), w'')

  -- After `FetchUsers`: on an error there are no invitations at all.
  unfoldable pub after_users :
      List Text
      → List FossaUserInvitation
      → Result (List User)
      → W
      → Result (List FossaUserInvitation × Bool) × W
  unfolding invite_all existing_map
  after_users emails existing (err e) w = (err (wrap (text "failed to fetch FOSSA users: ") e), w)
  after_users emails existing (ok users) w =
      let (r, w') = invite_all (existing_map [] existing) users emails w in (ok r, w')

  unfoldable pub ensure_user_invitations :
      List Text → List FossaUserInvitation → W → Result (List FossaUserInvitation × Bool) × W
  unfolding after_users
  ensure_user_invitations emails existing w =
      let (answer, w') = fossa.fetch_users w in after_users emails existing answer w'
