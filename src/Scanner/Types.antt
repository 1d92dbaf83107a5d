-- ===== src/Scanner/Types.antt =====
-- code-scanners/api/v1alpha1/codescannerfossa_types.go and constants.go of the controller. A message
-- that the controller formats is kept as data: the constructor is the format, its arguments the
-- values.
use maintainer_d.Base.{ℕ, Text, Bool, true, false, Option}

pub data InvitationStatus : Type 0 where
  pending accepted added_to_team already_member failed expired : InvitationStatus

pub data Message : Type 0 where
  already_in_organization invitation_pending_48h invitation_pending invitation_sent : Message
  user_is_team_member user_added_to_team : Message
  check_failed send_failed add_failed : Text → Message

pub record FossaUserInvitation : Type 0 where
  pub email : Text
  pub status : InvitationStatus
  pub message : Message
  pub invited_at : Option ℕ
  pub accepted_at : Option ℕ
  pub added_to_team_at : Option ℕ

-- `==` on the status.
abbrev pub is_accepted : InvitationStatus → Bool
is_accepted accepted = true
is_accepted _ = false

abbrev pub is_already_member : InvitationStatus → Bool
is_already_member already_member = true
is_already_member _ = false

abbrev pub is_added_to_team : InvitationStatus → Bool
is_added_to_team added_to_team = true
is_added_to_team _ = false

abbrev pub is_pending : InvitationStatus → Bool
is_pending pending = true
is_pending _ = false
