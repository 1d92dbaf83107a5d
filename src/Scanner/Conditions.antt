-- ===== src/Scanner/Conditions.antt =====
-- `setCondition` of the scanner's controller, and the condition that a reconciliation derives from
-- the invitations.
pub mod Laws
pub mod Update
use maintainer_d.Base.{
  ℕ, ◌+◌, Text, text, ◌==◌, eqb, ltb, Bool, true, false, ◌&&◌, ◌||◌, not, List, [], ◌∷◌, length,
  if◌then◌else◌,
}
use maintainer_d.Scanner.Types.{
  FossaUserInvitation, InvitationStatus, pending, accepted, added_to_team, already_member, failed,
  expired,
}

pub data Status : Type 0 where
  condition_true condition_false : Status

abbrev pub same_status : Status → Status → Bool
same_status condition_true condition_true = true
same_status condition_false condition_false = true
same_status _ _ = false

-- The messages that the controller formats, as data.
pub data Note : Type 0 where
  error_text : Text → Note
  team_ready reconciled : Text → ℕ → Note
  config_map_created : Text → Note
  config_map_ready no_users_requested : Note
  all_users_added all_invitations_failed : ℕ → Note
  invitation_counts : ℕ → ℕ → ℕ → ℕ → ℕ → Note

pub record Condition : Type 0 where
  pub type : Text
  pub status : Status
  pub observed_generation : ℕ
  pub last_transition_time : ℕ
  pub reason : Text
  pub message : Note

-- The first condition of the type is replaced, if its status or its reason differs; a type that is
-- not there is appended.
unfoldable pub set_condition : Condition → List Condition → List Condition
unfolding ◌==◌
set_condition new [] = new ∷ []
set_condition new (c ∷ cs) =
    let rest = set_condition new cs in
    if c.type == new.type
    then (if not (same_status c.status new.status) || not (c.reason == new.reason)
        then new ∷ cs
        else c ∷ cs)
    else c ∷ rest

-- The six counters of the switch over the statuses.
pub record Counts : Type 0 where
  pub pending : ℕ
  pub accepted : ℕ
  pub added_to_team : ℕ
  pub already_member : ℕ
  pub failed : ℕ
  pub expired : ℕ

abbrev pub no_counts : Counts
no_counts = record {
  pending = 0;
  accepted = 0;
  added_to_team = 0;
  already_member = 0;
  failed = 0;
  expired = 0;
}

abbrev pub count_one : InvitationStatus → Counts → Counts
count_one pending c = record c { pending = c.pending + 1 }
count_one accepted c = record c { accepted = c.accepted + 1 }
count_one added_to_team c = record c { added_to_team = c.added_to_team + 1 }
count_one already_member c = record c { already_member = c.already_member + 1 }
count_one failed c = record c { failed = c.failed + 1 }
count_one expired c = record c { expired = c.expired + 1 }

unfoldable pub count_all : Counts → List FossaUserInvitation → Counts
count_all c [] = c
count_all c (inv ∷ invs) = count_all (count_one inv.status c) invs

pub record Verdict : Type 0 where
  pub status : Status
  pub reason : Text
  pub message : Note

abbrev pub reason_processed : Text
reason_processed = text "TeamMembershipProcessed"

abbrev pub reason_failed : Text
reason_failed = text "InvitationsFailed"

abbrev pub reason_partial : Text
reason_partial = text "InvitationsPartiallyProcessed"

abbrev pub verdict_of : Counts → ℕ → Verdict
verdict_of c invitations =
    let on_team = c.added_to_team + c.already_member in
    if eqb on_team invitations && ltb 0 on_team
    then record {
      status = condition_true;
      reason = reason_processed;
      message = all_users_added on_team;
    }
    else if ltb 0 c.failed && eqb on_team 0 && eqb c.accepted 0 && eqb c.pending 0
    then record {
      status = condition_false;
      reason = reason_failed;
      message = all_invitations_failed c.failed;
    }
    else record {
      status = condition_false;
      reason = reason_partial;
      message = invitation_counts on_team c.accepted c.pending c.failed c.expired;
    }

unfoldable pub invitations_verdict : List FossaUserInvitation → Verdict
invitations_verdict invs = verdict_of (count_all no_counts invs) (length invs)

-- Requeue after an hour, in seconds, while something waits for a user; 0 is no requeue.
unfoldable pub invitations_requeue : Bool → List FossaUserInvitation → ℕ
invitations_requeue has_pending invs =
    if has_pending || ltb 0 (count_all no_counts invs).accepted then 3600 else 0
