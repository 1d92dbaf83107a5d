-- ===== src/Fossa/Trace.antt =====
-- A client that records the calls that check an invitation or change something on FOSSA, the newest
-- last.
use maintainer_d.Base.{ℕ, Text, Bool, Option, List, [], ◌∷◌, ◌++◌}
use maintainer_d.Fossa.{FossaClient, Result, Error}

pub data Call : Type 0 where
  created_team : Text → Call
  checked : Text → Result Bool → Call
  invited : Text → Call
  added : ℕ → Text → Option Error → Call

pub record Traced (W : Type 0) : Type 0 where
  pub world : W
  pub calls : List Call

-- Runs a call on the world inside and records what `more` says of its answer.
abbrev pub record_call : {W A : Type 0} → (A → List Call) → (W → A × W) → Traced W → A × Traced W
record_call more m t =
    let (a, w) = m t.world in (a, record { world = w; calls = t.calls ++ more a })

abbrev pub traced : {W : Type 0} → FossaClient W → FossaClient (Traced W)
traced f = record {
  create_team = λ name. record_call (λ a. created_team name ∷ []) (f.create_team name);
  fetch_team = λ name. record_call (λ a. []) (f.fetch_team name);
  send_user_invitation =
      λ email. record_call (λ a. invited email ∷ []) (f.send_user_invitation email);
  has_pending_invitation =
      λ email. record_call (λ a. checked email a ∷ []) (f.has_pending_invitation email);
  fetch_users = record_call (λ a. []) f.fetch_users;
  add_user_to_team_by_email = λ team email role.
      record_call (λ a. added team email a ∷ []) (f.add_user_to_team_by_email team email role);
  fetch_team_user_emails = λ team. record_call (λ a. []) (f.fetch_team_user_emails team);
}
