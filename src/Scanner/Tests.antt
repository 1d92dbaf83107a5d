-- ===== src/Scanner/Tests.antt =====
-- Runs of the scanner's controller against a small FOSSA and a small cluster.
use maintainer_d.Base.{
  ℕ, Text, text, ◌==◌, ◌≡◌, ◌≢◌, ◌↔◌, All, refl, inl, inr, true, false, none, some, arith, eq_iff,
  List, [], ◌∷◌, ◌++◌,
}
use maintainer_d.Fossa.{FossaClient, ok, err, ErrorKind, Error, Team}
use maintainer_d.Base.Dict.{Dict}
use maintainer_d.Fossa.Trace.{Call, Traced, traced}
use maintainer_d.Scanner.Types.{
  FossaUserInvitation, pending, accepted, added_to_team, already_member, failed, invitation_sent,
  send_failed,
}
use maintainer_d.Scanner.Invite.{ensure_user_invitations, member_entry, pending_entry, failed_entry}
use maintainer_d.Scanner.Invite.Entries.{Reports, ensure_user_invitations-Reports}
use maintainer_d.Scanner.Invite.Calls.{Adds, Protocols, ensure_user_invitations-Protocols}
use maintainer_d.Scanner.Membership.{ensure_team_membership}
use maintainer_d.Scanner.Membership.Calls.{JoinsAll, ensure_team_membership-JoinsAll}
use maintainer_d.Scanner.Conditions.{
  Condition, condition_true, set_condition, invitations_verdict, reason_failed, no_users_requested,
}
use maintainer_d.Scanner.Conditions.Laws.{IsOnTeam, None, invitations_verdict_iff}
use maintainer_d.Scanner.Conditions.Update.{
  IsDistinct, updated, find_condition, set_condition-agrees,
}
use maintainer_d.Scanner.Kube.{CodeScannerFossa, found, not_found, Kube}
use maintainer_d.Scanner.Resource.{credentials}
use maintainer_d.Scanner.Reconcile.{reconcile, credentials_namespace_of}
use maintainer_d.Scanner.Reconcile.Log.{Logged, logged}
use maintainer_d.Scanner.Reconcile.Settles.{Ends, Settled, reconcile-Settled}

abbrev alice : Text
alice = text "alice@x.org"

abbrev bob : Text
bob = text "bob@x.org"

abbrev carol : Text
carol = text "carol@x.org"

abbrev team : Team
team = record { id = 5; name = text "foo"; created_at = 1 }

abbrev oops : Error
oops = record { kind = ErrorKind.other; message = text "oops" }

-- Alice is in the organization, bob is invited, and carol cannot be.
abbrev fossa : {W : Type 0} → FossaClient W
fossa = record {
  create_team = λ name w. (ok team, w);
  fetch_team = λ name w. (err oops, w);
  send_user_invitation = λ email w. (elim (email == carol) [ true ↦ some oops | false ↦ none ], w);
  has_pending_invitation = λ email w. (ok false, w);
  fetch_users = λ w. (
    ok (
        record { id = 1; email = text "Alice@x.org"; git_hub_email = none; bitbucket_email = none }
        ∷ []),
    w,
  );
  add_user_to_team_by_email = λ id email role w. (none, w);
  fetch_team_user_emails = λ id w. (ok [], w);
}

abbrev start : Traced ℕ
start = record { world = 0; calls = [] }

abbrev clock : {W : Type 0} → W → ℕ
clock w = 9

abbrev emails : List Text
emails = alice ∷ bob ∷ carol ∷ []

invites_bob :
    (ensure_user_invitations fossa clock emails [] start).0
    ≡ ok (
      member_entry alice 9 none
          ∷ pending_entry bob invitation_sent 9
          ∷ failed_entry carol (send_failed (text "oops"))
          ∷ [],
      true,
    )
unfolding ensure_user_invitations ◌==◌
invites_bob = refl

ensure_user_invitations-Reports_example :
    Reports
      ((fossa {W = ℕ}).fetch_users 0).0
      emails
      (ensure_user_invitations {W = ℕ} fossa clock emails [] 0).0
ensure_user_invitations-Reports_example =
    ensure_user_invitations-Reports {W = ℕ} fossa clock emails [] 0

ensure_user_invitations-Protocols_example :
    Adds fossa clock
      (Protocols
        (record { id = 1; email = text "Alice@x.org"; git_hub_email = none; bitbucket_email = none }
          ∷ [])
        emails)
      start
      (ensure_user_invitations (traced fossa) clock emails [] start)
ensure_user_invitations-Protocols_example =
    ensure_user_invitations-Protocols fossa clock emails [] start _ refl

abbrev invitations : List FossaUserInvitation
invitations = member_entry alice 9 none ∷ pending_entry bob invitation_sent 9 ∷ []

ensure_team_membership-JoinsAll_example :
    (calls : List Call) × JoinsAll 5 [] invitations calls
      (ensure_team_membership (traced fossa) clock 5 invitations start).0.0
    × ((ensure_team_membership (traced fossa) clock 5 invitations start).0.1 ≡ none)
    × ((ensure_team_membership (traced fossa) clock 5 invitations start).1.calls ≡ [] ++ calls)
ensure_team_membership-JoinsAll_example =
    ensure_team_membership-JoinsAll fossa clock 5 invitations start [] refl

invitations_verdict_iff_example :
    (((invitations_verdict invitations).status ≡ condition_true)
      ↔ ((invitations ≢ []) × All IsOnTeam invitations))
    × (((invitations_verdict invitations).reason ≡ reason_failed) ↔ (
        ¬ (None failed invitations)
        × None added_to_team invitations
        × None already_member invitations
        × None accepted invitations
        × None pending invitations))
invitations_verdict_iff_example = invitations_verdict_iff invitations

abbrev condition : Text → Text → ℕ → Condition
condition type reason at = record {
  type = type;
  status = condition_true;
  observed_generation = 1;
  last_transition_time = at;
  reason = reason;
  message = no_users_requested;
}

abbrev conditions : List Condition
conditions = condition (text "A") (text "Ready") 1 ∷ condition (text "B") (text "Ready") 1 ∷ []

differs : text "B" ≢ text "A"
unfolding ◌==◌
differs e = ground (arith, (eq_iff (text "B") (text "A")).1 e)

conditions-IsDistinct : IsDistinct conditions
conditions-IsDistinct = ((differs, tt), (tt, tt))

set_condition-agrees_example :
    IsDistinct (set_condition (condition (text "B") (text "Lost") 7) conditions)
    × (find_condition (text "B") (set_condition (condition (text "B") (text "Lost") 7) conditions)
        ≡ some
            (updated (condition (text "B") (text "Lost") 7) (find_condition (text "B") conditions)))
    × ((t : Text)
        → text "B" ≢ t
        → find_condition t (set_condition (condition (text "B") (text "Lost") 7) conditions)
          ≡ find_condition t conditions)
set_condition-agrees_example =
    set_condition-agrees (condition (text "B") (text "Lost") 7) conditions conditions-IsDistinct

replaces_b :
    set_condition (condition (text "B") (text "Lost") 7) conditions
    ≡ condition (text "A") (text "Ready") 1 ∷ condition (text "B") (text "Lost") 7 ∷ []
unfolding set_condition ◌==◌
replaces_b = refl

-- A resource that is not in the cluster's status yet.
abbrev resource : CodeScannerFossa
resource = record {
  name = text "foo-scanner";
  namespace = text "code";
  generation = 3;
  annotations = [];
  spec = record { project_name = text "foo"; config_map_name = []; fossa_user_emails = emails };
  status = record {
    observed_generation = 0;
    config_map_ref = [];
    fossa_team = none;
    user_invitations = [];
    conditions = [];
  };
}

abbrev secret : Dict Text
secret = (text "fossa-api-token", text "t0ken") ∷ (text "fossa-organization-id", text "42") ∷ []

-- Everything succeeds, and there is no config map yet.
abbrev kube : Kube ℕ
kube = record {
  get_cr = λ w. (found resource, w);
  get_secret = λ namespace name w. (found secret, w);
  get_config_map = λ namespace name w. (not_found, w);
  create_config_map = λ config_map w. (none, w);
  update_config_map = λ config_map w. (none, w);
  set_controller_reference = λ cr config_map. none;
  patch = λ cr w. (inl cr, w);
  update_status = λ cr w. (none, w);
  record_event = λ e w. w;
}

abbrev empty_log : Logged ℕ
empty_log = record { world = 0; statuses = [] }

abbrev factory : Text → FossaClient (Logged ℕ)
factory token = fossa

patches :
    (c : CodeScannerFossa) (w : ℕ) (c' : CodeScannerFossa)
    → (kube.patch c w).0 ≡ inl c'
    → c'.status ≡ c.status
patches c w c' e = ground (arith, e)

reconcile-Settled_example :
    Ends
      (Settled resource (credentials (credentials_namespace_of [] resource) (found secret)))
      (reconcile (logged kube) clock factory [] empty_log)
reconcile-Settled_example =
    reconcile-Settled kube clock factory [] empty_log resource refl tt (inr patches)

-- The first run requeues after an hour: bob's invitation waits.
first_run : (reconcile (logged kube) clock factory [] empty_log).0.requeue_after ≡ 3600
unfolding reconcile set_condition ◌==◌
first_run = refl
