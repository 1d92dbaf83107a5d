-- ===== src/Web/FromRef.antt =====
-- handleMaintainerFromRef of cmd/web-bff/main.go.
use maintainer_d.Base.{
  ℕ, Text, text, ◌==◌, to_lower, trim_space, eqb, ◌||◌, Option, none, some, [], ◌∷◌, ◌++◌,
  if◌then◌else◌,
}
use maintainer_d.Base.Dict.{Dict}
use maintainer_d.Model.{Maintainer, email_missing, github_missing}
use maintainer_d.Auth.Stores.{Session}
use maintainer_d.Store.{
  DbError, record_not_found, project_not_found, Answer, found, failed, Gorm, AuditLog, Change,
  changed,
}
use maintainer_d.Store.Upsert.{Incoming, upsert_maintainer}
use maintainer_d.Web.{
  Method, post, Reply, refused, ok, bad_request, not_found, method_not_allowed, server_error,
  role_text, AddRequest, for_staff,
}
use maintainer_d.Web.Params.{normalize_value}
use maintainer_d.Web.Actor.{Actor, looked_up_actor, log_event}
use maintainer_d.Web.Changes.{ref_changes, update_message}

-- addMaintainerResponse
pub record AddResponse : Type 0 where
  pub id : ℕ
  pub name : Text
  pub git_hub : Text
  pub email : Text
  pub company : Text

unfoldable pub add_response : Maintainer → AddResponse
unfolding normalize_value
add_response m = record {
  id = m.id;
  name = m.name;
  git_hub = normalize_value m.git_hub_account github_missing;
  email = normalize_value m.email email_missing;
  company = m.company;
}

unfoldable pub trimmed_request : AddRequest → AddRequest
unfolding trim_space
trimmed_request req = record {
  project_id = req.project_id;
  name = trim_space req.name;
  git_hub_handle = trim_space req.git_hub_handle;
  email = trim_space req.email;
  company = trim_space req.company;
}

unfoldable pub incoming_of : AddRequest → Incoming
incoming_of req = record {
  project_id = req.project_id;
  name = req.name;
  email = req.email;
  github = req.git_hub_handle;
  company = req.company;
}

-- An entry for a text of a new row that is not empty.
unfoldable pub new_text : Text → Text → Dict Change
new_text field [] = []
new_text field (c ∷ s) = (field, record { from = none; to = c ∷ s }) ∷ []

unfoldable pub new_changes : AddRequest → Dict Change
unfolding new_text
new_changes req =
    new_text (text "company") req.company
    ++ new_text (text "email") req.email
    ++ new_text (text "github") req.git_hub_handle
    ++ new_text (text "name") req.name

unfoldable pub action_of : Option Maintainer → Text
action_of none = text "MAINTAINER_CREATE"
action_of (some m) = text "MAINTAINER_UPDATE"

unfoldable pub message_of : Option Maintainer → Dict Change → Text → Text
unfolding update_message
message_of none changes actor = text "Maintainer created by " ++ actor
message_of (some m) changes actor = update_message changes actor

unfoldable pub ref_update_event :
    Session → AddRequest → Actor → Option Maintainer → Maintainer → Dict Change → AuditLog
unfolding role_text action_of message_of
ref_update_event session req actor before m changes = record {
  project_id = some req.project_id;
  maintainer_id = some m.id;
  staff_id = actor.staff_id;
  action = action_of before;
  message = message_of before changes actor.name;
  metadata = changed session.login (role_text session.role) changes;
}

unfoldable pub add_error : DbError → Reply AddResponse
add_error project_not_found = refused not_found (text "project not found")
add_error e = refused server_error (text "failed to create maintainer")

module _ {W : Type 0} (db : Gorm W) (session : Session) (req : AddRequest) where
  unfoldable pub changes_of : Option Maintainer → Maintainer → W → Dict Change
  unfolding new_changes ref_changes
  changes_of none m w = new_changes req
  changes_of (some before) m w = ref_changes db before m req.company w

  -- Nothing is logged if nothing has changed.
  unfoldable pub log_changes : Option Maintainer → Maintainer → Dict Change → W → W
  unfolding ref_update_event looked_up_actor log_event
  log_changes before m [] w = w
  log_changes before m (c ∷ changes) w =
      log_event db
        (ref_update_event session req (looked_up_actor db session.login w) before m (c ∷ changes)) w

  unfoldable pub after_added : Option Maintainer → Answer Maintainer × W → Reply AddResponse × W
  unfolding add_error add_response log_changes changes_of
  after_added before (failed e, w) = (add_error e, w)
  after_added before (found m, w) =
      (ok (add_response m), log_changes before m (changes_of before m w) w)

  unfoldable pub add : Option Maintainer → W → Reply AddResponse × W
  unfolding after_added upsert_maintainer incoming_of
  add before w = after_added before (upsert_maintainer db (incoming_of req) w)

  unfoldable pub load_failed : Reply AddResponse
  load_failed = refused server_error (text "failed to load maintainer")

  unfoldable pub after_before_email : Answer Maintainer → W → Reply AddResponse × W
  unfolding add load_failed
  after_before_email (found m) w = add (some m) w
  after_before_email (failed record_not_found) w = add none w
  after_before_email (failed e) w = (load_failed, w)

  unfoldable pub before_by_email : Text → W → Reply AddResponse × W
  unfolding after_before_email add to_lower
  before_by_email [] w = add none w
  before_by_email (c ∷ s) w =
      after_before_email (db.first_maintainer_by_email (to_lower (c ∷ s)) w) w

  unfoldable pub after_before_account : Answer Maintainer → W → Reply AddResponse × W
  unfolding before_by_email add load_failed
  after_before_account (found m) w = add (some m) w
  after_before_account (failed record_not_found) w = before_by_email req.email w
  after_before_account (failed e) w = (load_failed, w)

  unfoldable pub with_fields : W → Reply AddResponse × W
  unfolding after_before_account to_lower ◌==◌
  with_fields w =
      if eqb req.project_id 0 || req.git_hub_handle == []
      then (refused bad_request (text "missing required fields"), w)
      else after_before_account (db.first_maintainer_by_account (to_lower req.git_hub_handle) w) w

module _ {W : Type 0} (db : Gorm W) where
  unfoldable pub add_requested : Session → Option AddRequest → W → Reply AddResponse × W
  unfolding with_fields trimmed_request
  add_requested session none w = (refused bad_request (text "invalid request"), w)
  add_requested session (some req) w = with_fields db session (trimmed_request req) w

  unfoldable pub handle_maintainer_from_ref :
      Method → Option Session → Option AddRequest → W → Reply AddResponse × W
  unfolding for_staff add_requested
  handle_maintainer_from_ref post session body w =
      for_staff session (λ owner w. add_requested owner body w) w
  handle_maintainer_from_ref _ session body w =
      (refused method_not_allowed (text "method not allowed"), w)
