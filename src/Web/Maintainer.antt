-- ===== src/Web/Maintainer.antt =====
-- handleMaintainer and handleMaintainerStatusUpdate of cmd/web-bff/main.go. A session's role is
-- staff or maintainer, so that the branches for other roles have no case here.
use maintainer_d.Base.{
  ℕ, Text, text, trim_space, eqb, Bool, true, false, not, Option, none, some, List, [], ◌∷◌,
  if◌then◌else◌,
}
use maintainer_d.Base.Dict.{Dict}
use maintainer_d.Model.{Maintainer, StaffMember, email_missing, github_missing, status_is_valid}
use maintainer_d.Auth.Directory.{Role}
use maintainer_d.Auth.Stores.{Session}
use maintainer_d.Store.{
  DbError, record_not_found, Answer, found, failed, Gorm, AuditLog, Change, changed,
}
use maintainer_d.Store.Maintainers.{update_maintainer_details, update_maintainers_status}
use maintainer_d.Web.{
  Method, get, post, patch, put, options, Reply, refused, no_content, ok, bad_request, unauthorized,
  forbidden, not_found, method_not_allowed, server_error, role_text, UpdateRequest, StatusRequest,
  MaintainerDetail, for_staff,
}
use maintainer_d.Web.Params.{parse_id_param, normalize_value}
use maintainer_d.Web.Actor.{Actor, staff_actor, get_maintainer_by_login, log_event}
use maintainer_d.Web.Changes.{update_changes, update_message}

unfoldable pub detail_of : Maintainer → Text → MaintainerDetail
unfolding normalize_value
detail_of m updated_by = record {
  id = m.id;
  name = m.name;
  email = normalize_value m.email email_missing;
  git_hub = normalize_value m.git_hub_account github_missing;
  git_hub_email = normalize_value m.git_hub_email github_missing;
  status = m.maintainer_status;
  company_id = m.company_id;
  company = m.company;
  updated_by = updated_by;
}

-- Staff, and the maintainer whose row it is, see the emails.
unfoldable pub hide_emails : Bool → MaintainerDetail → MaintainerDetail
hide_emails may_see detail =
    if may_see then detail else record detail { email = []; git_hub_email = [] }

-- What the handler keeps of the request when maintainers edit their own row.
unfoldable pub effective : Role → Maintainer → UpdateRequest → UpdateRequest
unfolding trim_space
effective Role.staff before req = record req { status = trim_space req.status }
effective Role.maintainer before req = record req {
  name = before.name;
  git_hub = before.git_hub_account;
  status = before.maintainer_status;
}

unfoldable pub update_event : ℕ → Session → Actor → Maintainer → Maintainer → Dict Change → AuditLog
unfolding role_text update_message
update_event id session actor before after changes = record {
  project_id = none;
  maintainer_id = some id;
  staff_id = actor.staff_id;
  action = text "MAINTAINER_UPDATE";
  message = update_message changes actor.name;
  metadata = changed session.login (role_text session.role) changes;
}

-- The owner of the session, who may be a maintainer: staff need no row.
abbrev pub Requester : Type 0
Requester = Option Maintainer

unfoldable pub is_self : ℕ → Requester → Bool
is_self id none = false
is_self id (some m) = eqb m.id id

unfoldable pub may_see : Role → ℕ → Requester → Bool
unfolding is_self
may_see Role.staff id requester = true
may_see Role.maintainer id requester = is_self id requester

abbrev name_of_staff : Answer StaffMember → Text
name_of_staff (found s) = s.name
name_of_staff (failed e) = []

unfoldable pub update_status_code : DbError → Reply MaintainerDetail
update_status_code record_not_found = refused not_found (text "maintainer not found")
update_status_code e = refused server_error (text "failed to update maintainer")

module _ {W : Type 0} (db : Gorm W) where
  -- The staff name of the latest update of the row.
  unfoldable pub updater_of : Option ℕ → W → Text
  updater_of none w = []
  updater_of (some id) w = name_of_staff (db.first_staff id w)

  unfoldable pub updated_by : Answer AuditLog → W → Text
  unfolding updater_of
  updated_by (failed e) w = []
  updated_by (found event) w = updater_of event.staff_id w

  module _ (id : ℕ) (session : Session) where
    unfoldable pub after_get : Requester → Answer Maintainer → W → Reply MaintainerDetail
    unfolding updated_by detail_of hide_emails may_see
    after_get requester (failed e) w = refused not_found (text "maintainer not found")
    after_get requester (found m) w = ok (
        hide_emails (may_see session.role id requester)
          (detail_of m (updated_by (db.first_update_event id w) w)))

    -- After `UpdateMaintainerDetails`, in the state that it left.
    unfoldable pub after_update : Maintainer → Answer Maintainer × W → Reply MaintainerDetail × W
    unfolding update_status_code update_event update_changes staff_actor log_event detail_of
    after_update before (failed e, w) = (update_status_code e, w)
    after_update before (found after, w) =
        let actor = staff_actor db session.login w in
        (
          ok (detail_of after actor.name),
          log_event db
              (update_event id session actor before after (update_changes db before after w)) w,
        )

    unfoldable pub apply_update : Maintainer → UpdateRequest → W → Reply MaintainerDetail × W
    unfolding after_update update_maintainer_details status_is_valid
    apply_update before req w =
        if not (status_is_valid req.status)
        then (refused bad_request (text "invalid status"), w)
        else after_update before (
            update_maintainer_details db id req.name req.email req.git_hub req.status req.company_id
              w)

    unfoldable pub after_before : UpdateRequest → Answer Maintainer → W → Reply MaintainerDetail × W
    unfolding apply_update effective update_status_code
    after_before req (failed e) w = (update_status_code e, w)
    after_before req (found before) w = apply_update before (effective session.role before req) w

    unfoldable pub with_body : Option UpdateRequest → W → Reply MaintainerDetail × W
    unfolding after_before
    with_body none w = (refused bad_request (text "invalid request"), w)
    with_body (some req) w = after_before req (db.first_maintainer id w) w

    -- The second look-up of the requester, before an update.
    unfoldable pub after_owner :
        Answer Maintainer → Option UpdateRequest → W → Reply MaintainerDetail × W
    unfolding with_body
    after_owner (failed e) body w = (refused forbidden (text "forbidden"), w)
    after_owner (found m) body w =
        if not (eqb m.id id) then (refused forbidden (text "forbidden"), w) else with_body body w

    unfoldable pub update_by : Role → Option UpdateRequest → W → Reply MaintainerDetail × W
    unfolding after_owner with_body get_maintainer_by_login
    update_by Role.staff body w = with_body body w
    update_by Role.maintainer body w =
        after_owner (get_maintainer_by_login db session.login w) body w

    unfoldable pub by_method :
        Method → Requester → Option UpdateRequest → W → Reply MaintainerDetail × W
    unfolding after_get update_by
    by_method get requester body w = (after_get requester (db.first_maintainer id w) w, w)
    by_method patch requester body w = update_by session.role body w
    by_method put requester body w = update_by session.role body w
    by_method _ requester body w = (refused method_not_allowed (text "method not allowed"), w)

    unfoldable pub after_requester :
        Method → Answer Maintainer → Option UpdateRequest → W → Reply MaintainerDetail × W
    unfolding by_method
    after_requester method (failed e) body w = (refused forbidden (text "forbidden"), w)
    after_requester method (found m) body w = by_method method (some m) body w

    unfoldable pub with_role : Role → Method → Option UpdateRequest → W → Reply MaintainerDetail × W
    unfolding after_requester by_method get_maintainer_by_login
    with_role Role.staff method body w = by_method method none body w
    with_role Role.maintainer method body w =
        after_requester method (get_maintainer_by_login db session.login w) body w

  unfoldable pub with_session :
      ℕ → Option Session → Method → Option UpdateRequest → W → Reply MaintainerDetail × W
  unfolding with_role
  with_session id none method body w = (refused unauthorized (text "unauthorized"), w)
  with_session id (some session) method body w = with_role id session session.role method body w

  unfoldable pub with_id :
      Option ℕ → Option Session → Method → Option UpdateRequest → W → Reply MaintainerDetail × W
  unfolding with_session
  with_id none session method body w = (refused bad_request (text "invalid maintainer id"), w)
  with_id (some id) session method body w = with_session id session method body w

  unfoldable pub handle_maintainer :
      Method → Text → Option Session → Option UpdateRequest → W → Reply MaintainerDetail × W
  unfolding with_id parse_id_param
  handle_maintainer options path session body w = (no_content, w)
  handle_maintainer method path session body w =
      with_id (parse_id_param path (text "/api/maintainers/")) session method body w

  unfoldable pub status_reply : Option DbError × W → Reply Unit × W
  status_reply (some e, w) = (refused server_error (text "failed to update maintainers"), w)
  status_reply (none, w) = (ok tt, w)

  unfoldable pub with_ids : List ℕ → Text → W → Reply Unit × W
  unfolding status_reply update_maintainers_status status_is_valid
  with_ids [] status w = (refused bad_request (text "no maintainer ids provided"), w)
  with_ids (id ∷ ids) status w =
      if not (status_is_valid status)
      then (refused bad_request (text "invalid status"), w)
      else status_reply (update_maintainers_status db (id ∷ ids) status w)

  unfoldable pub update_statuses : Option StatusRequest → W → Reply Unit × W
  unfolding with_ids trim_space
  update_statuses none w = (refused bad_request (text "invalid request"), w)
  update_statuses (some req) w = with_ids req.ids (trim_space req.status) w

  unfoldable pub handle_maintainer_status_update :
      Method → Option Session → Option StatusRequest → W → Reply Unit × W
  unfolding for_staff update_statuses
  handle_maintainer_status_update options session body w = (no_content, w)
  handle_maintainer_status_update post session body w =
      for_staff session (λ owner w. update_statuses body w) w
  handle_maintainer_status_update _ session body w =
      (refused method_not_allowed (text "method not allowed"), w)
