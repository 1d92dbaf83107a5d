-- ===== src/Web/Project.antt =====
-- The PATCH requests of handleProject of cmd/web-bff/main.go: handleProjectMaintainerRefUpdate and
-- handleProjectMaturityUpdate. Each decodes its own body, so that a request carries the text of the
-- field that the handler reads.
use maintainer_d.Base.{
  ℕ, Text, text, ◌==◌, trim_space, trim_suffix, has_prefix, has_suffix, Bool, ◌&&◌, not, Option,
  none, some, [], ◌∷◌, ◌++◌, if◌then◌else◌,
}
use maintainer_d.Base.Dict.{Dict}
use maintainer_d.Model.{Project}
use maintainer_d.Auth.Stores.{Session}
use maintainer_d.Store.{
  DbError, project_not_found, Answer, found, failed, Gorm, AuditLog, Change, changed,
}
use maintainer_d.Store.Companies.{
  get_project_by_id, update_project_legacy_maintainer_ref, update_project_maturity,
}
use maintainer_d.Web.{
  Reply, refused, ok, bad_request, not_found, server_error, role_text, for_staff,
}
use maintainer_d.Web.Params.{parse_id_param, parse_maturity}
use maintainer_d.Web.Actor.{Actor, staff_actor, log_event}

abbrev one_change : Text → Text → Text → Dict Change
one_change field from to = (field, record { from = some from; to = to }) ∷ []

-- The event of either handler; `what` begins the message.
unfoldable pub project_event : ℕ → Session → Actor → Text → Text → Dict Change → AuditLog
unfolding role_text
project_event id session actor action what changes = record {
  project_id = some id;
  maintainer_id = none;
  staff_id = actor.staff_id;
  action = action;
  message = what ++ text " updated by " ++ actor.name;
  metadata = changed session.login (role_text session.role) changes;
}

unfoldable pub ref_event : ℕ → Session → Actor → Project → Text → AuditLog
unfolding project_event trim_space
ref_event id session actor before ref =
    project_event id session actor (text "PROJECT_MAINTAINER_REF_UPDATE")
      (text "Project maintainer ref")
      (one_change (text "maintainerRef") (trim_space before.legacy_maintainer_ref) ref)

unfoldable pub maturity_event : ℕ → Session → Actor → Project → Text → AuditLog
unfolding project_event
maturity_event id session actor before next =
    project_event id session actor (text "PROJECT_MATURITY_UPDATE") (text "Project maturity")
      (one_change (text "maturity") before.maturity next)

unfoldable pub project_refused : DbError → Reply Unit
project_refused project_not_found = refused not_found (text "project not found")
project_refused e = refused server_error (text "failed to update project")

unfoldable pub is_bad_ref : Text → Bool
unfolding has_prefix ◌==◌
is_bad_ref ref =
    not (ref == [])
    && not (has_prefix ref (text "http://"))
    && not (has_prefix ref (text "https://"))

module _ {W : Type 0} (db : Gorm W) where
  module _ (id : ℕ) (session : Session) where
    unfoldable pub after_ref_update : Project → Text → Option DbError × W → Reply Unit × W
    unfolding project_refused ref_event staff_actor log_event
    after_ref_update before ref (some e, w) = (project_refused e, w)
    after_ref_update before ref (none, w) =
        (ok tt, log_event db (ref_event id session (staff_actor db session.login w) before ref) w)

    unfoldable pub update_ref : Text → Answer Project → W → Reply Unit × W
    unfolding project_refused after_ref_update update_project_legacy_maintainer_ref
    update_ref ref (failed e) w = (project_refused e, w)
    update_ref ref (found before) w =
        after_ref_update before ref (update_project_legacy_maintainer_ref db id ref w)

    unfoldable pub with_ref : Text → W → Reply Unit × W
    unfolding is_bad_ref update_ref get_project_by_id
    with_ref ref w =
        if is_bad_ref ref
        then (refused bad_request (text "maintainerRef must be a URL"), w)
        else update_ref ref (get_project_by_id db id w) w

    unfoldable pub ref_body : Option Text → W → Reply Unit × W
    unfolding with_ref trim_space
    ref_body none w = (refused bad_request (text "invalid request"), w)
    ref_body (some raw) w = with_ref (trim_space raw) w

    unfoldable pub after_maturity_update : Project → Text → Option DbError × W → Reply Unit × W
    unfolding project_refused maturity_event staff_actor log_event
    after_maturity_update before next (some e, w) = (project_refused e, w)
    after_maturity_update before next (none, w) = (
      ok tt,
      log_event db (maturity_event id session (staff_actor db session.login w) before next) w,
    )

    unfoldable pub update_maturity_of : Text → Answer Project → W → Reply Unit × W
    unfolding project_refused after_maturity_update update_project_maturity
    update_maturity_of next (failed e) w = (project_refused e, w)
    update_maturity_of next (found before) w =
        after_maturity_update before next (update_project_maturity db id next w)

    unfoldable pub with_maturity : Option Text → W → Reply Unit × W
    unfolding update_maturity_of get_project_by_id
    with_maturity none w = (refused bad_request (text "invalid maturity"), w)
    with_maturity (some next) w = update_maturity_of next (get_project_by_id db id w) w

    unfoldable pub maturity_body : Option Text → W → Reply Unit × W
    unfolding with_maturity parse_maturity
    maturity_body none w = (refused bad_request (text "invalid request"), w)
    maturity_body (some raw) w = with_maturity (parse_maturity raw) w

  unfoldable pub ref_by_id : Option ℕ → Option Session → Option Text → W → Reply Unit × W
  unfolding for_staff ref_body
  ref_by_id none session body w = (refused bad_request (text "invalid project id"), w)
  ref_by_id (some id) session body w = for_staff session (λ owner w. ref_body id owner body w) w

  unfoldable pub handle_project_maintainer_ref_update :
      Text → Option Session → Option Text → W → Reply Unit × W
  unfolding ref_by_id parse_id_param
  handle_project_maintainer_ref_update path session body w =
      ref_by_id (parse_id_param path (text "/api/projects/")) session body w

  unfoldable pub maturity_by_id : Option ℕ → Option Session → Option Text → W → Reply Unit × W
  unfolding for_staff maturity_body
  maturity_by_id none session body w = (refused bad_request (text "invalid project id"), w)
  maturity_by_id (some id) session body w =
      for_staff session (λ owner w. maturity_body id owner body w) w

  unfoldable pub handle_project_maturity_update :
      Text → Option Session → Option Text → W → Reply Unit × W
  unfolding maturity_by_id parse_id_param trim_suffix
  handle_project_maturity_update path session body w =
      maturity_by_id (parse_id_param (trim_suffix path (text "/maturity")) (text "/api/projects/"))
        session body w

  -- handleProject for PATCH
  unfoldable pub handle_project_patch : Text → Option Session → Option Text → W → Reply Unit × W
  unfolding handle_project_maturity_update handle_project_maintainer_ref_update has_suffix
  handle_project_patch path session body w =
      if has_suffix path (text "/maturity")
      then handle_project_maturity_update path session body w
      else handle_project_maintainer_ref_update path session body w
