-- ===== src/Web/Run/Patches.antt =====
-- Stable properties of the tables under the PATCH requests of projects in cmd/web-bff/main.go.
use maintainer_d.Base.{ℕ, Text, text, trim_space, has_suffix, Option, none, some, if-Has}
use maintainer_d.Model.{Project}
use maintainer_d.Auth.Stores.{Session}
use maintainer_d.Store.{DbError, Answer, found, failed, Gorm, AuditLog}
use maintainer_d.Store.Companies.{
  get_project_by_id, update_project_legacy_maintainer_ref, update_project_maturity,
}
use maintainer_d.Store.Tables.{Tables}
use maintainer_d.Store.Laws.{Queries, Writes}
use maintainer_d.Web.{Reply, refused, bad_request}
use maintainer_d.Web.Params.{parse_maturity}
use maintainer_d.Web.Actor.{staff_actor, log_event}
use maintainer_d.Web.Project.{
  handle_project_patch, handle_project_maturity_update, handle_project_maintainer_ref_update,
  ref_by_id, maturity_by_id, ref_body, maturity_body, with_ref, with_maturity, update_ref,
  update_maturity_of, after_ref_update, after_maturity_update, ref_event, maturity_event,
  is_bad_ref,
}
use maintainer_d.Web.Run.{IsStable}
use maintainer_d.Web.Run.Keeps.{
  for_staff-Has, log_event-Holds, update_ref-Holds, update_maturity-Holds,
}

module _ {W : Type 0} (db : Gorm W) (rows saved : W → Tables) (writes : Writes db rows saved)
    (queries : Queries db rows saved) (P : Tables → Type 0) (stable : IsStable P) where
  abbrev Saves : W → Type 0
  Saves w = P (rows w)

  logged : (e : AuditLog) (w : W) → Saves w → Saves (log_event db e w)
  logged e w h = log_event-Holds db rows saved writes queries P stable e w h

  module _ (id : ℕ) (session : Session) where
    after_ref_update-Saves :
        (before : Project) (ref : Text) (r : Option DbError × W)
        → Saves r.1
        → Saves (after_ref_update db id session before ref r).1
    unfolding after_ref_update
    after_ref_update-Saves before ref (some e, w) h = h
    after_ref_update-Saves before ref (none, w) h =
        logged (ref_event id session (staff_actor db session.login w) before ref) w h

    update_ref-Saves :
        (ref : Text) (a : Answer Project) (w : W)
        → Saves w
        → Saves (update_ref db id session ref a w).1
    unfolding update_ref
    update_ref-Saves ref (failed e) w h = h
    update_ref-Saves ref (found before) w h =
        after_ref_update-Saves before ref (update_project_legacy_maintainer_ref db id ref w)
          (update_ref-Holds db rows saved writes queries P stable id ref w h)

    ref_body-Saves :
        (body : Option Text) (w : W) → Saves w → Saves (ref_body db id session body w).1
    unfolding ref_body with_ref
    ref_body-Saves none w h = h
    ref_body-Saves (some raw) w h =
        if-Has (λ (r : Reply Unit × W). Saves r.1) (is_bad_ref (trim_space raw))
          (refused bad_request (text "maintainerRef must be a URL"), w)
          (update_ref db id session (trim_space raw) (get_project_by_id db id w) w) h
          (update_ref-Saves (trim_space raw) (get_project_by_id db id w) w h)

    after_maturity_update-Saves :
        (before : Project) (next : Text) (r : Option DbError × W)
        → Saves r.1
        → Saves (after_maturity_update db id session before next r).1
    unfolding after_maturity_update
    after_maturity_update-Saves before next (some e, w) h = h
    after_maturity_update-Saves before next (none, w) h =
        logged (maturity_event id session (staff_actor db session.login w) before next) w h

    update_maturity_of-Saves :
        (next : Text) (a : Answer Project) (w : W)
        → Saves w
        → Saves (update_maturity_of db id session next a w).1
    unfolding update_maturity_of
    update_maturity_of-Saves next (failed e) w h = h
    update_maturity_of-Saves next (found before) w h =
        after_maturity_update-Saves before next (update_project_maturity db id next w)
          (update_maturity-Holds db rows saved writes queries P stable id next w h)

    with_maturity-Saves :
        (next : Option Text) (w : W) → Saves w → Saves (with_maturity db id session next w).1
    unfolding with_maturity
    with_maturity-Saves none w h = h
    with_maturity-Saves (some next) w h =
        update_maturity_of-Saves next (get_project_by_id db id w) w h

    maturity_body-Saves :
        (body : Option Text) (w : W) → Saves w → Saves (maturity_body db id session body w).1
    unfolding maturity_body
    maturity_body-Saves none w h = h
    maturity_body-Saves (some raw) w h = with_maturity-Saves (parse_maturity raw) w h

  ref_by_id-Saves :
      (id : Option ℕ) (session : Option Session) (body : Option Text) (w : W)
      → Saves w
      → Saves (ref_by_id db id session body w).1
  unfolding ref_by_id
  ref_by_id-Saves none session body w h = h
  ref_by_id-Saves (some id) session body w h =
      for_staff-Has Saves session (λ owner w. ref_body db id owner body w) w h
        (λ owner. ref_body-Saves id owner body w h)

  maturity_by_id-Saves :
      (id : Option ℕ) (session : Option Session) (body : Option Text) (w : W)
      → Saves w
      → Saves (maturity_by_id db id session body w).1
  unfolding maturity_by_id
  maturity_by_id-Saves none session body w h = h
  maturity_by_id-Saves (some id) session body w h =
      for_staff-Has Saves session (λ owner w. maturity_body db id owner body w) w h
        (λ owner. maturity_body-Saves id owner body w h)

  pub handle_project_patch-Saves :
      (path : Text) (session : Option Session) (body : Option Text) (w : W)
      → Saves w
      → Saves (handle_project_patch db path session body w).1
  unfolding handle_project_patch handle_project_maturity_update handle_project_maintainer_ref_update
  handle_project_patch-Saves path session body w h =
      if-Has (λ (r : Reply Unit × W). Saves r.1) (has_suffix path (text "/maturity"))
        (handle_project_maturity_update db path session body w)
        (handle_project_maintainer_ref_update db path session body w)
        (maturity_by_id-Saves _ session body w h) (ref_by_id-Saves _ session body w h)
