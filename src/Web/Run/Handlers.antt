-- ===== src/Web/Run/Handlers.antt =====
-- Stable properties of the tables under handleMaintainer and its neighbours in cmd/web-bff/main.go.
use maintainer_d.Base.{ℕ, Text, text, eqb, not, Option, none, some, if-Has}
use maintainer_d.Model.{Maintainer, status_is_valid}
use maintainer_d.Auth.Directory.{Role}
use maintainer_d.Auth.Stores.{Session}
use maintainer_d.Store.{Answer, found, failed, Gorm}
use maintainer_d.Store.Maintainers.{update_maintainer_details}
use maintainer_d.Store.Tables.{Tables}
use maintainer_d.Store.Laws.{Queries, Writes}
use maintainer_d.Web.{
  Method, get, post, patch, put, options, other_method, Reply, refused, bad_request, UpdateRequest,
}
use maintainer_d.Web.Actor.{staff_actor, get_maintainer_by_login}
use maintainer_d.Web.Changes.{update_changes}
use maintainer_d.Web.Maintainer.{
  handle_maintainer, with_id, with_session, with_role, after_requester, by_method, update_by,
  after_owner, with_body, after_before, apply_update, after_update, update_event, effective,
  Requester,
}
use maintainer_d.Web.Run.{IsStable}
use maintainer_d.Web.Run.Keeps.{log_event-Holds, update_maintainer_details-Holds}

module _ {W : Type 0} (db : Gorm W) (rows saved : W → Tables) (writes : Writes db rows saved)
    (queries : Queries db rows saved) (P : Tables → Type 0) (stable : IsStable P) where
  abbrev Kept : W → Type 0
  Kept w = P (rows w)

  module _ (id : ℕ) (session : Session) where
    after_update-Kept :
        (before : Maintainer) (r : Answer Maintainer × W)
        → Kept r.1
        → Kept (after_update db id session before r).1
    unfolding after_update
    after_update-Kept before (failed e, w) h = h
    after_update-Kept before (found after, w) h =
        log_event-Holds db rows saved writes queries P stable
          (update_event id session (staff_actor db session.login w) before after
            (update_changes db before after w))
          w h

    apply_update-Kept :
        (before : Maintainer) (req : UpdateRequest) (w : W)
        → Kept w
        → Kept (apply_update db id session before req w).1
    unfolding apply_update
    apply_update-Kept before req w h =
        let updated =
          update_maintainer_details db id req.name req.email req.git_hub req.status req.company_id
            w in
        if-Has (λ (r : Reply _ × W). Kept r.1) (not (status_is_valid req.status))
          (refused bad_request (text "invalid status"), w)
          (after_update db id session before updated) h
          (after_update-Kept before updated (
            update_maintainer_details-Holds db rows saved writes queries P stable id req.name
              req.email req.git_hub req.status req.company_id w h))

    after_before-Kept :
        (req : UpdateRequest) (a : Answer Maintainer) (w : W)
        → Kept w
        → Kept (after_before db id session req a w).1
    unfolding after_before
    after_before-Kept req (failed e) w h = h
    after_before-Kept req (found before) w h =
        apply_update-Kept before (effective session.role before req) w h

    with_body-Kept :
        (body : Option UpdateRequest) (w : W) → Kept w → Kept (with_body db id session body w).1
    unfolding with_body
    with_body-Kept none w h = h
    with_body-Kept (some req) w h = after_before-Kept req (db.first_maintainer id w) w h

    after_owner-Kept :
        (a : Answer Maintainer) (body : Option UpdateRequest) (w : W)
        → Kept w
        → Kept (after_owner db id session a body w).1
    unfolding after_owner
    after_owner-Kept (failed e) body w h = h
    after_owner-Kept (found m) body w h =
        if-Has (λ (r : Reply _ × W). Kept r.1) (not (eqb m.id id))
          (refused 403 (text "forbidden"), w) (with_body db id session body w) h
          (with_body-Kept body w h)

    update_by-Kept :
        (role : Role) (body : Option UpdateRequest) (w : W)
        → Kept w
        → Kept (update_by db id session role body w).1
    unfolding update_by
    update_by-Kept Role.staff body w h = with_body-Kept body w h
    update_by-Kept Role.maintainer body w h =
        after_owner-Kept (get_maintainer_by_login db session.login w) body w h

    by_method-Kept :
        (method : Method) (requester : Requester) (body : Option UpdateRequest) (w : W)
        → Kept w
        → Kept (by_method db id session method requester body w).1
    unfolding by_method
    by_method-Kept get requester body w h = h
    by_method-Kept post requester body w h = h
    by_method-Kept patch requester body w h = update_by-Kept session.role body w h
    by_method-Kept put requester body w h = update_by-Kept session.role body w h
    by_method-Kept options requester body w h = h
    by_method-Kept other_method requester body w h = h

    after_requester-Kept :
        (method : Method) (a : Answer Maintainer) (body : Option UpdateRequest) (w : W)
        → Kept w
        → Kept (after_requester db id session method a body w).1
    unfolding after_requester
    after_requester-Kept method (failed e) body w h = h
    after_requester-Kept method (found m) body w h = by_method-Kept method (some m) body w h

    with_role-Kept :
        (role : Role) (method : Method) (body : Option UpdateRequest) (w : W)
        → Kept w
        → Kept (with_role db id session role method body w).1
    unfolding with_role
    with_role-Kept Role.staff method body w h = by_method-Kept method none body w h
    with_role-Kept Role.maintainer method body w h =
        after_requester-Kept method (get_maintainer_by_login db session.login w) body w h

  with_session-Kept :
      (id : ℕ) (session : Option Session) (method : Method) (body : Option UpdateRequest) (w : W)
      → Kept w
      → Kept (with_session db id session method body w).1
  unfolding with_session
  with_session-Kept id none method body w h = h
  with_session-Kept id (some owner) method body w h =
      with_role-Kept id owner owner.role method body w h

  with_id-Kept :
      (id : Option ℕ) (session : Option Session) (method : Method) (body : Option UpdateRequest)
      (w : W)
      → Kept w
      → Kept (with_id db id session method body w).1
  unfolding with_id
  with_id-Kept none session method body w h = h
  with_id-Kept (some id) session method body w h = with_session-Kept id session method body w h

  pub handle_maintainer-Kept :
      (method : Method) (path : Text) (session : Option Session) (body : Option UpdateRequest)
      (w : W)
      → Kept w
      → Kept (handle_maintainer db method path session body w).1
  unfolding handle_maintainer
  handle_maintainer-Kept options path session body w h = h
  handle_maintainer-Kept get path session body w h = with_id-Kept _ session get body w h
  handle_maintainer-Kept post path session body w h = with_id-Kept _ session post body w h
  handle_maintainer-Kept patch path session body w h = with_id-Kept _ session patch body w h
  handle_maintainer-Kept put path session body w h = with_id-Kept _ session put body w h
  handle_maintainer-Kept other_method path session body w h =
      with_id-Kept _ session other_method body w h
