-- ===== src/Web/Run/Creates.antt =====
-- Stable properties of the tables under the handlers of cmd/web-bff/main.go for new projects and new
-- maintainers.
use maintainer_d.Base.{
  ℕ, Text, text, eqb, ◌||◌, Option, none, some, [], ◌∷◌, if-Has, to_lower, ◌==◌,
}
use maintainer_d.Model.{Maintainer}
use maintainer_d.Auth.Stores.{Session}
use maintainer_d.Store.{
  record_not_found, project_not_found, project_exists, company_exists, invalid, other, Answer,
  found, failed, Gorm, Change,
}
use maintainer_d.Base.Dict.{Dict}
use maintainer_d.Store.Tables.{Tables}
use maintainer_d.Store.Laws.{Queries, Writes}
use maintainer_d.Web.{
  Method, get, post, patch, put, options, other_method, Reply, refused, bad_request, for_staff,
}
use maintainer_d.Store.{NewProject}
use maintainer_d.Store.Upsert.{upsert_maintainer}
use maintainer_d.Web.{AddRequest, CreateRequest, Checked, pass, refuse}
use maintainer_d.Web.Actor.{looked_up_actor}
use maintainer_d.Web.FromRef.{
  AddResponse, handle_maintainer_from_ref, add_requested, with_fields, after_before_account,
  before_by_email, after_before_email, add, after_added, log_changes, changes_of, ref_update_event,
  trimmed_request, incoming_of,
}
use maintainer_d.Web.Create.{
  Outside, handle_project_create, create_requested, insert_draft, draft, after_insert_project,
  creation_event,
}
use maintainer_d.Web.Issues.{IssueCache}
use maintainer_d.Web.Run.{IsStable, UpsertKeeps}
use maintainer_d.Web.Run.Keeps.{for_staff-Has, log_event-Holds, insert_project-Holds}

module _ {W : Type 0} (db : Gorm W) (rows saved : W → Tables) (writes : Writes db rows saved)
    (queries : Queries db rows saved) (P : Tables → Type 0) (stable : IsStable P) where
  abbrev Stays : W → Type 0
  Stays w = P (rows w)

  after_insert_project-Stays :
      (outside : Outside) (session : Session) (p : NewProject) (r : Answer ℕ × W)
      (cache : IssueCache)
      → Stays r.1
      → Stays (after_insert_project db outside session p r cache).1.0
  unfolding after_insert_project
  after_insert_project-Stays outside session p (failed e, w) cache h = h
  after_insert_project-Stays outside session p (found id, w) cache h =
      log_event-Holds db rows saved writes queries P stable
        (creation_event (looked_up_actor db session.login w) p id) w h

  insert_draft-Stays :
      (outside : Outside) (session : Session) (c : Checked NewProject) (s : W × IssueCache)
      → Stays s.0
      → Stays (insert_draft db outside session c s).1.0
  unfolding insert_draft
  insert_draft-Stays outside session (refuse status message) (w, cache) h = h
  insert_draft-Stays outside session (pass p) (w, cache) h =
      after_insert_project-Stays outside session p (db.insert_project p w) cache
        (insert_project-Holds db rows saved writes queries P stable p w h)

  create_requested-Stays :
      (outside : Outside) (session : Session) (body : Option CreateRequest) (s : W × IssueCache)
      → Stays s.0
      → Stays (create_requested db outside session body s).1.0
  unfolding create_requested
  create_requested-Stays outside session none s h = h
  create_requested-Stays outside session (some req) s h =
      insert_draft-Stays outside session (draft db outside req s.0) s h

  create_by_staff-Stays :
      (outside : Outside) (session : Option Session) (body : Option CreateRequest)
      (s : W × IssueCache)
      → Stays s.0
      → Stays (for_staff session (λ owner s. create_requested db outside owner body s) s).1.0
  create_by_staff-Stays outside session body s h =
      for_staff-Has (λ (s : W × IssueCache). Stays s.0) session
        (λ owner s. create_requested db outside owner body s) s h
        (λ owner. create_requested-Stays outside owner body s h)

  pub handle_project_create-Stays :
      (outside : Outside) (method : Method) (session : Option Session) (body : Option CreateRequest)
      (s : W × IssueCache)
      → Stays s.0
      → Stays (handle_project_create db outside method session body s).1.0
  unfolding handle_project_create
  handle_project_create-Stays outside options session body s h = h
  handle_project_create-Stays outside get session body s h =
      create_by_staff-Stays outside session body s h
  handle_project_create-Stays outside post session body s h =
      create_by_staff-Stays outside session body s h
  handle_project_create-Stays outside patch session body s h =
      create_by_staff-Stays outside session body s h
  handle_project_create-Stays outside put session body s h =
      create_by_staff-Stays outside session body s h
  handle_project_create-Stays outside other_method session body s h =
      create_by_staff-Stays outside session body s h

  module _ (upserts : UpsertKeeps db rows P) where
    module _ (session : Session) (req : AddRequest) where
      log_changes-Stays :
          (before : Option Maintainer) (m : Maintainer) (changes : Dict Change) (w : W)
          → Stays w
          → Stays (log_changes db session req before m changes w)
      unfolding log_changes
      log_changes-Stays before m [] w h = h
      log_changes-Stays before m (c ∷ changes) w h =
          log_event-Holds db rows saved writes queries P stable
            (ref_update_event session req (looked_up_actor db session.login w) before m
              (c ∷ changes))
            w h

      after_added-Stays :
          (before : Option Maintainer) (r : Answer Maintainer × W)
          → Stays r.1
          → Stays (after_added db session req before r).1
      unfolding after_added
      after_added-Stays before (failed e, w) h = h
      after_added-Stays before (found m, w) h =
          log_changes-Stays before m (changes_of db session req before m w) w h

      add-Stays :
          (before : Option Maintainer) (w : W) → Stays w → Stays (add db session req before w).1
      unfolding add
      add-Stays before w h =
          after_added-Stays before (upsert_maintainer db (incoming_of req) w)
            (upserts (incoming_of req) w h)

      after_before_email-Stays :
          (a : Answer Maintainer) (w : W)
          → Stays w
          → Stays (after_before_email db session req a w).1
      unfolding after_before_email
      after_before_email-Stays (found m) w h = add-Stays (some m) w h
      after_before_email-Stays (failed record_not_found) w h = add-Stays none w h
      after_before_email-Stays (failed project_not_found) w h = h
      after_before_email-Stays (failed project_exists) w h = h
      after_before_email-Stays (failed company_exists) w h = h
      after_before_email-Stays (failed (invalid s)) w h = h
      after_before_email-Stays (failed (other s)) w h = h

      before_by_email-Stays :
          (email : Text) (w : W) → Stays w → Stays (before_by_email db session req email w).1
      unfolding before_by_email
      before_by_email-Stays [] w h = add-Stays none w h
      before_by_email-Stays (c ∷ s) w h =
          after_before_email-Stays (db.first_maintainer_by_email (to_lower (c ∷ s)) w) w h

      after_before_account-Stays :
          (a : Answer Maintainer) (w : W)
          → Stays w
          → Stays (after_before_account db session req a w).1
      unfolding after_before_account
      after_before_account-Stays (found m) w h = add-Stays (some m) w h
      after_before_account-Stays (failed record_not_found) w h = before_by_email-Stays req.email w h
      after_before_account-Stays (failed project_not_found) w h = h
      after_before_account-Stays (failed project_exists) w h = h
      after_before_account-Stays (failed company_exists) w h = h
      after_before_account-Stays (failed (invalid s)) w h = h
      after_before_account-Stays (failed (other s)) w h = h

      with_fields-Stays : (w : W) → Stays w → Stays (with_fields db session req w).1
      unfolding with_fields
      with_fields-Stays w h =
          let account = db.first_maintainer_by_account (to_lower req.git_hub_handle) w in
          if-Has (λ (r : Reply AddResponse × W). Stays r.1)
            (eqb req.project_id 0 || req.git_hub_handle == [])
            (refused bad_request (text "missing required fields"), w)
            (after_before_account db session req account w) h
            (after_before_account-Stays account w h)

    add_requested-Stays :
        (session : Session) (body : Option AddRequest) (w : W)
        → Stays w
        → Stays (add_requested db session body w).1
    unfolding add_requested
    add_requested-Stays session none w h = h
    add_requested-Stays session (some req) w h = with_fields-Stays session (trimmed_request req) w h

    pub handle_maintainer_from_ref-Stays :
        (method : Method) (session : Option Session) (body : Option AddRequest) (w : W)
        → Stays w
        → Stays (handle_maintainer_from_ref db method session body w).1
    unfolding handle_maintainer_from_ref
    handle_maintainer_from_ref-Stays post session body w h =
        for_staff-Has Stays session (λ owner w. add_requested db owner body w) w h
          (λ owner. add_requested-Stays owner body w h)
    handle_maintainer_from_ref-Stays get session body w h = h
    handle_maintainer_from_ref-Stays patch session body w h = h
    handle_maintainer_from_ref-Stays put session body w h = h
    handle_maintainer_from_ref-Stays options session body w h = h
    handle_maintainer_from_ref-Stays other_method session body w h = h
