-- ===== src/Web/Run/Others.antt =====
-- Stable properties of the tables under the handlers of cmd/web-bff/main.go for statuses and
-- companies.
use maintainer_d.Base.{
  ℕ, Text, text, trim_space, eqb, ◌||◌, not, Option, none, some, List, [], ◌∷◌, if-Has, ◌≡◌, refl,
  sym, subst,
}
use maintainer_d.Model.{Company, status_is_valid}
use maintainer_d.Auth.Stores.{Session}
use maintainer_d.Store.{DbError, Answer, found, failed, Gorm, AuditLog}
use maintainer_d.Store.Companies.{create_company, merge_companies}
use maintainer_d.Store.Maintainers.{update_maintainers_status}
use maintainer_d.Store.Tables.{Tables}
use maintainer_d.Store.Laws.{Queries, Writes}
use maintainer_d.Web.{
  Method, get, post, patch, put, options, other_method, Reply, refused, bad_request, StatusRequest,
  MergeRequest,
}
use maintainer_d.Web.Actor.{log_event}
use maintainer_d.Web.Maintainer.{
  handle_maintainer_status_update, update_statuses, with_ids, status_reply,
}
use maintainer_d.Web.Company.{
  handle_companies, companies_by_method, create_named, after_create, company_event, maker_of,
  handle_company_merge, merge_requested, merge_reply,
}
use maintainer_d.Web.Run.{IsStable}
use maintainer_d.Web.Run.Keeps.{
  for_staff-Has, log_event-Holds, merge_companies-Holds, create_company-Holds,
  update_maintainers_status-Holds,
}

module _ {W : Type 0} (db : Gorm W) (rows saved : W → Tables) (writes : Writes db rows saved)
    (queries : Queries db rows saved) (P : Tables → Type 0) (stable : IsStable P) where
  abbrev Keeps : W → Type 0
  Keeps w = P (rows w)

  logged : (e : AuditLog) (w : W) → Keeps w → Keeps (log_event db e w)
  logged e w h = log_event-Holds db rows saved writes queries P stable e w h

  status_reply-state : (r : Option DbError × W) → (status_reply db r).1 ≡ r.1
  unfolding status_reply
  status_reply-state (some e, w) = refl
  status_reply-state (none, w) = refl

  with_ids-Keeps : (ids : List ℕ) (s : Text) (w : W) → Keeps w → Keeps (with_ids db ids s w).1
  unfolding with_ids
  with_ids-Keeps [] s w h = h
  with_ids-Keeps (id ∷ ids) s w h =
      let updated = update_maintainers_status db (id ∷ ids) s w in
      if-Has (λ (r : Reply Unit × W). Keeps r.1) (not (status_is_valid s))
        (refused bad_request (text "invalid status"), w) (status_reply db updated) h
        (subst Keeps (sym (status_reply-state updated))
          (update_maintainers_status-Holds db rows saved writes queries P stable (id ∷ ids) s w h))

  update_statuses-Keeps :
      (body : Option StatusRequest) (w : W) → Keeps w → Keeps (update_statuses db body w).1
  unfolding update_statuses
  update_statuses-Keeps none w h = h
  update_statuses-Keeps (some req) w h = with_ids-Keeps req.ids (trim_space req.status) w h

  pub handle_maintainer_status_update-Keeps :
      (method : Method) (session : Option Session) (body : Option StatusRequest) (w : W)
      → Keeps w
      → Keeps (handle_maintainer_status_update db method session body w).1
  unfolding handle_maintainer_status_update
  handle_maintainer_status_update-Keeps post session body w h =
      for_staff-Has Keeps session (λ owner w. update_statuses db body w) w h
        (λ owner. update_statuses-Keeps body w h)
  handle_maintainer_status_update-Keeps get session body w h = h
  handle_maintainer_status_update-Keeps patch session body w h = h
  handle_maintainer_status_update-Keeps put session body w h = h
  handle_maintainer_status_update-Keeps options session body w h = h
  handle_maintainer_status_update-Keeps other_method session body w h = h

  after_create-Keeps :
      (session : Session) (r : Answer Company × W) → Keeps r.1 → Keeps (after_create db session r).1
  unfolding after_create
  after_create-Keeps session (failed e, w) h = h
  after_create-Keeps session (found c, w) h =
      logged (company_event session (maker_of db session session.role w) c) w h

  create_named-Keeps :
      (session : Session) (body : Option Text) (w : W)
      → Keeps w
      → Keeps (create_named db session body w).1
  unfolding create_named
  create_named-Keeps session none w h = h
  create_named-Keeps session (some name) w h =
      after_create-Keeps session (create_company db name w)
        (create_company-Holds db rows saved writes queries P stable name w h)

  companies_by_method-Keeps :
      (method : Method) (duplicates : Text) (session : Session) (body : Option Text) (w : W)
      → Keeps w
      → Keeps (companies_by_method db method duplicates session body w).1
  unfolding companies_by_method
  companies_by_method-Keeps post duplicates session body w h = create_named-Keeps session body w h
  companies_by_method-Keeps get duplicates session body w h = h
  companies_by_method-Keeps patch duplicates session body w h = h
  companies_by_method-Keeps put duplicates session body w h = h
  companies_by_method-Keeps options duplicates session body w h = h
  companies_by_method-Keeps other_method duplicates session body w h = h

  pub handle_companies-Keeps :
      (method : Method) (duplicates : Text) (session : Option Session) (body : Option Text) (w : W)
      → Keeps w
      → Keeps (handle_companies db method duplicates session body w).1
  unfolding handle_companies
  handle_companies-Keeps method duplicates none body w h = h
  handle_companies-Keeps method duplicates (some session) body w h =
      companies_by_method-Keeps method duplicates session body w h

  merge_reply-state : (r : Option DbError × W) → (merge_reply db r).1 ≡ r.1
  unfolding merge_reply
  merge_reply-state (some e, w) = refl
  merge_reply-state (none, w) = refl

  merge_requested-Keeps :
      (body : Option MergeRequest) (w : W) → Keeps w → Keeps (merge_requested db body w).1
  unfolding merge_requested
  merge_requested-Keeps none w h = h
  merge_requested-Keeps (some req) w h =
      let merged = merge_companies db req.from_id req.to_id w in
      if-Has (λ (r : Reply Unit × W). Keeps r.1)
        (eqb req.from_id 0 || eqb req.to_id 0 || eqb req.from_id req.to_id)
        (refused bad_request (text "invalid ids"), w) (merge_reply db merged) h
        (subst Keeps (sym (merge_reply-state merged))
          (merge_companies-Holds db rows saved writes queries P stable req.from_id req.to_id w h))

  pub handle_company_merge-Keeps :
      (method : Method) (session : Option Session) (body : Option MergeRequest) (w : W)
      → Keeps w
      → Keeps (handle_company_merge db method session body w).1
  unfolding handle_company_merge
  handle_company_merge-Keeps post session body w h =
      for_staff-Has Keeps session (λ owner w. merge_requested db body w) w h
        (λ owner. merge_requested-Keeps body w h)
  handle_company_merge-Keeps get session body w h = h
  handle_company_merge-Keeps patch session body w h = h
  handle_company_merge-Keeps put session body w h = h
  handle_company_merge-Keeps options session body w h = h
  handle_company_merge-Keeps other_method session body w h = h
