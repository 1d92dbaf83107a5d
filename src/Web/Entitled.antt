-- ===== src/Web/Entitled.antt =====
-- Who may change what through the handlers of cmd/web-bff/main.go.
pub mod Serves
use maintainer_d.Base.{
  ℕ, Text, text, eqb, eqb_iff, Bool, true, false, not, has_suffix, ◌≡◌, ◌≢◌, refl, sym, ap, ◌∙◌,
  subst, ◌⊎◌, inl, inr, Option, none, some, arith, if◌then◌else◌, Bool-cases, Option-cases,
}
use maintainer_d.Model.{Maintainer}
use maintainer_d.Auth.Directory.{Role, staff, maintainer}
use maintainer_d.Auth.Stores.{Session}
use maintainer_d.Store.{Answer, found, failed, Gorm}
use maintainer_d.Web.{
  Method, get, post, patch, put, options, other_method, Reply, refused, no_content, ok,
  UpdateRequest, StatusRequest, MergeRequest, AddRequest, CreateRequest, for_staff, for_role,
}
use maintainer_d.Web.Params.{parse_id_param}
use maintainer_d.Web.Actor.{get_maintainer_by_login}
use maintainer_d.Web.Maintainer.{
  handle_maintainer, handle_maintainer_status_update, with_id, with_session, with_role,
  after_requester, by_method, update_by, after_owner, with_body,
}
use maintainer_d.Web.Company.{handle_companies, handle_company_merge, companies_by_method}
use maintainer_d.Web.Project.{
  handle_project_patch, handle_project_maturity_update, handle_project_maintainer_ref_update,
  ref_by_id, maturity_by_id,
}
use maintainer_d.Web.FromRef.{handle_maintainer_from_ref}
use maintainer_d.Web.Create.{Outside, handle_project_create}
use maintainer_d.Web.Issues.{IssueCache}
use maintainer_d.Web.Serve.{
  Request, maintainer_request, status_request, from_ref_request, companies_request, merge_request,
  project_patch_request, project_create_request, State, serve, with_cache,
}

-- Staff may send any request, maintainers may edit the row that their login finds, and any session
-- may add a company.
pub data IsEntitled {W : Type 0} (db : Gorm W) (w : W) (owner : Session) : Request → Type 0 where
  as_staff : (r : Request) → owner.role ≡ staff → IsEntitled db w owner r
  as_self :
      (method : Method) (path : Text) (body : Option UpdateRequest) (m : Maintainer)
      → get_maintainer_by_login db owner.login w ≡ found m
      → parse_id_param path (text "/api/maintainers/") ≡ some m.id
      → IsEntitled db w owner (maintainer_request method path body)
  as_maker :
      (duplicates : Text) (body : Option Text)
      → IsEntitled db w owner (companies_request post duplicates body)

module _ {A S : Type 0} where
  -- Only staff get past the guard.
  for_role-changes :
      (role : Role) (f : S → Reply A × S) (s : S) → ((for_role role f s).1 ≡ s) ⊎ (role ≡ staff)
  unfolding for_role
  for_role-changes Role.staff f s = inr refl
  for_role-changes Role.maintainer f s = inl refl

  for_staff-changes :
      (session : Option Session) (f : Session → S → Reply A × S) (s : S)
      → ((for_staff session f s).1 ≡ s)
        ⊎ ((owner : Session) × (session ≡ some owner) × (owner.role ≡ staff))
  unfolding for_staff
  for_staff-changes none f s = inl refl
  for_staff-changes (some owner) f s = elim (for_role-changes owner.role (f owner) s) [
    | inl same ↦ inl same
    | inr role ↦ inr (owner, refl, role)
  ]

module _ {W : Type 0} (db : Gorm W) where
  abbrev Entitled : W → Option Session → Request → Type 0
  Entitled w session r = (owner : Session) × (session ≡ some owner) × IsEntitled db w owner r

  staff-Entitled :
      (w : W) (session : Option Session) (r : Request)
      → ((owner : Session) × (session ≡ some owner) × (owner.role ≡ staff))
      → Entitled w session r
  staff-Entitled w session r (owner, e, role) = (owner, e, as_staff r role)

  -- A handler that only staff may use.
  guarded :
      {A S : Type 0} (w : W) (r : Request) (session : Option Session)
      (f : Session → S → Reply A × S) (s : S)
      → ((for_staff session f s).1 ≡ s) ⊎ Entitled w session r
  guarded w r session f s = elim (for_staff-changes session f s) [
    | inl same ↦ inl same
    | inr owner ↦ inr (staff-Entitled w session r owner)
  ]

  module _ (id : ℕ) (session : Session) where
    -- The row's number is that of the row that the requester's login finds.
    abbrev Owns : W → Type 0
    Owns w = (m : Maintainer) × (get_maintainer_by_login db session.login w ≡ found m) × (m.id ≡ id)

    after_owner-changes :
        (a : Answer Maintainer) (body : Option UpdateRequest) (w : W)
        → ((after_owner db id session a body w).1 ≡ w)
          ⊎ ((m : Maintainer) × (a ≡ found m) × (m.id ≡ id))
    unfolding after_owner
    after_owner-changes (failed e) body w = inl refl
    after_owner-changes (found m) body w = elim (Bool-cases (eqb m.id id)) [
      | inl same ↦ inr (m, refl, (eqb_iff m.id id).0 same)
      | inr other ↦ inl (
          ap
            (λ b.
              (if not b
                then (refused 403 (text "forbidden"), w)
                else with_body db id session body w).1)
            other)
    ]

    update_by-changes :
        (role : Role) (body : Option UpdateRequest) (w : W)
        → ((update_by db id session role body w).1 ≡ w) ⊎ ((role ≡ staff) ⊎ Owns w)
    unfolding update_by
    update_by-changes Role.staff body w = inr (inl refl)
    update_by-changes Role.maintainer body w =
        elim (after_owner-changes (get_maintainer_by_login db session.login w) body w) [
          | inl same ↦ inl same
          | inr owns ↦ inr (inr owns)
        ]

    by_method-changes :
        (method : Method) (requester : Option Maintainer) (body : Option UpdateRequest) (w : W)
        → ((by_method db id session method requester body w).1 ≡ w)
          ⊎ ((session.role ≡ staff) ⊎ Owns w)
    unfolding by_method
    by_method-changes get requester body w = inl refl
    by_method-changes post requester body w = inl refl
    by_method-changes patch requester body w = update_by-changes session.role body w
    by_method-changes put requester body w = update_by-changes session.role body w
    by_method-changes options requester body w = inl refl
    by_method-changes other_method requester body w = inl refl

    after_requester-changes :
        (method : Method) (a : Answer Maintainer) (body : Option UpdateRequest) (w : W)
        → ((after_requester db id session method a body w).1 ≡ w)
          ⊎ ((session.role ≡ staff) ⊎ Owns w)
    unfolding after_requester
    after_requester-changes method (failed e) body w = inl refl
    after_requester-changes method (found m) body w = by_method-changes method (some m) body w

    with_role-changes :
        (role : Role) (method : Method) (body : Option UpdateRequest) (w : W)
        → ((with_role db id session role method body w).1 ≡ w) ⊎ ((session.role ≡ staff) ⊎ Owns w)
    unfolding with_role
    with_role-changes Role.staff method body w = by_method-changes method none body w
    with_role-changes Role.maintainer method body w =
        after_requester-changes method (get_maintainer_by_login db session.login w) body w

  module _ (method : Method) (path : Text) (body : Option UpdateRequest) where
    owner-Entitled :
        (id : ℕ) (session : Session) (w : W)
        → parse_id_param path (text "/api/maintainers/") ≡ some id
        → (session.role ≡ staff) ⊎ Owns id session w
        → Entitled w (some session) (maintainer_request method path body)
    owner-Entitled id session w path_id (inl role) = (session, refl, as_staff _ role)
    owner-Entitled id session w path_id (inr (m, e, same)) =
        (session, refl, as_self method path body m e (path_id ∙ ap some (sym same)))

    with_session-changes :
        (id : ℕ) (session : Option Session) (w : W)
        → parse_id_param path (text "/api/maintainers/") ≡ some id
        → ((with_session db id session method body w).1 ≡ w)
          ⊎ Entitled w session (maintainer_request method path body)
    unfolding with_session
    with_session-changes id none w path_id = inl refl
    with_session-changes id (some session) w path_id =
        elim (with_role-changes id session session.role method body w) [
          | inl same ↦ inl same
          | inr owner ↦ inr (owner-Entitled id session w path_id owner)
        ]

    with_id-changes :
        (id : Option ℕ) (session : Option Session) (w : W)
        → parse_id_param path (text "/api/maintainers/") ≡ id
        → ((with_id db id session method body w).1 ≡ w)
          ⊎ Entitled w session (maintainer_request method path body)
    unfolding with_id
    with_id-changes none session w path_id = inl refl
    with_id-changes (some id) session w path_id = with_session-changes id session w path_id

  handle_maintainer-changes :
      (method : Method) (path : Text) (session : Option Session) (body : Option UpdateRequest)
      (w : W)
      → ((handle_maintainer db method path session body w).1 ≡ w)
        ⊎ Entitled w session (maintainer_request method path body)
  unfolding handle_maintainer
  handle_maintainer-changes options path session body w = inl refl
  handle_maintainer-changes get path session body w =
      with_id-changes get path body (parse_id_param path (text "/api/maintainers/")) session w refl
  handle_maintainer-changes post path session body w =
      with_id-changes post path body (parse_id_param path (text "/api/maintainers/")) session w refl
  handle_maintainer-changes patch path session body w =
      with_id-changes patch path body (parse_id_param path (text "/api/maintainers/")) session w
        refl
  handle_maintainer-changes put path session body w =
      with_id-changes put path body (parse_id_param path (text "/api/maintainers/")) session w refl
  handle_maintainer-changes other_method path session body w =
      with_id-changes other_method path body (parse_id_param path (text "/api/maintainers/"))
        session w refl
