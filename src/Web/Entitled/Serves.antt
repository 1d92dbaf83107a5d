-- ===== src/Web/Entitled/Serves.antt =====
-- The other handlers of cmd/web-bff/main.go, and all of them together.
use maintainer_d.Base.{
  ℕ, Text, text, has_suffix, ◌≡◌, ◌≢◌, refl, ap, ◌⊎◌, inl, inr, Option, none, some, if-Has,
}
use maintainer_d.Auth.Stores.{Session}
use maintainer_d.Store.{Gorm}
use maintainer_d.Web.{
  Method, get, post, patch, put, options, other_method, Reply, StatusRequest, MergeRequest,
  AddRequest, CreateRequest,
}
use maintainer_d.Web.Maintainer.{
  handle_maintainer, handle_maintainer_status_update, update_statuses,
}
use maintainer_d.Web.Company.{
  handle_companies, handle_company_merge, companies_by_method, merge_requested,
}
use maintainer_d.Web.Project.{
  handle_project_patch, handle_project_maturity_update, handle_project_maintainer_ref_update,
  ref_by_id, maturity_by_id, ref_body, maturity_body,
}
use maintainer_d.Web.FromRef.{handle_maintainer_from_ref, add_requested}
use maintainer_d.Web.Create.{Outside, handle_project_create, create_requested}
use maintainer_d.Web.Issues.{IssueCache}
use maintainer_d.Web.Serve.{
  Request, maintainer_request, status_request, from_ref_request, companies_request, merge_request,
  project_patch_request, project_create_request, State, serve, with_cache,
}
use maintainer_d.Web.Entitled.{IsEntitled, as_maker, Entitled, guarded, handle_maintainer-changes}

module _ {W : Type 0} (db : Gorm W) where
  handle_maintainer_status_update-changes :
      (method : Method) (session : Option Session) (body : Option StatusRequest) (w : W)
      → ((handle_maintainer_status_update db method session body w).1 ≡ w)
        ⊎ Entitled db w session (status_request method body)
  unfolding handle_maintainer_status_update
  handle_maintainer_status_update-changes post session body w =
      guarded db w _ session (λ owner w. update_statuses db body w) w
  handle_maintainer_status_update-changes get session body w = inl refl
  handle_maintainer_status_update-changes patch session body w = inl refl
  handle_maintainer_status_update-changes put session body w = inl refl
  handle_maintainer_status_update-changes options session body w = inl refl
  handle_maintainer_status_update-changes other_method session body w = inl refl

  handle_maintainer_from_ref-changes :
      (method : Method) (session : Option Session) (body : Option AddRequest) (w : W)
      → ((handle_maintainer_from_ref db method session body w).1 ≡ w)
        ⊎ Entitled db w session (from_ref_request method body)
  unfolding handle_maintainer_from_ref
  handle_maintainer_from_ref-changes post session body w =
      guarded db w _ session (λ owner w. add_requested db owner body w) w
  handle_maintainer_from_ref-changes get session body w = inl refl
  handle_maintainer_from_ref-changes patch session body w = inl refl
  handle_maintainer_from_ref-changes put session body w = inl refl
  handle_maintainer_from_ref-changes options session body w = inl refl
  handle_maintainer_from_ref-changes other_method session body w = inl refl

  handle_company_merge-changes :
      (method : Method) (session : Option Session) (body : Option MergeRequest) (w : W)
      → ((handle_company_merge db method session body w).1 ≡ w)
        ⊎ Entitled db w session (merge_request method body)
  unfolding handle_company_merge
  handle_company_merge-changes post session body w =
      guarded db w _ session (λ owner w. merge_requested db body w) w
  handle_company_merge-changes get session body w = inl refl
  handle_company_merge-changes patch session body w = inl refl
  handle_company_merge-changes put session body w = inl refl
  handle_company_merge-changes options session body w = inl refl
  handle_company_merge-changes other_method session body w = inl refl

  companies_by_method-changes :
      (method : Method) (duplicates : Text) (owner : Session) (body : Option Text) (w : W)
      → ((companies_by_method db method duplicates owner body w).1 ≡ w)
        ⊎ Entitled db w (some owner) (companies_request method duplicates body)
  unfolding companies_by_method
  companies_by_method-changes post duplicates owner body w =
      inr (owner, refl, as_maker duplicates body)
  companies_by_method-changes get duplicates owner body w = inl refl
  companies_by_method-changes patch duplicates owner body w = inl refl
  companies_by_method-changes put duplicates owner body w = inl refl
  companies_by_method-changes options duplicates owner body w = inl refl
  companies_by_method-changes other_method duplicates owner body w = inl refl

  handle_companies-changes :
      (method : Method) (duplicates : Text) (session : Option Session) (body : Option Text) (w : W)
      → ((handle_companies db method duplicates session body w).1 ≡ w)
        ⊎ Entitled db w session (companies_request method duplicates body)
  unfolding handle_companies
  handle_companies-changes method duplicates none body w = inl refl
  handle_companies-changes method duplicates (some owner) body w =
      companies_by_method-changes method duplicates owner body w

  ref_by_id-changes :
      (r : Request) (id : Option ℕ) (session : Option Session) (body : Option Text) (w : W)
      → ((ref_by_id db id session body w).1 ≡ w) ⊎ Entitled db w session r
  unfolding ref_by_id
  ref_by_id-changes r none session body w = inl refl
  ref_by_id-changes r (some id) session body w =
      guarded db w r session (λ owner w. ref_body db id owner body w) w

  maturity_by_id-changes :
      (r : Request) (id : Option ℕ) (session : Option Session) (body : Option Text) (w : W)
      → ((maturity_by_id db id session body w).1 ≡ w) ⊎ Entitled db w session r
  unfolding maturity_by_id
  maturity_by_id-changes r none session body w = inl refl
  maturity_by_id-changes r (some id) session body w =
      guarded db w r session (λ owner w. maturity_body db id owner body w) w

  handle_project_patch-changes :
      (path : Text) (session : Option Session) (body : Option Text) (w : W)
      → ((handle_project_patch db path session body w).1 ≡ w)
        ⊎ Entitled db w session (project_patch_request path body)
  unfolding handle_project_patch handle_project_maturity_update handle_project_maintainer_ref_update
  handle_project_patch-changes path session body w =
      if-Has
        (λ (r : Reply Unit × W).
          (r.1 ≡ w) ⊎ Entitled db w session (project_patch_request path body))
        (has_suffix path (text "/maturity")) (handle_project_maturity_update db path session body w)
        (handle_project_maintainer_ref_update db path session body w)
        (maturity_by_id-changes _ _ session body w) (ref_by_id-changes _ _ session body w)

  with_cache-changes :
      {A : Type 0} (r : Reply A × W) (w : W) (cache : IssueCache) (E : Type 0)
      → (r.1 ≡ w) ⊎ E
      → ((with_cache r cache).1 ≡ (w, cache)) ⊎ E
  unfolding with_cache
  with_cache-changes (reply, w') w cache E (inl same) = inl (ap (λ v. (v, cache)) same)
  with_cache-changes (reply, w') w cache E (inr entitled) = inr entitled

  handle_project_create-changes :
      (outside : Outside) (method : Method) (session : Option Session) (body : Option CreateRequest)
      (s : State W)
      → ((handle_project_create db outside method session body s).1 ≡ s)
        ⊎ Entitled db s.0 session (project_create_request method body)
  unfolding handle_project_create
  handle_project_create-changes outside options session body s = inl refl
  handle_project_create-changes outside get session body s =
      guarded db s.0 _ session (λ owner s. create_requested db outside owner body s) s
  handle_project_create-changes outside post session body s =
      guarded db s.0 _ session (λ owner s. create_requested db outside owner body s) s
  handle_project_create-changes outside patch session body s =
      guarded db s.0 _ session (λ owner s. create_requested db outside owner body s) s
  handle_project_create-changes outside put session body s =
      guarded db s.0 _ session (λ owner s. create_requested db outside owner body s) s
  handle_project_create-changes outside other_method session body s =
      guarded db s.0 _ session (λ owner s. create_requested db outside owner body s) s

  serve-changes :
      (outside : Outside) (session : Option Session) (r : Request) (s : State W)
      → ((serve db outside session r s).1 ≡ s) ⊎ Entitled db s.0 session r
  unfolding serve
  serve-changes outside session (maintainer_request method path body) (w, cache) =
      with_cache-changes (handle_maintainer db method path session body w) w cache _
        (handle_maintainer-changes db method path session body w)
  serve-changes outside session (status_request method body) (w, cache) =
      with_cache-changes (handle_maintainer_status_update db method session body w) w cache _
        (handle_maintainer_status_update-changes method session body w)
  serve-changes outside session (from_ref_request method body) (w, cache) =
      with_cache-changes (handle_maintainer_from_ref db method session body w) w cache _
        (handle_maintainer_from_ref-changes method session body w)
  serve-changes outside session (companies_request method duplicates body) (w, cache) =
      with_cache-changes (handle_companies db method duplicates session body w) w cache _
        (handle_companies-changes method duplicates session body w)
  serve-changes outside session (merge_request method body) (w, cache) =
      with_cache-changes (handle_company_merge db method session body w) w cache _
        (handle_company_merge-changes method session body w)
  serve-changes outside session (project_patch_request path body) (w, cache) =
      with_cache-changes (handle_project_patch db path session body w) w cache _
        (handle_project_patch-changes path session body w)
  serve-changes outside session (project_create_request method body) (w, cache) =
      handle_project_create-changes outside method session body (w, cache)

-- A request to one of the handlers that write changes the database or the cache of issues only if
-- it has a session whose owner is entitled to it: a member of the staff, a maintainer whose login
-- finds the very row that the path names, or, to add a company, any maintainer.
pub serve-OnlyEntitled :
    {W : Type 0} (db : Gorm W) (outside : Outside) (session : Option Session) (r : Request)
    (s : State W)
    → (serve db outside session r s).1 ≢ s
    → (owner : Session) × (session ≡ some owner) × IsEntitled db s.0 owner r
serve-OnlyEntitled db outside session r s change = elim (serve-changes db outside session r s) [
  | inl same ↦ absurd (change same)
  | inr entitled ↦ entitled
]
