-- ===== src/Web/Issues/Cache.antt =====
-- The cache of onboarding issues and the creation of projects in cmd/web-bff/main.go.
use mathlib.Core.Option.{some-injective}
use maintainer_d.Base.{
  ℕ, zero, suc, text, to_lower, false, ◌≡◌, refl, sym, ap, ◌∙◌, subst, Option, none, some, List, [],
  ◌∷◌, All, arith, if◌then◌else◌,
}
use maintainer_d.Auth.Directory.{Role}
use maintainer_d.Auth.Stores.{Session}
use maintainer_d.Store.{Answer, found, failed, Gorm, NewProject}
use maintainer_d.Web.{
  Method, get, post, patch, put, options, other_method, Reply, refused, ok, CreateRequest,
  for_staff, for_role, Checked, pass, refuse,
}
use maintainer_d.Web.Issues.{
  Issue, IssueCache, is_fresh, keep_new, filter_issues, store_issues, refill, get_onboarding_issues,
  invalidate_onboarding_cache,
}
use maintainer_d.Web.Create.{
  Outside, Created, handle_project_create, create_requested, insert_draft, draft,
  after_insert_project,
}

module _ {A S : Type 0} (Q : Reply A × S → Type 0) where
  for_role-Says :
      (role : Role) (f : S → Reply A × S) (s : S)
      → Q (refused 403 (text "forbidden"), s)
      → Q (f s)
      → Q (for_role role f s)
  unfolding for_role
  for_role-Says Role.staff f s h k = k
  for_role-Says Role.maintainer f s h k = h

  for_staff-Says :
      (session : Option Session) (f : Session → S → Reply A × S) (s : S)
      → Q (refused 403 (text "forbidden"), s)
      → ((owner : Session) → Q (f owner s))
      → Q (for_staff session f s)
  unfolding for_staff
  for_staff-Says none f s h k = h
  for_staff-Says (some owner) f s h k = for_role-Says owner.role (f owner) s h (k owner)

module _ {W : Type 0} (db : Gorm W) where
  -- No project has the issue's URL or name, up to case.
  abbrev pub IsNew : W → Issue → Type 0
  IsNew w i = db.count_projects_like (to_lower i.url) (to_lower i.project_name) w ≡ found 0

  keep_new-IsNew :
      (w : W) (i : Issue) (a : Answer ℕ) (rest : Option (List Issue)) (is : List Issue)
      → db.count_projects_like (to_lower i.url) (to_lower i.project_name) w ≡ a
      → ((js : List Issue) → rest ≡ some js → All (IsNew w) js)
      → keep_new i a rest ≡ some is
      → All (IsNew w) is
  unfolding keep_new
  keep_new-IsNew w i (failed e) rest is count new h = absurd (ground arith)
  keep_new-IsNew w i (found n) none is count new h = absurd (ground arith)
  keep_new-IsNew w i (found zero) (some js) is count new h =
      subst (All (IsNew w)) (some-injective _ _ h) (count, new js refl)
  keep_new-IsNew w i (found (suc n)) (some js) is count new h = new is h

  filter_issues-IsNew :
      (raw : List Issue) (w : W) (is : List Issue)
      → filter_issues db raw w ≡ some is
      → All (IsNew w) is
  unfolding filter_issues
  filter_issues-IsNew [] w is h = subst (All (IsNew w)) (some-injective _ _ h) tt
  filter_issues-IsNew (i ∷ raw) w is h =
      keep_new-IsNew w i (db.count_projects_like (to_lower i.url) (to_lower i.project_name) w)
        (filter_issues db raw w) is refl (λ js e. filter_issues-IsNew raw w js e) h

  store_issues-IsNew :
      (now : ℕ) (raw : List Issue) (w : W) (cache : IssueCache) (o : Option (List Issue))
      (is : List Issue)
      → filter_issues db raw w ≡ o
      → (store_issues db now raw o cache).0 ≡ some is
      → All (IsNew w) is
  unfolding store_issues
  store_issues-IsNew now raw w cache none is filtered h = absurd (ground arith)
  store_issues-IsNew now raw w cache (some js) is filtered h =
      filter_issues-IsNew raw w is (filtered ∙ h)

  refill-IsNew :
      (now : ℕ) (fetched : Option (List Issue)) (w : W) (cache : IssueCache) (is : List Issue)
      → (refill db now fetched w cache).0 ≡ some is
      → All (IsNew w) is
  unfolding refill
  refill-IsNew now none w cache is h = absurd (ground arith)
  refill-IsNew now (some raw) w cache is h =
      store_issues-IsNew now raw w cache (filter_issues db raw w) is refl h

  -- The cache was emptied.
  abbrev Emptied : IssueCache → Type 0
  Emptied cache = cache.expires ≡ 0

  stale-cache : (now : ℕ) (cache : IssueCache) → Emptied cache → is_fresh now cache ≡ false
  unfolding is_fresh
  stale-cache now cache emptied = ground arith

  reloaded-IsNew :
      (now : ℕ) (fetched : Option (List Issue)) (w : W) (cache : IssueCache) (is : List Issue)
      → Emptied cache
      → (get_onboarding_issues db now fetched w cache).0 ≡ some is
      → All (IsNew w) is
  unfolding get_onboarding_issues is_fresh
  reloaded-IsNew now fetched w cache is emptied h =
      let stale : is_fresh now cache ≡ false = stale-cache now cache emptied in
      refill-IsNew now fetched w cache is (
        sym (
          ap (λ b. (if b then (some cache.issues, cache) else refill db now fetched w cache).0)
            stale)
        ∙ h)

  module _ (outside : Outside) where
    abbrev IfOk : Reply Created → IssueCache → Type 0
    IfOk (ok created) cache = Emptied cache
    IfOk _ cache = Unit

    after_insert_project-IfOk :
        (session : Session) (p : NewProject) (r : Answer ℕ × W) (cache : IssueCache)
        → IfOk
            (after_insert_project db outside session p r cache).0
            (after_insert_project db outside session p r cache).1.1
    unfolding after_insert_project invalidate_onboarding_cache
    after_insert_project-IfOk session p (failed e, w) cache = tt
    after_insert_project-IfOk session p (found id, w) cache = refl

    insert_draft-IfOk :
        (session : Session) (c : Checked NewProject) (s : W × IssueCache)
        → IfOk (insert_draft db outside session c s).0 (insert_draft db outside session c s).1.1
    unfolding insert_draft
    insert_draft-IfOk session (refuse status message) (w, cache) = tt
    insert_draft-IfOk session (pass p) (w, cache) =
        after_insert_project-IfOk session p (db.insert_project p w) cache

    create_requested-IfOk :
        (session : Session) (body : Option CreateRequest) (s : W × IssueCache)
        → IfOk
            (create_requested db outside session body s).0
            (create_requested db outside session body s).1.1
    unfolding create_requested
    create_requested-IfOk session none s = tt
    create_requested-IfOk session (some req) s =
        insert_draft-IfOk session (draft db outside req s.0) s

    by_staff-IfOk :
        (session : Option Session) (body : Option CreateRequest) (s : W × IssueCache)
        → IfOk
            (for_staff session (λ owner s. create_requested db outside owner body s) s).0
            (for_staff session (λ owner s. create_requested db outside owner body s) s).1.1
    by_staff-IfOk session body s =
        for_staff-Says (λ r. IfOk r.0 r.1.1) session
          (λ owner s. create_requested db outside owner body s) s tt
          (λ owner. create_requested-IfOk owner body s)

    handle_project_create-IfOk :
        (method : Method) (session : Option Session) (body : Option CreateRequest)
        (s : W × IssueCache)
        → IfOk
            (handle_project_create db outside method session body s).0
            (handle_project_create db outside method session body s).1.1
    unfolding handle_project_create
    handle_project_create-IfOk options session body s = tt
    handle_project_create-IfOk get session body s = by_staff-IfOk session body s
    handle_project_create-IfOk post session body s = by_staff-IfOk session body s
    handle_project_create-IfOk patch session body s = by_staff-IfOk session body s
    handle_project_create-IfOk put session body s = by_staff-IfOk session body s
    handle_project_create-IfOk other_method session body s = by_staff-IfOk session body s

-- After handle_project_create has created a project, get_onboarding_issues returns no issue whose
-- URL or name a project has, whatever was in the cache before the creation.
pub create-IsNew :
    {W : Type 0} (db : Gorm W) (outside : Outside) (method : Method) (session : Option Session)
    (body : Option CreateRequest) (s : W × IssueCache) (created : Created) (now : ℕ)
    (fetched : Option (List Issue)) (is : List Issue)
    → (handle_project_create db outside method session body s).0 ≡ ok created
    → (let after = (handle_project_create db outside method session body s).1 in
        (get_onboarding_issues db now fetched after.0 after.1).0 ≡ some is)
    → All (IsNew db (handle_project_create db outside method session body s).1.0) is
create-IsNew db outside method session body s created now fetched is success listed =
    let after = (handle_project_create db outside method session body s).1 in
    reloaded-IsNew db now fetched after.0 after.1 is
      (subst (λ r. IfOk db outside r after.1) success
        (handle_project_create-IfOk db outside method session body s))
      listed
