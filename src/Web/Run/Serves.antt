-- ===== src/Web/Run/Serves.antt =====
-- Stable properties of the tables under the requests that cmd/web-bff/main.go routes.
use maintainer_d.Base.{Option, List, [], ◌∷◌, All}
use maintainer_d.Auth.Stores.{Session}
use maintainer_d.Store.{Gorm}
use maintainer_d.Store.Tables.{Tables}
use maintainer_d.Store.Laws.{Queries, Writes}
use maintainer_d.Web.{Reply}
use maintainer_d.Web.Maintainer.{handle_maintainer, handle_maintainer_status_update}
use maintainer_d.Web.Company.{handle_companies, handle_company_merge}
use maintainer_d.Web.Project.{handle_project_patch}
use maintainer_d.Web.FromRef.{handle_maintainer_from_ref}
use maintainer_d.Web.Create.{Outside}
use maintainer_d.Web.Issues.{IssueCache}
use maintainer_d.Web.Serve.{
  Request, maintainer_request, status_request, from_ref_request, companies_request, merge_request,
  project_patch_request, project_create_request, State, serve, run, with_cache,
}
use maintainer_d.Web.Run.{IsStable, UpsertKeeps}
use maintainer_d.Web.Run.Handlers.{handle_maintainer-Kept}
use maintainer_d.Web.Run.Others.{
  handle_maintainer_status_update-Keeps, handle_companies-Keeps, handle_company_merge-Keeps,
}
use maintainer_d.Web.Run.Patches.{handle_project_patch-Saves}
use maintainer_d.Web.Run.Creates.{handle_maintainer_from_ref-Stays, handle_project_create-Stays}

-- What is asked of a request: of one that runs UpsertMaintainer, `Q`.
abbrev pub IfUpsert : Type 0 → Request → Type 0
IfUpsert Q (from_ref_request method body) = Q
IfUpsert Q _ = Unit

module _ {W : Type 0} (db : Gorm W) (rows saved : W → Tables) (writes : Writes db rows saved)
    (queries : Queries db rows saved) (P : Tables → Type 0) (stable : IsStable P)
    (outside : Outside) where
  abbrev HoldsIn : State W → Type 0
  HoldsIn s = P (rows s.0)

  with_cache-HoldsIn :
      {A : Type 0} (r : Reply A × W) (cache : IssueCache)
      → P (rows r.1)
      → HoldsIn (with_cache r cache).1
  unfolding with_cache
  with_cache-HoldsIn (reply, w) cache h = h

  pub serve-HoldsIn :
      (session : Option Session) (r : Request) (s : State W)
      → IfUpsert (UpsertKeeps db rows P) r
      → HoldsIn s
      → HoldsIn (serve db outside session r s).1
  unfolding serve
  serve-HoldsIn session (maintainer_request method path body) (w, cache) upserts h =
      with_cache-HoldsIn (handle_maintainer db method path session body w) cache
        (handle_maintainer-Kept db rows saved writes queries P stable method path session body w h)
  serve-HoldsIn session (status_request method body) (w, cache) upserts h =
      with_cache-HoldsIn (handle_maintainer_status_update db method session body w) cache (
        handle_maintainer_status_update-Keeps db rows saved writes queries P stable method session
          body w h)
  serve-HoldsIn session (from_ref_request method body) (w, cache) upserts h =
      with_cache-HoldsIn (handle_maintainer_from_ref db method session body w) cache (
        handle_maintainer_from_ref-Stays db rows saved writes queries P stable upserts method
          session body w h)
  serve-HoldsIn session (companies_request method duplicates body) (w, cache) upserts h =
      with_cache-HoldsIn (handle_companies db method duplicates session body w) cache (
        handle_companies-Keeps db rows saved writes queries P stable method duplicates session body
          w h)
  serve-HoldsIn session (merge_request method body) (w, cache) upserts h =
      with_cache-HoldsIn (handle_company_merge db method session body w) cache
        (handle_company_merge-Keeps db rows saved writes queries P stable method session body w h)
  serve-HoldsIn session (project_patch_request path body) (w, cache) upserts h =
      with_cache-HoldsIn (handle_project_patch db path session body w) cache
        (handle_project_patch-Saves db rows saved writes queries P stable path session body w h)
  serve-HoldsIn session (project_create_request method body) (w, cache) upserts h =
      handle_project_create-Stays db rows saved writes queries P stable outside method session body
        (w, cache) h

  pub run-HoldsIn :
      (rs : List (Option Session × Request)) (s : State W)
      → All (λ (r : Option Session × Request). IfUpsert (UpsertKeeps db rows P) r.1) rs
      → HoldsIn s
      → HoldsIn (run db outside rs s)
  unfolding run
  run-HoldsIn [] s upserts h = h
  run-HoldsIn ((session, r) ∷ rs) s (u, us) h =
      run-HoldsIn rs (serve db outside session r s).1 us (serve-HoldsIn session r s u h)
