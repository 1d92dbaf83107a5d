-- ===== src/Web/Serve.antt =====
-- The requests that cmd/web-bff/main.go routes to the handlers that write, as its `mux` does once
-- requireSession has let them in. The state is the world with the database and the cache of issues;
-- of an answer only the status stays.
use maintainer_d.Base.{ℕ, Text, Option, List, [], ◌∷◌}
use maintainer_d.Auth.Stores.{Session}
use maintainer_d.Store.{Gorm}
use maintainer_d.Web.{
  Method, Reply, refused, no_content, ok, UpdateRequest, StatusRequest, MergeRequest, AddRequest,
  CreateRequest,
}
use maintainer_d.Web.Maintainer.{handle_maintainer, handle_maintainer_status_update}
use maintainer_d.Web.Company.{handle_companies, handle_company_merge}
use maintainer_d.Web.Project.{handle_project_patch}
use maintainer_d.Web.FromRef.{handle_maintainer_from_ref}
use maintainer_d.Web.Create.{Outside, handle_project_create}
use maintainer_d.Web.Issues.{IssueCache}

pub data Request : Type 0 where
  maintainer_request : Method → Text → Option UpdateRequest → Request
  status_request : Method → Option StatusRequest → Request
  from_ref_request : Method → Option AddRequest → Request
  companies_request : Method → Text → Option Text → Request
  merge_request : Method → Option MergeRequest → Request
  project_patch_request : Text → Option Text → Request
  project_create_request : Method → Option CreateRequest → Request

unfoldable pub code_of : {A : Type 0} → Reply A → ℕ
code_of (refused status message) = status
code_of no_content = 204
code_of (ok body) = 200

abbrev pub State : Type 0 → Type 0
State W = W × IssueCache

unfoldable pub with_cache : {A W : Type 0} → Reply A × W → IssueCache → ℕ × State W
unfolding code_of
with_cache (reply, w) cache = (code_of reply, (w, cache))

module _ {W : Type 0} (db : Gorm W) (outside : Outside) where
  unfoldable pub serve : Option Session → Request → State W → ℕ × State W
  unfolding with_cache code_of handle_maintainer handle_maintainer_status_update
      handle_maintainer_from_ref handle_companies handle_company_merge handle_project_patch
      handle_project_create
  serve session (maintainer_request method path body) (w, cache) =
      with_cache (handle_maintainer db method path session body w) cache
  serve session (status_request method body) (w, cache) =
      with_cache (handle_maintainer_status_update db method session body w) cache
  serve session (from_ref_request method body) (w, cache) =
      with_cache (handle_maintainer_from_ref db method session body w) cache
  serve session (companies_request method duplicates body) (w, cache) =
      with_cache (handle_companies db method duplicates session body w) cache
  serve session (merge_request method body) (w, cache) =
      with_cache (handle_company_merge db method session body w) cache
  serve session (project_patch_request path body) (w, cache) =
      with_cache (handle_project_patch db path session body w) cache
  serve session (project_create_request method body) (w, cache) =
      let (reply, state) = handle_project_create db outside method session body (w, cache) in
      (code_of reply, state)

  -- The requests one after the other.
  unfoldable pub run : List (Option Session × Request) → State W → State W
  unfolding serve
  run [] s = s
  run ((session, r) ∷ rs) s = run rs (serve session r s).1
