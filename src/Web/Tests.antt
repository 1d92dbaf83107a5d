-- ===== src/Web/Tests.antt =====
-- Runs of the handlers on a database in memory.
use maintainer_d.Base.{
  ◌≤◌, text, ◌==◌, to_lower, length, ◌≡◌, ◌≢◌, refl, ap, true, false, ◌||◌, any, Option, none, some,
  List, [], ◌∷◌, ◌++◌, All, arith,
}
use maintainer_d.Base.Decimal.{itoa}
use maintainer_d.Auth.Directory.{Role}
use maintainer_d.Auth.Stores.{Session}
use maintainer_d.Model.{status_is_valid}
use maintainer_d.Store.Memory.{Memory, in_memory, now, before, queries, writes, transactions}
use maintainer_d.Store.Tests.{memory, ann, bob}
use maintainer_d.Store.Laws.Keeps.{Complete}
use maintainer_d.Web.{post, patch, ok, UpdateRequest, CreateRequest}
use maintainer_d.Web.Params.{parse_int_param, parse_id_param, parse_csv_param}
use maintainer_d.Web.Params.Bounds.{parse_int_param-bounds, parse_id_param-IsId, IsId}
use maintainer_d.Web.Params.Paths.{parse_id_param-itoa}
use maintainer_d.Web.Maintainer.{handle_maintainer}
use maintainer_d.Web.Create.{Outside, Created, handle_project_create}
use maintainer_d.Web.Issues.{Issue, IssueCache, get_onboarding_issues}
use maintainer_d.Web.Issues.Cache.{IsNew, create-IsNew}
use maintainer_d.Web.Serve.{
  Request, maintainer_request, companies_request, merge_request, State, serve, run,
}
use maintainer_d.Web.Entitled.{IsEntitled}
use maintainer_d.Web.Entitled.Serves.{serve-OnlyEntitled}
use maintainer_d.Web.Run.Invariants.{run-Complete, run-CompaniesDiffer, CompaniesDiffer}
use maintainer_d.Web.SelfEdit.{SelfOutcome, handle_maintainer-OnlyOwn}
use maintainer_d.Web.Summary.{summary_key, kept, summarize_maintainers}
use maintainer_d.Web.Summary.Distinct.{KeysDiffer, kept-Distinct}

abbrev as_carol : Session
as_carol = record {
  id = text "s1";
  login = text "carol";
  role = Role.staff;
  created_at = 0;
  expires_at = 100;
}

abbrev as_ann : Session
as_ann = record as_carol { login = text "ann"; role = Role.maintainer }

abbrev outside : Outside
outside = record {
  parse_url = λ raw. some (text "github.com", text "/cncf/sandbox/issues/12");
  configured = true;
  title_of = λ owner repo n. some (text "[PROJECT ONBOARDING] Foo");
}

abbrev empty_cache : IssueCache
empty_cache = record { expires = 0; raw = []; issues = [] }

abbrev state : State Memory
state = (memory, empty_cache)

abbrev update : UpdateRequest
update = record {
  name = text "Someone";
  email = text " a@b.io ";
  git_hub = text "other";
  status = text "Archived";
  company_id = some 2;
}

reads_limit : parse_int_param (text "900") 20 1 200 ≡ 200
unfolding parse_int_param
reads_limit = refl

reads_list : parse_csv_param (text "a, b,, " ∷ []) ≡ text "a" ∷ text "b" ∷ []
unfolding parse_csv_param ◌==◌
reads_list = refl

parse_int_param-bounds_example :
    (1 ≤ parse_int_param (text "-4") 20 1 200) × (parse_int_param (text "-4") 20 1 200 ≤ 200)
parse_int_param-bounds_example =
    parse_int_param-bounds (text "-4") 20 1 200 (omega arith) (omega arith)

parse_id_param-IsId_example :
    IsId (parse_id_param (text "/api/projects/12/") (text "/api/projects/"))
parse_id_param-IsId_example = parse_id_param-IsId (text "/api/projects/12/") (text "/api/projects/")

parse_id_param-itoa_example :
    parse_id_param (text "/api/projects/" ++ itoa 12) (text "/api/projects/") ≡ some 12
parse_id_param-itoa_example =
    parse_id_param-itoa (text "/api/projects/") 12 (omega arith) (omega arith)

abbrev new_company : Request
new_company = companies_request post [] (some (text "Gamma"))

new_company-changes : (serve in_memory outside (some as_ann) new_company state).1 ≢ state
unfolding serve ◌==◌
new_company-changes = λ e. ground (arith, ap (λ (s : State Memory). length s.0.tables.companies) e)

serve-OnlyEntitled_example :
    (owner : Session) × (some as_ann ≡ some owner) × IsEntitled in_memory memory owner new_company
serve-OnlyEntitled_example =
    serve-OnlyEntitled in_memory outside (some as_ann) new_company state new_company-changes

abbrev requests : List (Option Session × Request)
requests =
    (some as_ann, maintainer_request patch (text "/api/maintainers/7") (some update))
    ∷ (some as_carol, merge_request post (some record { from_id = 1; to_id = 2 }))
    ∷ (some as_ann, new_company)
    ∷ []

run-Complete_example : Complete (run in_memory outside requests state).0.tables
unfolding status_is_valid ◌==◌
run-Complete_example =
    run-Complete in_memory now before writes queries transactions outside requests state (
      (refl, λ e. ground arith, λ e. ground arith),
      ((refl, λ e. ground arith, λ e. ground arith), tt),
    )

run-CompaniesDiffer_example : CompaniesDiffer (run in_memory outside requests state).0.tables
unfolding ◌==◌ to_lower
run-CompaniesDiffer_example =
    run-CompaniesDiffer in_memory now before writes queries outside requests state
      (tt, (tt, (tt, tt))) (refl, (refl, tt))

handle_maintainer-OnlyOwn_example :
    SelfOutcome in_memory now before writes queries
      (parse_id_param (text "/api/maintainers/7") (text "/api/maintainers/"))
      as_ann
      (some update)
      memory
      (handle_maintainer in_memory patch
        (text "/api/maintainers/7")
        (some as_ann)
        (some update)
        memory).1
handle_maintainer-OnlyOwn_example =
    handle_maintainer-OnlyOwn in_memory now before writes queries patch (text "/api/maintainers/7")
      as_ann (some update) memory refl

abbrev creation : CreateRequest
creation = record {
  onboarding_issue = text "https://github.com/cncf/sandbox/issues/12";
  project_name = [];
  git_hub_org = [];
  legacy_maintainer_ref = text "https://github.com/cncf/sandbox/OWNERS";
  dot_project_yaml_ref = [];
  parent_project_id = none;
  maturity = [];
}

abbrev old_issue : Issue
old_issue = record { number = 9; title = text "t"; url = text "u"; project_name = text "Bar" }

abbrev old_cache : IssueCache
old_cache = record { expires = 1000; raw = old_issue ∷ []; issues = old_issue ∷ [] }

abbrev foo : Created
foo = record { id = 1; name = text "Foo"; maturity = text "Sandbox"; git_hub_org = text "cncf" }

creates :
    (handle_project_create in_memory outside post
      (some as_carol)
      (some creation)
      (memory, old_cache)).0
    ≡ ok foo
unfolding handle_project_create ◌==◌
creates = refl

abbrev created_state : State Memory
created_state =
    (handle_project_create in_memory outside post (some as_carol) (some creation)
      (memory, old_cache)).1

lists :
    (get_onboarding_issues in_memory 5 (some (old_issue ∷ [])) created_state.0 created_state.1).0
    ≡ some (old_issue ∷ [])
unfolding handle_project_create get_onboarding_issues ◌==◌
lists = refl

create-IsNew_example : All (IsNew in_memory created_state.0) (old_issue ∷ [])
create-IsNew_example =
    create-IsNew in_memory outside post (some as_carol) (some creation) (memory, old_cache) foo 5
      (some (old_issue ∷ [])) (old_issue ∷ []) creates lists

summarize_twice :
    summarize_maintainers (ann ∷ record ann { name = text " Ann "; id = 9 } ∷ bob ∷ [])
    ≡ summarize_maintainers (ann ∷ bob ∷ [])
unfolding summarize_maintainers
summarize_twice = refl

kept-Distinct_example :
    KeysDiffer (kept [] (ann ∷ ann ∷ bob ∷ []))
    × All (λ m. (summary_key m == text "|") ≡ false) (kept [] (ann ∷ ann ∷ bob ∷ []))
    × All
        (λ m.
          (summary_key m == text "|"
            || any (λ n. summary_key n == summary_key m) (kept [] (ann ∷ ann ∷ bob ∷ [])))
          ≡ true)
        (ann ∷ ann ∷ bob ∷ [])
kept-Distinct_example = kept-Distinct (ann ∷ ann ∷ bob ∷ [])
