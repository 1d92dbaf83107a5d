-- ===== src/Web/Company.antt =====
-- handleCompanies, handleCompany and handleCompanyMerge of cmd/web-bff/main.go.
pub mod Groups
use maintainer_d.Base.{
  ℕ, Text, text, ◌==◌, to_lower, trim_space, equal_fold, eqb, Bool, true, false, ◌||◌, not, Option,
  none, some, List, [], ◌∷◌, ◌++◌, map, if◌then◌else◌,
}
use maintainer_d.Model.{Maintainer, Company, email_missing, github_missing}
use maintainer_d.Auth.Directory.{Role, staff, maintainer}
use maintainer_d.Auth.Stores.{Session}
use maintainer_d.Store.{
  DbError, company_exists, Answer, found, failed, Gorm, AuditLog, company_made,
}
use maintainer_d.Store.Companies.{create_company, merge_companies}
use maintainer_d.Web.{
  Method, get, post, patch, put, options, other_method, Reply, refused, no_content, ok, bad_request,
  forbidden, not_found, method_not_allowed, conflict, server_error, role_text, MergeRequest,
  for_staff,
}
use maintainer_d.Web.Params.{parse_id_param, normalize_value}
use maintainer_d.Web.Actor.{Actor, staff_actor, get_maintainer_by_login, log_event}
use maintainer_d.Web.Company.Groups.{CompanyDetail, Group, group_company_duplicates}

-- The body of an answer to GET /api/companies.
pub data CompanyList : Type 0 where
  detailed : List CompanyDetail → CompanyList
  grouped : List Group → CompanyList
  created : Company → CompanyList

-- `countMap[id]`: the last entry for the id, 0 if there is none.
unfoldable pub count_of : ℕ → ℕ → List (ℕ × ℕ) → ℕ
count_of id last [] = last
count_of id last ((k, n) ∷ counts) = count_of id (if eqb k id then n else last) counts

unfoldable pub details_of_companies : List (ℕ × ℕ) → List Company → List CompanyDetail
unfolding count_of trim_space ◌==◌
details_of_companies counts [] = []
details_of_companies counts (c ∷ cs) =
    let rest = details_of_companies counts cs in
    if trim_space c.name == []
    then rest
    else record { id = c.id; name = c.name; maintainer_count = count_of c.id 0 counts } ∷ rest

unfoldable pub list_body : Text → List CompanyDetail → CompanyList
unfolding group_company_duplicates equal_fold trim_space
list_body duplicates details =
    if equal_fold (trim_space duplicates) (text "true")
    then grouped (group_company_duplicates details)
    else detailed details

unfoldable pub list_failed : Reply CompanyList
list_failed = refused server_error (text "failed to load companies")

-- The actor of a new company: a member of the staff or a maintainer.
pub record Maker : Type 0 where
  pub staff_id : Option ℕ
  pub maintainer_id : Option ℕ
  pub name : Text

unfoldable pub as_staff : Actor → Maker
as_staff actor = record { staff_id = actor.staff_id; maintainer_id = none; name = actor.name }

unfoldable pub as_maintainer : Text → Answer Maintainer → Maker
unfolding trim_space ◌==◌
as_maintainer login (failed e) = record { staff_id = none; maintainer_id = none; name = login }
as_maintainer login (found m) = record {
  staff_id = none;
  maintainer_id = some m.id;
  name = if trim_space m.name == [] then login else m.name;
}

unfoldable pub company_event : Session → Maker → Company → AuditLog
unfolding role_text
company_event session maker c = record {
  project_id = none;
  maintainer_id = maker.maintainer_id;
  staff_id = maker.staff_id;
  action = text "COMPANY_CREATE";
  message = text "Company created by " ++ maker.name;
  metadata = company_made session.login (role_text session.role) c;
}

unfoldable pub create_error : DbError → Reply CompanyList
create_error company_exists = refused conflict (text "company already exists")
create_error e = refused bad_request (text "failed to create company")

-- A row of the answer to GET /api/companies/{id}.
pub record CompanyMaintainer : Type 0 where
  pub id : ℕ
  pub name : Text
  pub git_hub : Text
  pub email : Text

unfoldable pub company_maintainer : Maintainer → CompanyMaintainer
unfolding normalize_value trim_space
company_maintainer m = record {
  id = m.id;
  name = trim_space m.name;
  git_hub = normalize_value m.git_hub_account github_missing;
  email = normalize_value m.email email_missing;
}

module _ {W : Type 0} (db : Gorm W) where
  unfoldable pub after_counts : Text → List Company → Answer (List (ℕ × ℕ)) → Reply CompanyList
  unfolding list_failed list_body details_of_companies
  after_counts duplicates cs (failed e) = list_failed
  after_counts duplicates cs (found counts) =
      ok (list_body duplicates (details_of_companies counts cs))

  unfoldable pub after_companies : Text → Answer (List Company) → W → Reply CompanyList
  unfolding after_counts list_failed
  after_companies duplicates (failed e) w = list_failed
  after_companies duplicates (found cs) w = after_counts duplicates cs (db.count_maintainers w)

  unfoldable pub maker_of : Session → Role → W → Maker
  unfolding as_staff as_maintainer staff_actor get_maintainer_by_login
  maker_of session Role.staff w = as_staff (staff_actor db session.login w)
  maker_of session Role.maintainer w =
      as_maintainer session.login (get_maintainer_by_login db session.login w)

  unfoldable pub after_create : Session → Answer Company × W → Reply CompanyList × W
  unfolding create_error company_event maker_of log_event
  after_create session (failed e, w) = (create_error e, w)
  after_create session (found c, w) =
      (ok (created c), log_event db (company_event session (maker_of session session.role w) c) w)

  unfoldable pub create_named : Session → Option Text → W → Reply CompanyList × W
  unfolding after_create create_company
  create_named session none w = (refused bad_request (text "invalid request"), w)
  create_named session (some name) w = after_create session (create_company db name w)

  unfoldable pub companies_by_method :
      Method → Text → Session → Option Text → W → Reply CompanyList × W
  unfolding after_companies create_named
  companies_by_method get duplicates session body w =
      (after_companies duplicates (db.find_companies w) w, w)
  companies_by_method post duplicates session body w = create_named session body w
  companies_by_method _ duplicates session body w =
      (refused method_not_allowed (text "method not allowed"), w)

  -- Both roles may list and create; the body is the name.
  unfoldable pub handle_companies :
      Method → Text → Option Session → Option Text → W → Reply CompanyList × W
  unfolding companies_by_method
  handle_companies method duplicates none body w = (refused forbidden (text "forbidden"), w)
  handle_companies method duplicates (some session) body w =
      companies_by_method method duplicates session body w

  unfoldable pub after_maintainers :
      Company → Answer (List Maintainer) → Reply (Company × List CompanyMaintainer)
  unfolding company_maintainer
  after_maintainers c (failed e) = refused server_error (text "failed to load maintainers")
  after_maintainers c (found ms) = ok (c, map company_maintainer ms)

  unfoldable pub after_first_company :
      ℕ → Answer Company → W → Reply (Company × List CompanyMaintainer)
  unfolding after_maintainers
  after_first_company id (failed e) w = refused not_found (text "company not found")
  after_first_company id (found c) w = after_maintainers c (db.maintainers_of_company id w)

  unfoldable pub company_by_id :
      Option ℕ → Option Session → W → Reply (Company × List CompanyMaintainer) × W
  unfolding after_first_company for_staff
  company_by_id none session w = (refused bad_request (text "invalid company id"), w)
  company_by_id (some id) session w =
      for_staff session (λ owner w. (after_first_company id (db.first_company id w) w, w)) w

  unfoldable pub handle_company :
      Method → Text → Option Session → W → Reply (Company × List CompanyMaintainer) × W
  unfolding company_by_id parse_id_param
  handle_company options path session w = (no_content, w)
  handle_company get path session w =
      company_by_id (parse_id_param path (text "/api/companies/")) session w
  handle_company _ path session w = (refused method_not_allowed (text "method not allowed"), w)

  unfoldable pub merge_reply : Option DbError × W → Reply Unit × W
  merge_reply (some e, w) = (refused bad_request (text "failed to merge companies"), w)
  merge_reply (none, w) = (ok tt, w)

  unfoldable pub merge_requested : Option MergeRequest → W → Reply Unit × W
  unfolding merge_reply merge_companies
  merge_requested none w = (refused bad_request (text "invalid request"), w)
  merge_requested (some req) w =
      if eqb req.from_id 0 || eqb req.to_id 0 || eqb req.from_id req.to_id
      then (refused bad_request (text "invalid ids"), w)
      else merge_reply (merge_companies db req.from_id req.to_id w)

  unfoldable pub handle_company_merge :
      Method → Option Session → Option MergeRequest → W → Reply Unit × W
  unfolding for_staff merge_requested
  handle_company_merge options session body w = (no_content, w)
  handle_company_merge post session body w = for_staff session (λ owner w. merge_requested body w) w
  handle_company_merge _ session body w =
      (refused method_not_allowed (text "method not allowed"), w)
