-- ===== src/Store/Memory.antt =====
-- A database in memory that obeys the laws of Store/Laws: the one of the examples. It models no code
-- of the program.
use maintainer_d.Base.{
  ℕ, suc, Text, ◌==◌, to_lower, Bool, true, false, eqb, length, ◌≡◌, refl, sym, subst, Option, none,
  some, List, [], ◌∷◌, ◌++◌, any, if◌then◌else◌, arith, eqb_iff,
}
use maintainer_d.Model.{Maintainer, Company, Project, StaffMember}
use maintainer_d.Store.{DbError, record_not_found, Answer, found, failed, Gorm, NewProject}
use maintainer_d.Store.Tables.{
  Tables, set_details, set_statuses, move_all, drop_company, add_maintainer, add_company, add_event,
  set_refs, set_maturities, find_row,
}
use maintainer_d.Store.Laws.{Queries, Writes, Transactions, IsRow}

pub record Memory : Type 0 where
  pub tables : Tables
  pub before : Tables
  pub staff : List StaffMember

abbrev pub now : Memory → Tables
now w = w.tables

abbrev pub before : Memory → Tables
before w = w.before

abbrev change_tables : (Tables → Tables) → Memory → Memory
change_tables f w = record w { tables = f w.tables }

abbrev answer : {A : Type 0} → Option A → Answer A
answer none = failed record_not_found
answer (some a) = found a

abbrev first : {A : Type 0} → (A → Bool) → List A → Option A
first p [] = none
first p (x ∷ xs) = if p x then some x else first p xs

abbrev row_of : Option Maintainer → List Maintainer → Answer Maintainer
row_of none ms = failed record_not_found
row_of (some m) ms = answer (find_row m.id ms)

abbrev after_body : Memory → Option DbError × Memory → Option DbError × Memory
after_body w (none, w') = (none, w')
after_body w (some e, w') = (some e, w)

abbrev or_create : Option Company → Memory → Answer Company × Memory
or_create (some c) w = (found c, w)
or_create none w =
    let c : Company = record { id = suc (length w.tables.companies); name = [] } in
    (found c, change_tables (add_company c) w)

abbrev new_company : Text → Memory → Answer Company × Memory
new_company name w =
    let c : Company = record { id = suc (length w.tables.companies); name = name } in
    (found c, change_tables (add_company c) w)

abbrev new_maintainer : Maintainer → Memory → Answer Maintainer × Memory
new_maintainer m w =
    let made = record m { id = suc (length w.tables.maintainers) } in
    (found made, change_tables (add_maintainer made) w)

abbrev project_row : NewProject → ℕ → Project
project_row p id = record {
  id = id;
  name = p.name;
  parent_project_id = p.parent_project_id;
  maturity = p.maturity;
  legacy_maintainer_ref = p.legacy_maintainer_ref;
  onboarding_issue = some p.onboarding_issue;
  mailing_list = none;
  maintainers = [];
}

abbrev new_project : NewProject → Memory → Answer ℕ × Memory
new_project p w =
    let id = suc (length w.tables.projects) in
    (found id, change_tables (λ t. record t { projects = t.projects ++ project_row p id ∷ [] }) w)

abbrev pub in_memory : Gorm Memory
in_memory = record {
  first_maintainer = λ id w. answer (find_row id w.tables.maintainers);
  first_maintainer_by_account = λ a w.
      row_of (first (λ (m : Maintainer). to_lower m.git_hub_account == a) w.tables.maintainers)
        w.tables.maintainers;
  first_maintainer_by_email = λ a w.
      row_of (first (λ (m : Maintainer). to_lower m.email == a) w.tables.maintainers)
        w.tables.maintainers;
  updates_maintainer = λ id d w. (found 1, change_tables (set_details id d) w);
  update_maintainer_status = λ ids s w. (found 1, change_tables (set_statuses ids s) w);
  update_maintainer_company = λ from to w. (found 1, change_tables (move_all from to) w);
  insert_maintainer = new_maintainer;
  append_project = λ m p w. (none, w);
  first_company = λ id w. answer (first (λ (c : Company). eqb c.id id) w.tables.companies);
  first_company_by_lower_name =
      λ name w. answer (first (λ (c : Company). to_lower c.name == name) w.tables.companies);
  first_or_create_company =
      λ name w. or_create (first (λ (c : Company). c.name == name) w.tables.companies) w;
  insert_company = new_company;
  delete_company = λ id w. (none, change_tables (drop_company id) w);
  find_companies = λ w. found w.tables.companies;
  count_maintainers = λ w. found [];
  maintainers_of_company = λ id w. found w.tables.maintainers;
  first_project = λ id w. answer (first (λ (p : Project). eqb p.id id) w.tables.projects);
  first_project_by_name =
      λ name w. answer (first (λ (p : Project). p.name == name) w.tables.projects);
  count_projects_like = λ url name w. found 0;
  update_maintainer_ref = λ id ref w. (found 1, change_tables (set_refs id ref) w);
  update_maturity = λ id m w. (found 1, change_tables (set_maturities id m) w);
  insert_project = new_project;
  first_staff = λ id w. answer (first (λ (s : StaffMember). eqb s.id id) w.staff);
  first_staff_by_account =
      λ a w. answer (first (λ (s : StaffMember). to_lower s.git_hub_account == a) w.staff);
  first_update_event = λ id w. failed record_not_found;
  insert_event = λ e w. (none, change_tables (add_event e) w);
  begin = λ w. (none, record w { before = w.tables });
  commit = λ w. (none, w);
  rollback = λ w. record w { tables = w.before };
  transaction = λ f w. after_body w (f w);
}

answer-found : {A : Type 0} (o : Option A) (a : A) → answer o ≡ found a → o ≡ some a
answer-found none a h = absurd (ground arith)
answer-found (some b) a h = ground arith

find_row-id : (id : ℕ) (ms : List Maintainer) (m : Maintainer) → find_row id ms ≡ some m → m.id ≡ id
find_row-id id [] m h = absurd (ground arith)
find_row-id id (n ∷ ms) m h = ground (arith, find_row-id id ms m, eqb_iff n.id id)

find_row-IsRow :
    (id : ℕ) (t : Tables) (m : Maintainer) → find_row id t.maintainers ≡ some m → IsRow m t
find_row-IsRow id t m h = (
  m,
  subst (λ i. find_row i t.maintainers ≡ some m) (sym (find_row-id id t.maintainers m h)) h,
  refl,
)

row_of-IsRow :
    (o : Option Maintainer) (t : Tables) (m : Maintainer)
    → row_of o t.maintainers ≡ found m
    → IsRow m t
row_of-IsRow none t m h = absurd (ground arith)
row_of-IsRow (some n) t m h =
    find_row-IsRow n.id t m (answer-found (find_row n.id t.maintainers) m h)

first-any :
    {A : Type 0} (p : A → Bool) (xs : List A) (a : A) → first p xs ≡ some a → any p xs ≡ true
first-any p [] a h = absurd (ground arith)
first-any p (x ∷ xs) a h = ground (arith, first-any p xs a)

first-none :
    {A : Type 0} (p : A → Bool) (xs : List A)
    → answer (first p xs) ≡ failed record_not_found
    → any p xs ≡ false
first-none p [] h = refl
first-none p (x ∷ xs) h = ground (arith, first-none p xs)

after_body-undoes :
    (w : Memory) (r : Option DbError × Memory) (e : DbError)
    → (after_body w r).0 ≡ some e
    → (after_body w r).1.tables ≡ w.tables
after_body-undoes w (none, w') e h = absurd (ground arith)
after_body-undoes w (some e', w') e h = refl

after_body-keeps :
    (w : Memory) (r : Option DbError × Memory)
    → (after_body w r).0 ≡ none
    → (r.0 ≡ none) × ((after_body w r).1.tables ≡ r.1.tables)
after_body-keeps w (none, w') h = (refl, refl)
after_body-keeps w (some e, w') h = absurd (ground arith)

or_create-maintainers :
    (o : Option Company) (w : Memory) → (or_create o w).1.tables.maintainers ≡ w.tables.maintainers
or_create-maintainers none w = refl
or_create-maintainers (some c) w = refl

or_create-before : (o : Option Company) (w : Memory) → (or_create o w).1.before ≡ w.before
or_create-before none w = refl
or_create-before (some c) w = refl

pub queries : Queries in_memory now before
queries = record {
  maintainer = λ id w m h.
      let row = answer-found (find_row id w.tables.maintainers) m h in
      (find_row-id id w.tables.maintainers m row, find_row-IsRow id w.tables m row);
  by_account = λ a w m h. row_of-IsRow _ w.tables m h;
  by_email = λ a w m h. row_of-IsRow _ w.tables m h;
  company =
      λ id w c h. first-any _ w.tables.companies c (answer-found (first _ w.tables.companies) c h);
  no_name = λ name w h. first-none _ w.tables.companies h;
}

pub writes : Writes in_memory now before
writes = record {
  details = λ id d w. refl;
  status = λ ids s w. refl;
  move = λ from to w. refl;
  company = λ name w. refl;
  delete = λ id w. refl;
  ref = λ id s w. refl;
  maturity = λ id s w. refl;
  event = λ e w. refl;
  project = λ p w. (refl, refl, refl);
  transaction = λ f w e h. after_body-undoes w (f w) e h;
  commits = λ f w h. let (success, same) = after_body-keeps w (f w) h in (w, refl, success, same);
}

pub transactions : Transactions in_memory now before
transactions = record {
  begin_rows = λ w. refl;
  begin_saved = λ w h. refl;
  commit = λ w. refl;
  rollback = λ w. refl;
  insert = λ m w. refl;
  insert_saved = λ m w. refl;
  company_rows = λ name w. or_create-maintainers _ w;
  company_saved = λ name w. or_create-before _ w;
  append_rows = λ m p w. refl;
  append_saved = λ m p w. refl;
}
