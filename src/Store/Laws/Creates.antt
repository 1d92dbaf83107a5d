-- ===== src/Store/Laws/Creates.antt =====
-- `CreateCompany` of db/store_impl.go.
use maintainer_d.Base.{
  Text, ◌==◌, to_lower, trim_space, false, ◌||◌, ◌≡◌, ◌≢◌, refl, List, [], ◌∷◌, ◌++◌, arith, eq_iff,
}
use maintainer_d.Model.{Company}
use maintainer_d.Store.{
  record_not_found, project_not_found, project_exists, company_exists, invalid, other, Answer,
  found, failed, Gorm,
}
use maintainer_d.Store.Companies.{create_company, create_trimmed, after_same_name}
use maintainer_d.Store.Tables.{Tables, add_company, has_name, Outcome}
use maintainer_d.Store.Laws.{Queries, Writes}

abbrev pub named : Text → Company → Company
named name c = record c { name = name }

abbrev pub CreateOutcome : Answer Company → Text → Tables → Tables → Type 0
CreateOutcome (failed e) name before after = after ≡ before
CreateOutcome (found c) name before after =
    (name ≢ [])
    × (has_name name before.companies ≡ false)
    × (after ≡ add_company (named name c) before)

-- No two companies have the same name up to case.
abbrev pub NamesDiffer : List Company → Type 0
NamesDiffer [] = Unit
NamesDiffer (c ∷ cs) = (has_name c.name cs ≡ false) × NamesDiffer cs

has_name-append :
    (name : Text) (cs : List Company) (c : Company)
    → has_name name (cs ++ c ∷ []) ≡ (has_name name cs || (to_lower c.name == to_lower name))
has_name-append name [] c = ground arith
has_name-append name (d ∷ cs) c = ground (arith, has_name-append name cs c)

pub NamesDiffer-append :
    (cs : List Company) (c : Company)
    → NamesDiffer cs
    → has_name c.name cs ≡ false
    → NamesDiffer (cs ++ c ∷ [])
NamesDiffer-append [] c h k = (refl, tt)
NamesDiffer-append (d ∷ cs) c (h, hs) k = (
  ground (
    arith,
    has_name-append d.name cs c,
    eq_iff (to_lower d.name) (to_lower c.name),
    eq_iff (to_lower c.name) (to_lower d.name),
  ),
  NamesDiffer-append cs c hs (ground arith),
)

module _ {W : Type 0} (db : Gorm W) (rows saved : W → Tables) (writes : Writes db rows saved) where
  insert-Outcome :
      (name : Text) (before : Tables) (r : Answer Company × W)
      → name ≢ []
      → has_name name before.companies ≡ false
      → Outcome r.0 before (λ c. add_company (named name c) before) (rows r.1)
      → CreateOutcome r.0 name before (rows r.1)
  insert-Outcome name before (failed e, w) ne new same = same
  insert-Outcome name before (found c, w) ne new same = (ne, new, same)

  after_same_name-Outcome :
      (name : Text) (a : Answer Company) (w : W)
      → name ≢ []
      → (a ≡ failed record_not_found → has_name name (rows w).companies ≡ false)
      → CreateOutcome
          (after_same_name db name a w).0
          name
          (rows w)
          (rows (after_same_name db name a w).1)
  unfolding after_same_name
  after_same_name-Outcome name (found c) w ne new = refl
  after_same_name-Outcome name (failed record_not_found) w ne new =
      insert-Outcome name (rows w) (db.insert_company name w) ne (new refl) (writes.company name w)
  after_same_name-Outcome name (failed project_not_found) w ne new = refl
  after_same_name-Outcome name (failed project_exists) w ne new = refl
  after_same_name-Outcome name (failed company_exists) w ne new = refl
  after_same_name-Outcome name (failed (invalid s)) w ne new = refl
  after_same_name-Outcome name (failed (other s)) w ne new = refl

  create_trimmed-Outcome :
      (name : Text) (w : W)
      → Queries db rows saved
      → CreateOutcome (create_trimmed db name w).0 name (rows w) (rows (create_trimmed db name w).1)
  unfolding create_trimmed
  create_trimmed-Outcome [] w queries = refl
  create_trimmed-Outcome (c ∷ s) w queries =
      after_same_name-Outcome (c ∷ s) (db.first_company_by_lower_name (to_lower (c ∷ s)) w) w
        (λ e. ground arith) (queries.no_name (c ∷ s) w)

  -- `create_company` either fails and leaves the tables as they were, or it adds one company with
  -- the trimmed name, which is not empty and which no company had before, in whatever case. This
  -- is so for a database that obeys the laws.
  pub create_company-Creates :
      (name : Text) (w : W)
      → Queries db rows saved
      → CreateOutcome
          (create_company db name w).0
          (trim_space name)
          (rows w)
          (rows (create_company db name w).1)
  unfolding create_company
  create_company-Creates name w queries = create_trimmed-Outcome (trim_space name) w queries
