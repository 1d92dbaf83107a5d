-- ===== src/Store/Tables.antt =====
-- The database as its tables: what the statements of `Store.Gorm` do to the rows, and the tests on
-- the rows. It models no code of the program: the laws of the statements are stated with it.
use maintainer_d.Base.{
  arith, ℕ, Text, ◌==◌, to_lower, Bool, eqb, ◌≡◌, sym, subst, Option, none, some, List, [], ◌∷◌,
  ◌++◌, map, any, if◌then◌else◌,
}
use maintainer_d.Model.{Maintainer, Company, Project}
use maintainer_d.Store.{DbError, Answer, found, failed, Details, AuditLog}

-- The rows that are not deleted.
pub record Tables : Type 0 where
  pub maintainers : List Maintainer
  pub companies : List Company
  pub projects : List Project
  pub events : List AuditLog

-- A row without the texts that come from other tables.
abbrev pub columns : Maintainer → Maintainer
columns m = record m { company = [] }

abbrev pub set_columns : ℕ → Details → Maintainer → Maintainer
set_columns id d m =
    if eqb m.id id
    then record m {
      name = d.name;
      email = d.email;
      git_hub_account = d.git_hub_account;
      maintainer_status = d.maintainer_status;
      company_id = d.company_id;
    }
    else m

abbrev pub set_details : ℕ → Details → Tables → Tables
set_details id d t = record t { maintainers = map (set_columns id d) t.maintainers }

abbrev pub set_status : List ℕ → Text → Maintainer → Maintainer
set_status ids s m = if any (eqb m.id) ids then record m { maintainer_status = s } else m

abbrev pub set_statuses : List ℕ → Text → Tables → Tables
set_statuses ids s t = record t { maintainers = map (set_status ids s) t.maintainers }

abbrev pub move_id : ℕ → ℕ → Option ℕ → Option ℕ
move_id from to none = none
move_id from to (some id) = if eqb id from then some to else some id

abbrev pub move : ℕ → ℕ → Maintainer → Maintainer
move from to m = record m { company_id = move_id from to m.company_id }

abbrev pub move_all : ℕ → ℕ → Tables → Tables
move_all from to t = record t { maintainers = map (move from to) t.maintainers }

abbrev pub without : ℕ → List Company → List Company
without id [] = []
without id (c ∷ cs) = if eqb c.id id then without id cs else c ∷ without id cs

abbrev pub drop_company : ℕ → Tables → Tables
drop_company id t = record t { companies = without id t.companies }

abbrev pub add_maintainer : Maintainer → Tables → Tables
add_maintainer m t = record t { maintainers = t.maintainers ++ m ∷ [] }

abbrev pub add_company : Company → Tables → Tables
add_company c t = record t { companies = t.companies ++ c ∷ [] }

abbrev pub add_event : AuditLog → Tables → Tables
add_event e t = record t { events = t.events ++ e ∷ [] }

abbrev pub set_ref : ℕ → Text → Project → Project
set_ref id ref p = if eqb p.id id then record p { legacy_maintainer_ref = ref } else p

abbrev pub set_refs : ℕ → Text → Tables → Tables
set_refs id ref t = record t { projects = map (set_ref id ref) t.projects }

abbrev pub set_maturity : ℕ → Text → Project → Project
set_maturity id maturity p = if eqb p.id id then record p { maturity = maturity } else p

abbrev pub set_maturities : ℕ → Text → Tables → Tables
set_maturities id maturity t = record t { projects = map (set_maturity id maturity) t.projects }

abbrev pub find_row : ℕ → List Maintainer → Option Maintainer
find_row id [] = none
find_row id (m ∷ ms) = if eqb m.id id then some m else find_row id ms

abbrev pub has_company : ℕ → List Company → Bool
has_company id cs = any (λ (c : Company). eqb c.id id) cs

abbrev pub has_name : Text → List Company → Bool
has_name name cs = any (λ (c : Company). to_lower c.name == to_lower name) cs

-- What a write with this answer makes of the tables: an error leaves them as they are.
abbrev pub Outcome : {A : Type 0} → Answer A → Tables → (A → Tables) → Tables → Type 0
Outcome (failed e) before after t = t ≡ before
Outcome (found a) before after t = t ≡ after a

abbrev pub OutcomeOf : Option DbError → Tables → Tables → Tables → Type 0
OutcomeOf (some e) before after t = t ≡ before
OutcomeOf none before after t = t ≡ after

pub on_success :
    (o : Option DbError) (before after t : Tables)
    → o ≡ none
    → OutcomeOf o before after t
    → t ≡ after
on_success none before after t h same = same
on_success (some e) before after t h same = absurd (ground arith)

pub on_failure :
    (o : Option DbError) (before after t : Tables) (e : DbError)
    → o ≡ some e
    → OutcomeOf o before after t
    → t ≡ before
on_failure none before after t e h same = absurd (ground arith)
on_failure (some e') before after t e h same = same

pub Outcome-Has :
    {A : Type 0} (P : Tables → Type 0) (a : Answer A) (before : Tables) (after : A → Tables)
    (t : Tables)
    → Outcome a before after t
    → P before
    → ((x : A) → P (after x))
    → P t
Outcome-Has P (failed e) before after t same p q = subst P (sym same) p
Outcome-Has P (found a) before after t same p q = subst P (sym same) (q a)

pub OutcomeOf-Has :
    (P : Tables → Type 0) (o : Option DbError) (before after t : Tables)
    → OutcomeOf o before after t
    → P before
    → P after
    → P t
OutcomeOf-Has P (some e) before after t same p q = subst P (sym same) p
OutcomeOf-Has P none before after t same p q = subst P (sym same) q
