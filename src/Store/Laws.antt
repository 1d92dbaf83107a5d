-- ===== src/Store/Laws.antt =====
-- What the program relies on of gorm and of the database, for the statements of `Store.Gorm`: a
-- write that fails changes nothing, a transaction that fails is undone, and a query answers with
-- rows of the tables. `rows` are the tables as the connection sees them and `saved` as they were
-- when the open transaction began.
pub mod Merge
pub mod Creates
pub mod Edits
pub mod Keeps
pub mod Upserts
use maintainer_d.Base.{ℕ, Text, to_lower, true, false, ◌≡◌, Option, none, some, List}
use maintainer_d.Model.{Maintainer, Company, Project}
use maintainer_d.Store.{
  DbError, record_not_found, Answer, found, failed, Details, AuditLog, Gorm, NewProject,
}
use maintainer_d.Store.Tables.{
  Tables, columns, set_details, set_statuses, move_all, drop_company, add_maintainer, add_company,
  add_event, set_refs, set_maturities, find_row, has_company, has_name, Outcome, OutcomeOf,
}

-- The row `m` is in the table, up to what comes from other tables.
abbrev pub IsRow : Maintainer → Tables → Type 0
IsRow m t =
    (row : Maintainer) × (find_row m.id t.maintainers ≡ some row) × (columns row ≡ columns m)

module _ {W : Type 0} (db : Gorm W) (rows saved : W → Tables) where
  pub record Queries : Type 0 where
    pub maintainer :
        (id : ℕ) (w : W) (m : Maintainer)
        → db.first_maintainer id w ≡ found m
        → (m.id ≡ id) × IsRow m (rows w)
    pub by_account :
        (a : Text) (w : W) (m : Maintainer)
        → db.first_maintainer_by_account a w ≡ found m
        → IsRow m (rows w)
    pub by_email :
        (a : Text) (w : W) (m : Maintainer)
        → db.first_maintainer_by_email a w ≡ found m
        → IsRow m (rows w)
    pub company :
        (id : ℕ) (w : W) (c : Company)
        → db.first_company id w ≡ found c
        → has_company id (rows w).companies ≡ true
    pub no_name :
        (name : Text) (w : W)
        → db.first_company_by_lower_name (to_lower name) w ≡ failed record_not_found
        → has_name name (rows w).companies ≡ false

  pub record Writes : Type 0 where
    pub details :
        (id : ℕ) (d : Details) (w : W)
        → Outcome
            (db.updates_maintainer id d w).0
            (rows w)
            (λ n. set_details id d (rows w))
            (rows (db.updates_maintainer id d w).1)
    pub status :
        (ids : List ℕ) (s : Text) (w : W)
        → Outcome
            (db.update_maintainer_status ids s w).0
            (rows w)
            (λ n. set_statuses ids s (rows w))
            (rows (db.update_maintainer_status ids s w).1)
    pub move :
        (from to : ℕ) (w : W)
        → Outcome
            (db.update_maintainer_company from to w).0
            (rows w)
            (λ n. move_all from to (rows w))
            (rows (db.update_maintainer_company from to w).1)
    pub company :
        (name : Text) (w : W)
        → Outcome
            (db.insert_company name w).0
            (rows w)
            (λ c. add_company (record c { name = name }) (rows w))
            (rows (db.insert_company name w).1)
    pub delete :
        (id : ℕ) (w : W)
        → OutcomeOf
            (db.delete_company id w).0
            (rows w)
            (drop_company id (rows w))
            (rows (db.delete_company id w).1)
    pub ref :
        (id : ℕ) (s : Text) (w : W)
        → Outcome
            (db.update_maintainer_ref id s w).0
            (rows w)
            (λ n. set_refs id s (rows w))
            (rows (db.update_maintainer_ref id s w).1)
    pub maturity :
        (id : ℕ) (s : Text) (w : W)
        → Outcome
            (db.update_maturity id s w).0
            (rows w)
            (λ n. set_maturities id s (rows w))
            (rows (db.update_maturity id s w).1)
    pub event :
        (e : AuditLog) (w : W)
        → OutcomeOf
            (db.insert_event e w).0
            (rows w)
            (add_event e (rows w))
            (rows (db.insert_event e w).1)
    pub project :
        (p : NewProject) (w : W)
        → ((rows (db.insert_project p w).1).maintainers ≡ (rows w).maintainers)
          × ((rows (db.insert_project p w).1).companies ≡ (rows w).companies)
          × ((rows (db.insert_project p w).1).events ≡ (rows w).events)
    pub transaction :
        (f : W → Option DbError × W) (w : W) (e : DbError)
        → (db.transaction f w).0 ≡ some e
        → rows (db.transaction f w).1 ≡ rows w
    pub commits :
        (f : W → Option DbError × W) (w : W)
        → (db.transaction f w).0 ≡ none
        → (w' : W) × (rows w' ≡ rows w)
          × ((f w').0 ≡ none)
          × (rows (db.transaction f w).1 ≡ rows (f w').1)

  pub record Transactions : Type 0 where
    pub begin_rows : (w : W) → rows (db.begin w).1 ≡ rows w
    pub begin_saved : (w : W) → (db.begin w).0 ≡ none → saved (db.begin w).1 ≡ rows w
    pub commit : (w : W) → OutcomeOf (db.commit w).0 (saved w) (rows w) (rows (db.commit w).1)
    pub rollback : (w : W) → rows (db.rollback w) ≡ saved w
    pub insert :
        (m : Maintainer) (w : W)
        → Outcome
            (db.insert_maintainer m w).0
            (rows w)
            (λ made. add_maintainer (record m { id = made.id }) (rows w))
            (rows (db.insert_maintainer m w).1)
    pub insert_saved : (m : Maintainer) (w : W) → saved (db.insert_maintainer m w).1 ≡ saved w
    pub company_rows :
        (name : Text) (w : W)
        → (rows (db.first_or_create_company name w).1).maintainers ≡ (rows w).maintainers
    pub company_saved :
        (name : Text) (w : W) → saved (db.first_or_create_company name w).1 ≡ saved w
    pub append_rows :
        (m p : ℕ) (w : W) → (rows (db.append_project m p w).1).maintainers ≡ (rows w).maintainers
    pub append_saved : (m p : ℕ) (w : W) → saved (db.append_project m p w).1 ≡ saved w
