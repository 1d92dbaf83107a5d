-- ===== src/Web/Run/Keeps.antt =====
-- Stable properties of the tables under the operations of the store that cmd/web-bff/main.go calls.
use maintainer_d.Base.{
  ℕ, zero, suc, Text, trim_space, Bool, true, false, not, ◌≡◌, refl, sym, subst, inl, inr, Option,
  none, some, List, [], ◌∷◌, if◌then◌else◌,
}
use maintainer_d.Model.{Maintainer, Company, status_is_valid}
use maintainer_d.Auth.Directory.{Role}
use maintainer_d.Auth.Stores.{Session}
use maintainer_d.Store.{
  DbError, project_not_found, Answer, found, failed, Gorm, AuditLog, NewProject,
}
use maintainer_d.Store.Companies.{
  create_company, merge_companies, some_row, update_project_legacy_maintainer_ref,
  update_project_maturity,
}
use maintainer_d.Store.Maintainers.{
  update_maintainer_details, update_maintainers_status, error_of, invalid_status, details_of,
}
use maintainer_d.Store.Tables.{
  Tables, Outcome-Has, OutcomeOf-Has, add_event, set_statuses, set_refs, set_maturities,
}
use maintainer_d.Store.Laws.{Queries, Writes}
use maintainer_d.Store.Laws.Merge.{MergeOutcome, merge_companies-Merges}
use maintainer_d.Store.Laws.Creates.{CreateOutcome, create_company-Creates}
use maintainer_d.Store.Laws.Edits.{EditOutcome, update_details-Edits}
use maintainer_d.Web.{Reply, for_staff, for_role}
use maintainer_d.Web.Actor.{log_event}
use maintainer_d.Web.Run.{IsStable}

module _ {A S : Type 0} (Q : S → Type 0) where
  for_role-Has :
      (role : Role) (f : S → Reply A × S) (s : S) → Q s → Q (f s).1 → Q (for_role role f s).1
  unfolding for_role
  for_role-Has Role.staff f s h k = k
  for_role-Has Role.maintainer f s h k = h

  pub for_staff-Has :
      (session : Option Session) (f : Session → S → Reply A × S) (s : S)
      → Q s
      → ((owner : Session) → Q (f owner s).1)
      → Q (for_staff session f s).1
  unfolding for_staff
  for_staff-Has none f s h k = h
  for_staff-Has (some owner) f s h k = for_role-Has owner.role (f owner) s h (k owner)

module _ {W : Type 0} (db : Gorm W) (rows saved : W → Tables) (writes : Writes db rows saved)
    (queries : Queries db rows saved) (P : Tables → Type 0) (stable : IsStable P) where
  abbrev pub Holds : W → Type 0
  Holds w = P (rows w)

  pub log_event-Holds : (e : AuditLog) (w : W) → Holds w → Holds (log_event db e w)
  unfolding log_event
  log_event-Holds e w h =
      OutcomeOf-Has P (db.insert_event e w).0 (rows w) (add_event e (rows w))
        (rows (db.insert_event e w).1) (writes.event e w) h (stable.event e (rows w) h)

  EditOutcome-Has :
      (a : Answer Maintainer) (id : ℕ) (name email github status : Text) (company : Option ℕ)
      (t t' : Tables)
      → EditOutcome a id (details_of name email github status company) t t'
      → P t
      → P t'
  EditOutcome-Has (failed e) id name email github status company t t' (inl same) h =
      subst P (sym same) h
  EditOutcome-Has (failed e) id name email github status company t t' (inr edit) h =
      stable.edit id name email github status company t t' edit h
  EditOutcome-Has (found m) id name email github status company t t' (edit, same, row) h =
      stable.edit id name email github status company t t' edit h

  pub update_maintainer_details-Holds :
      (id : ℕ) (name email github status : Text) (company : Option ℕ) (w : W)
      → Holds w
      → Holds (update_maintainer_details db id name email github status company w).1
  update_maintainer_details-Holds id name email github status company w h =
      EditOutcome-Has (update_maintainer_details db id name email github status company w).0 id name
        email github status company (rows w)
        (rows (update_maintainer_details db id name email github status company w).1)
        (update_details-Edits db rows saved writes id name email github status company w queries) h

  MergeOutcome-Has :
      (o : Option DbError) (from to : ℕ) (t t' : Tables) → MergeOutcome o from to t t' → P t → P t'
  MergeOutcome-Has none from to t t' merge h = stable.merge from to t t' merge h
  MergeOutcome-Has (some e) from to t t' same h = subst P (sym same) h

  pub merge_companies-Holds :
      (from to : ℕ) (w : W) → Holds w → Holds (merge_companies db from to w).1
  merge_companies-Holds from to w h =
      MergeOutcome-Has (merge_companies db from to w).0 from to (rows w)
        (rows (merge_companies db from to w).1)
        (merge_companies-Merges db rows saved writes from to w queries) h

  CreateOutcome-Has :
      (a : Answer Company) (name : Text) (t t' : Tables) → CreateOutcome a name t t' → P t → P t'
  CreateOutcome-Has (failed e) name t t' same h = subst P (sym same) h
  CreateOutcome-Has (found c) name t t' (ne, new, same) h =
      subst P (sym same) (stable.company name c t new h)

  pub create_company-Holds : (name : Text) (w : W) → Holds w → Holds (create_company db name w).1
  create_company-Holds name w h =
      CreateOutcome-Has (create_company db name w).0 (trim_space name) (rows w)
        (rows (create_company db name w).1)
        (create_company-Creates db rows saved writes name w queries) h

  error_of-state : (r : Answer ℕ × W) → (error_of db r).1 ≡ r.1
  unfolding error_of
  error_of-state (failed e, w) = refl
  error_of-state (found n, w) = refl

  some_row-state : (e : DbError) (r : Answer ℕ × W) → (some_row e r).1 ≡ r.1
  unfolding some_row
  some_row-state e (failed e', w) = refl
  some_row-state e (found zero, w) = refl
  some_row-state e (found (suc n), w) = refl

  update_rows-Holds :
      (ids : List ℕ) (s : Text) (w : W)
      → status_is_valid s ≡ true
      → Holds w
      → Holds (db.update_maintainer_status ids s w).1
  update_rows-Holds ids s w valid h =
      Outcome-Has P (db.update_maintainer_status ids s w).0 (rows w)
        (λ n. set_statuses ids s (rows w)) (rows (db.update_maintainer_status ids s w).1)
        (writes.status ids s w) h (λ n. stable.statuses ids s (rows w) valid h)

  if_valid-Holds :
      (b : Bool) (w : W) (r : Option DbError × W)
      → Holds w
      → (b ≡ true → Holds r.1)
      → Holds (if not b then (some invalid_status, w) else r).1
  if_valid-Holds true w r h k = k refl
  if_valid-Holds false w r h k = h

  pub update_maintainers_status-Holds :
      (ids : List ℕ) (s : Text) (w : W) → Holds w → Holds (update_maintainers_status db ids s w).1
  unfolding update_maintainers_status
  update_maintainers_status-Holds [] s w h = h
  update_maintainers_status-Holds (id ∷ ids) s w h =
      if_valid-Holds (status_is_valid s) w
        (error_of db (db.update_maintainer_status (id ∷ ids) s w)) h
        (λ valid.
          subst Holds (sym (error_of-state (db.update_maintainer_status (id ∷ ids) s w)))
            (update_rows-Holds (id ∷ ids) s w valid h))

  pub update_ref-Holds :
      (id : ℕ) (s : Text) (w : W)
      → Holds w
      → Holds (update_project_legacy_maintainer_ref db id s w).1
  unfolding update_project_legacy_maintainer_ref
  update_ref-Holds id s w h =
      subst Holds (sym (some_row-state project_not_found (db.update_maintainer_ref id s w))) (
        Outcome-Has P (db.update_maintainer_ref id s w).0 (rows w) (λ n. set_refs id s (rows w))
          (rows (db.update_maintainer_ref id s w).1) (writes.ref id s w) h
          (λ n. stable.refs id s (rows w) h))

  pub update_maturity-Holds :
      (id : ℕ) (s : Text) (w : W) → Holds w → Holds (update_project_maturity db id s w).1
  unfolding update_project_maturity
  update_maturity-Holds id s w h =
      subst Holds (sym (some_row-state project_not_found (db.update_maturity id s w))) (
        Outcome-Has P (db.update_maturity id s w).0 (rows w) (λ n. set_maturities id s (rows w))
          (rows (db.update_maturity id s w).1) (writes.maturity id s w) h
          (λ n. stable.maturities id s (rows w) h))

  pub insert_project-Holds : (p : NewProject) (w : W) → Holds w → Holds (db.insert_project p w).1
  insert_project-Holds p w h =
      let (maintainers, companies, events) = writes.project p w in
      stable.project (rows w) (rows (db.insert_project p w).1) maintainers companies h
