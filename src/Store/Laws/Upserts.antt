-- ===== src/Store/Laws/Upserts.antt =====
-- `UpsertMaintainer` of db/store_impl.go and the completeness of the maintainers' rows.
use maintainer_d.Base.{
  ℕ, Text, ◌==◌, to_lower, ◌≡◌, refl, sym, subst, Option, none, some, [], ◌∷◌, All, All-append,
}
use maintainer_d.Model.{
  Maintainer, Company, Project, email_missing, github_missing, status_is_valid,
}
use maintainer_d.Store.{
  DbError, record_not_found, project_not_found, project_exists, company_exists, invalid, other,
  Answer, found, failed, Gorm,
}
use maintainer_d.Store.Upsert.{
  Incoming, fresh_maintainer, upsert_maintainer, after_begin, after_upsert_project, by_account,
  after_account, by_email, after_email, with_row, after_company_row, with_company, after_insert,
  after_append, after_commit, fail, final_name, final_text, final_status, final_company,
}
use maintainer_d.Store.Companies.{project_error}
use maintainer_d.Store.Tables.{Tables, Outcome-Has, OutcomeOf-Has, add_maintainer}
use maintainer_d.Store.Laws.{Queries, Writes, Transactions}
use maintainer_d.Store.Laws.Keeps.{
  IsComplete, Complete, update_maintainer_details-Complete, normalize_or_sentinel-ne,
  email_missing-ne, github_missing-ne,
}

fresh_maintainer-IsComplete :
    (args : Incoming) (company : Option Company) (id : ℕ)
    → IsComplete (record (fresh_maintainer args company) { id = id })
unfolding fresh_maintainer status_is_valid ◌==◌
fresh_maintainer-IsComplete args company id = (
  refl,
  normalize_or_sentinel-ne args.email email_missing email_missing-ne,
  normalize_or_sentinel-ne args.github github_missing github_missing-ne,
)

module _ {W : Type 0} (db : Gorm W) (rows saved : W → Tables) (writes : Writes db rows saved)
    (queries : Queries db rows saved) (transactions : Transactions db rows saved)
    (args : Incoming) where
  abbrev Ready : W → Type 0
  Ready w = Complete (rows w) × Complete (saved w)

  fail-Complete : (e : DbError) (w : W) → Ready w → Complete (rows (fail db args e w).1)
  unfolding fail
  fail-Complete e w (now, before) = subst Complete (sym (transactions.rollback w)) before

  after_commit-Complete :
      (m : Maintainer) (company : Option Company) (r : Option DbError × W)
      → Complete (rows r.1)
      → Complete (rows (after_commit db args m company r).1)
  unfolding after_commit
  after_commit-Complete m company (some e, w) h = h
  after_commit-Complete m company (none, w) h =
      update_maintainer_details-Complete db rows saved writes queries m.id (final_name m args.name)
        (final_text email_missing m.email args.email)
        (final_text github_missing m.git_hub_account args.github) (final_status m.maintainer_status)
        (final_company m.company_id company) w h

  after_append-Complete :
      (m : Maintainer) (company : Option Company) (r : Option DbError × W)
      → Ready r.1
      → Complete (rows (after_append db args m company r).1)
  unfolding after_append
  after_append-Complete m company (some e, w) h = fail-Complete e w h
  after_append-Complete m company (none, w) (now, before) =
      after_commit-Complete m company (db.commit w) (
        OutcomeOf-Has Complete (db.commit w).0 (saved w) (rows w) (rows (db.commit w).1)
          (transactions.commit w) before now)

  after_insert-Complete :
      (company : Option Company) (r : Answer Maintainer × W)
      → Ready r.1
      → Complete (rows (after_insert db args company r).1)
  unfolding after_insert
  after_insert-Complete company (failed e, w) h = fail-Complete e w h
  after_insert-Complete company (found m, w) (now, before) =
      after_append-Complete m company (db.append_project m.id args.project_id w) (
        subst (All IsComplete) (sym (transactions.append_rows m.id args.project_id w)) now,
        subst Complete (sym (transactions.append_saved m.id args.project_id w)) before,
      )

  with_company-Complete :
      (m : Option Maintainer) (company : Option Company) (w : W)
      → Ready w
      → Complete (rows (with_company db args m company w).1)
  unfolding with_company
  with_company-Complete (some m) company w h = after_insert-Complete company (found m, w) h
  with_company-Complete none company w (now, before) =
      let fresh = fresh_maintainer args company in
      after_insert-Complete company (db.insert_maintainer fresh w) (
        Outcome-Has Complete (db.insert_maintainer fresh w).0 (rows w)
            (λ made. add_maintainer (record fresh { id = made.id }) (rows w))
            (rows (db.insert_maintainer fresh w).1) (transactions.insert fresh w) now
            (λ made.
              All-append IsComplete (rows w).maintainers (record fresh { id = made.id } ∷ []) now
                (fresh_maintainer-IsComplete args company made.id, tt)),
        subst Complete (sym (transactions.insert_saved fresh w)) before,
      )

  after_company_row-Complete :
      (m : Option Maintainer) (r : Answer Company × W)
      → Ready r.1
      → Complete (rows (after_company_row db args m r).1)
  unfolding after_company_row
  after_company_row-Complete m (failed e, w) h = fail-Complete e w h
  after_company_row-Complete m (found c, w) h = with_company-Complete m (some c) w h

  with_row-Complete :
      (m : Option Maintainer) (company : Text) (w : W)
      → Ready w
      → Complete (rows (with_row db args m company w).1)
  unfolding with_row
  with_row-Complete m [] w h = with_company-Complete m none w h
  with_row-Complete m (c ∷ s) w (now, before) =
      after_company_row-Complete m (db.first_or_create_company (c ∷ s) w) (
        subst (All IsComplete) (sym (transactions.company_rows (c ∷ s) w)) now,
        subst Complete (sym (transactions.company_saved (c ∷ s) w)) before,
      )

  -- Both look-ups go on after a row or none, and fail on another error.
  after_email-Complete :
      (a : Answer Maintainer) (w : W) → Ready w → Complete (rows (after_email db args a w).1)
  unfolding after_email
  after_email-Complete (found m) w h = with_row-Complete (some m) args.company w h
  after_email-Complete (failed record_not_found) w h = with_row-Complete none args.company w h
  after_email-Complete (failed project_not_found) w h = fail-Complete project_not_found w h
  after_email-Complete (failed project_exists) w h = fail-Complete project_exists w h
  after_email-Complete (failed company_exists) w h = fail-Complete company_exists w h
  after_email-Complete (failed (invalid s)) w h = fail-Complete (invalid s) w h
  after_email-Complete (failed (other s)) w h = fail-Complete (other s) w h

  by_email-Complete :
      (email : Text) (w : W) → Ready w → Complete (rows (by_email db args email w).1)
  unfolding by_email
  by_email-Complete [] w h = with_row-Complete none args.company w h
  by_email-Complete (c ∷ s) w h =
      after_email-Complete (db.first_maintainer_by_email (to_lower (c ∷ s)) w) w h

  after_account-Complete :
      (a : Answer Maintainer) (w : W) → Ready w → Complete (rows (after_account db args a w).1)
  unfolding after_account
  after_account-Complete (found m) w h = with_row-Complete (some m) args.company w h
  after_account-Complete (failed record_not_found) w h = by_email-Complete args.email w h
  after_account-Complete (failed project_not_found) w h = fail-Complete project_not_found w h
  after_account-Complete (failed project_exists) w h = fail-Complete project_exists w h
  after_account-Complete (failed company_exists) w h = fail-Complete company_exists w h
  after_account-Complete (failed (invalid s)) w h = fail-Complete (invalid s) w h
  after_account-Complete (failed (other s)) w h = fail-Complete (other s) w h

  by_account-Complete :
      (account : Text) (w : W) → Ready w → Complete (rows (by_account db args account w).1)
  unfolding by_account
  by_account-Complete [] w h = by_email-Complete args.email w h
  by_account-Complete (c ∷ s) w h =
      after_account-Complete (db.first_maintainer_by_account (to_lower (c ∷ s)) w) w h

  after_upsert_project-Complete :
      (a : Answer Project) (w : W) → Ready w → Complete (rows (after_upsert_project db args a w).1)
  unfolding after_upsert_project
  after_upsert_project-Complete (failed e) w h = fail-Complete (project_error e) w h
  after_upsert_project-Complete (found p) w h = by_account-Complete args.github w h

  after_begin-Complete :
      (r : Option DbError × W)
      → Complete (rows r.1)
      → (r.0 ≡ none → Complete (saved r.1))
      → Complete (rows (after_begin db args r).1)
  unfolding after_begin
  after_begin-Complete (some e, w) now before = now
  after_begin-Complete (none, w) now before =
      after_upsert_project-Complete (db.first_project args.project_id w) w (now, before refl)

  pub upsert_maintainer-Complete :
      (w : W) → Complete (rows w) → Complete (rows (upsert_maintainer db args w).1)
  unfolding upsert_maintainer
  upsert_maintainer-Complete w h =
      after_begin-Complete (db.begin w) (subst Complete (sym (transactions.begin_rows w)) h)
        (λ began. subst Complete (sym (transactions.begin_saved w began)) h)
