-- ===== src/Store/Laws/Edits.antt =====
-- `UpdateMaintainerDetails` of db/store_impl.go.
use maintainer_d.Base.{
  ℕ, Text, text, ◌==◌, trim_space, [], ◌∷◌, Bool, true, false, not, ◌≡◌, refl, sym, subst, ◌⊎◌, inl,
  inr, Option, none, some, if◌then◌else◌,
}
use maintainer_d.Model.{Maintainer, Company, status_is_valid}
use maintainer_d.Store.{Answer, found, failed, Details, Gorm}
use maintainer_d.Store.Maintainers.{
  update_maintainer_details, write_details, after_company, after_updates, details_of,
  normalize_or_sentinel, or_sentinel, invalid_status,
}
use maintainer_d.Store.Tables.{Tables, set_details, has_company, Outcome}
use maintainer_d.Store.Laws.{Queries, Writes, IsRow}

abbrev pub Exists : Option ℕ → Tables → Type 0
Exists none t = Unit
Exists (some id) t = has_company id t.companies ≡ true

-- The row with the number `id` got the details, and its status and company are good.
abbrev pub IsEdit : ℕ → Details → Tables → Tables → Type 0
IsEdit id d before after =
    (status_is_valid d.maintainer_status ≡ true)
    × Exists d.company_id before
    × (after ≡ set_details id d before)

-- An error comes before the update or from the query after it.
abbrev pub EditOutcome : Answer Maintainer → ℕ → Details → Tables → Tables → Type 0
EditOutcome (failed e) id d before after = (after ≡ before) ⊎ IsEdit id d before after
EditOutcome (found m) id d before after = IsEdit id d before after × (m.id ≡ id) × IsRow m after

-- The trimmed text, or a placeholder for one that is empty.
abbrev pub trimmed_or : Text → Text → Text
trimmed_or placeholder s = if trim_space s == [] then placeholder else trim_space s

-- What an edit is to write: a missing email or account becomes its placeholder.
abbrev pub trimmed_details : Text → Text → Text → Text → Option ℕ → Details
trimmed_details name email github status company = record {
  name = trim_space name;
  email = trimmed_or (text "EMAIL_MISSING") email;
  git_hub_account = trimmed_or (text "GITHUB_MISSING") github;
  maintainer_status = status;
  company_id = company;
}

or_sentinel-eq : (sentinel s : Text) → or_sentinel sentinel s ≡ (if s == [] then sentinel else s)
unfolding ◌==◌
or_sentinel-eq sentinel [] = refl
or_sentinel-eq sentinel (c ∷ s) = refl

details_of-eq :
    (name email github status : Text) (company : Option ℕ)
    → details_of name email github status company ≡ trimmed_details name email github status company
unfolding details_of normalize_or_sentinel
details_of-eq name email github status company = rw (
  or_sentinel-eq (text "EMAIL_MISSING") (trim_space email),
  or_sentinel-eq (text "GITHUB_MISSING") (trim_space github),
)

module _ {W : Type 0} (db : Gorm W) (rows saved : W → Tables) (writes : Writes db rows saved) where
  read-Outcome :
      (id : ℕ) (d : Details) (before : Tables) (a : Answer Maintainer) (w : W)
      → Queries db rows saved
      → IsEdit id d before (rows w)
      → db.first_maintainer id w ≡ a
      → EditOutcome a id d before (rows w)
  read-Outcome id d before (failed e) w queries edit h = inr edit
  read-Outcome id d before (found m) w queries edit h =
      let (same, row) = queries.maintainer id w m h in (edit, same, row)

  after_updates-Outcome :
      (id : ℕ) (d : Details) (before : Tables) (r : Answer ℕ × W)
      → Queries db rows saved
      → status_is_valid d.maintainer_status ≡ true
      → Exists d.company_id before
      → Outcome r.0 before (λ n. set_details id d before) (rows r.1)
      → EditOutcome (after_updates db id r).0 id d before (rows (after_updates db id r).1)
  unfolding after_updates
  after_updates-Outcome id d before (failed e, w) queries valid exists same = inl same
  after_updates-Outcome id d before (found n, w) queries valid exists same =
      read-Outcome id d before (db.first_maintainer id w) w queries (valid, exists, same) refl

  after_company-Outcome :
      (id : ℕ) (d : Details) (a : Answer Company) (w : W)
      → Queries db rows saved
      → status_is_valid d.maintainer_status ≡ true
      → ((c : Company) → a ≡ found c → Exists d.company_id (rows w))
      → EditOutcome (after_company db id d a w).0 id d (rows w) (rows (after_company db id d a w).1)
  unfolding after_company
  after_company-Outcome id d (failed e) w queries valid exists = inl refl
  after_company-Outcome id d (found c) w queries valid exists =
      after_updates-Outcome id d (rows w) (db.updates_maintainer id d w) queries valid
        (exists c refl) (writes.details id d w)

  write_details-Outcome :
      (id : ℕ) (d : Details) (company : Option ℕ) (w : W)
      → Queries db rows saved
      → status_is_valid d.maintainer_status ≡ true
      → d.company_id ≡ company
      → EditOutcome
          (write_details db id d company w).0
          id
          d
          (rows w)
          (rows (write_details db id d company w).1)
  unfolding write_details
  write_details-Outcome id d none w queries valid e =
      after_updates-Outcome id d (rows w) (db.updates_maintainer id d w) queries valid
        (subst (λ o. Exists o (rows w)) (sym e) tt) (writes.details id d w)
  write_details-Outcome id d (some company) w queries valid e =
      after_company-Outcome id d (db.first_company company w) w queries valid
        (λ c h. subst (λ o. Exists o (rows w)) (sym e) (queries.company company w c h))

  if-Outcome :
      (b : Bool) (id : ℕ) (d : Details) (w : W) (r : Answer Maintainer × W)
      → (b ≡ true → EditOutcome r.0 id d (rows w) (rows r.1))
      → EditOutcome
          (if not b then (failed invalid_status, w) else r).0
          id
          d
          (rows w)
          (rows (if not b then (failed invalid_status, w) else r).1)
  if-Outcome true id d w r h = h refl
  if-Outcome false id d w r h = inl refl

  pub update_details-Edits :
      (id : ℕ) (name email github status : Text) (company : Option ℕ) (w : W)
      → Queries db rows saved
      → EditOutcome
          (update_maintainer_details db id name email github status company w).0
          id
          (details_of name email github status company)
          (rows w)
          (rows (update_maintainer_details db id name email github status company w).1)
  unfolding update_maintainer_details details_of
  update_details-Edits id name email github status company w queries =
      if-Outcome (status_is_valid status) id (details_of name email github status company) w
        (write_details db id (details_of name email github status company) company w)
        (λ valid.
          write_details-Outcome id (details_of name email github status company) company w queries
            valid refl)

  -- `update_maintainer_details`, for a database that obeys the laws: if it returns a maintainer,
  -- the status is valid, the company, if one is given, exists, of the row with that id the name is
  -- set to the trimmed name, the email and the account to the trimmed texts, or to EMAIL_MISSING
  -- and GITHUB_MISSING where those are empty, the status and the company to those given, nothing
  -- else in the tables has changed, and what it returns is that row. If it fails, nothing has
  -- changed, or only the last query failed.
  pub update_maintainer_details-Edits :
      (id : ℕ) (name email github status : Text) (company : Option ℕ) (w : W)
      → Queries db rows saved
      → EditOutcome
          (update_maintainer_details db id name email github status company w).0
          id
          (trimmed_details name email github status company)
          (rows w)
          (rows (update_maintainer_details db id name email github status company w).1)
  update_maintainer_details-Edits id name email github status company w queries =
      subst
        (λ d.
          EditOutcome (update_maintainer_details db id name email github status company w).0 id d
            (rows w) (rows (update_maintainer_details db id name email github status company w).1))
        (details_of-eq name email github status company)
        (update_details-Edits id name email github status company w queries)
