-- ===== src/Web/Run.antt =====
-- The tables under runs of requests to the handlers of cmd/web-bff/main.go.
pub mod Keeps
pub mod Handlers
pub mod Others
pub mod Patches
pub mod Creates
pub mod Serves
pub mod Invariants
use maintainer_d.Base.{ℕ, Text, trim_space, true, ◌≡◌, ◌≢◌, Option, List, false, ◌++◌, [], ◌∷◌}
use maintainer_d.Model.{Maintainer, Company, status_is_valid, maturity_is_valid}
use maintainer_d.Store.{Gorm, AuditLog}
use maintainer_d.Store.Maintainers.{details_of}
use maintainer_d.Store.Upsert.{Incoming, upsert_maintainer}
use maintainer_d.Store.Tables.{
  Tables, set_statuses, set_refs, set_maturities, add_event, add_company, has_name,
}
use maintainer_d.Store.Laws.Merge.{IsMerge}
use maintainer_d.Store.Laws.Creates.{named}
use maintainer_d.Store.Laws.Edits.{IsEdit}

-- The changes of the tables that the handlers make, but for UpsertMaintainer, keep the property.
pub record IsStable (P : Tables → Type 0) : Type 0 where
  pub event : (e : AuditLog) (t : Tables) → P t → P (add_event e t)
  pub edit :
      (id : ℕ) (name email github status : Text) (company : Option ℕ) (t t' : Tables)
      → IsEdit id (details_of name email github status company) t t'
      → P t
      → P t'
  pub statuses :
      (ids : List ℕ) (s : Text) (t : Tables)
      → status_is_valid s ≡ true
      → P t
      → P (set_statuses ids s t)
  pub merge : (from to : ℕ) (t t' : Tables) → IsMerge from to t t' → P t → P t'
  pub company :
      (name : Text) (c : Company) (t : Tables)
      → has_name name t.companies ≡ false
      → P t
      → P (add_company (named name c) t)
  pub refs : (id : ℕ) (ref : Text) (t : Tables) → P t → P (set_refs id ref t)
  pub maturities : (id : ℕ) (maturity : Text) (t : Tables) → P t → P (set_maturities id maturity t)
  pub project :
      (t t' : Tables) → t'.maintainers ≡ t.maintainers → t'.companies ≡ t.companies → P t → P t'

abbrev pub UpsertKeeps : {W : Type 0} → Gorm W → (W → Tables) → (Tables → Type 0) → Type 0
UpsertKeeps {W} db rows P =
    (args : Incoming) (w : W) → P (rows w) → P (rows (upsert_maintainer db args w).1)
