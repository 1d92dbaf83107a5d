-- ===== src/Store/Laws/Keeps.antt =====
-- What the operations of db/store_impl.go keep of the maintainers' rows.
use maintainer_d.Base.{
  ℕ, Text, trim_space, true, ◌≡◌, ◌≢◌, sym, subst, inl, inr, Option, List, [], ◌∷◌, map, any, eqb,
  All, All-map, if-Has, arith,
}
use maintainer_d.Model.{Maintainer, email_missing, github_missing, status_is_valid}
use maintainer_d.Store.{Answer, found, failed, Details, Gorm}
use maintainer_d.Store.Maintainers.{
  update_maintainer_details, details_of, normalize_or_sentinel, or_sentinel,
}
use maintainer_d.Store.Tables.{Tables, set_columns, set_details, set_status, set_statuses, move}
use maintainer_d.Store.Laws.{Queries, Writes}
use maintainer_d.Store.Laws.Edits.{EditOutcome, IsEdit, update_details-Edits}

-- A status that is one of the four, and an email and an account that are not empty: a missing one
-- is its placeholder.
abbrev pub IsComplete : Maintainer → Type 0
IsComplete m =
    (status_is_valid m.maintainer_status ≡ true) × (m.email ≢ []) × (m.git_hub_account ≢ [])

abbrev pub Complete : Tables → Type 0
Complete t = All IsComplete t.maintainers

or_sentinel-ne : (sentinel s : Text) → sentinel ≢ [] → or_sentinel sentinel s ≢ []
or_sentinel-ne sentinel [] ne = ne
or_sentinel-ne sentinel (c ∷ s) ne = λ e. ground arith

pub normalize_or_sentinel-ne :
    (value sentinel : Text) → sentinel ≢ [] → normalize_or_sentinel value sentinel ≢ []
unfolding normalize_or_sentinel
normalize_or_sentinel-ne value sentinel ne = or_sentinel-ne sentinel (trim_space value) ne

pub email_missing-ne : email_missing ≢ []
email_missing-ne = λ e. ground arith

pub github_missing-ne : github_missing ≢ []
github_missing-ne = λ e. ground arith

pub IsCompleteDetails : Details → Type 0
IsCompleteDetails d =
    (status_is_valid d.maintainer_status ≡ true) × (d.email ≢ []) × (d.git_hub_account ≢ [])

set_columns-IsComplete :
    (id : ℕ) (d : Details) (m : Maintainer)
    → IsCompleteDetails d
    → IsComplete m
    → IsComplete (set_columns id d m)
unfolding IsCompleteDetails
set_columns-IsComplete id d m good h =
    if-Has IsComplete (eqb m.id id)
      record m {
        name = d.name;
        email = d.email;
        git_hub_account = d.git_hub_account;
        maintainer_status = d.maintainer_status;
        company_id = d.company_id;
      }
      m good h

set_status-IsComplete :
    (ids : List ℕ) (s : Text) (m : Maintainer)
    → status_is_valid s ≡ true
    → IsComplete m
    → IsComplete (set_status ids s m)
set_status-IsComplete ids s m valid (old, email, account) =
    if-Has IsComplete (any (eqb m.id) ids) record m { maintainer_status = s } m
      (valid, email, account) (old, email, account)

pub details_of-IsComplete :
    (name email github status : Text) (company : Option ℕ)
    → status_is_valid status ≡ true
    → IsCompleteDetails (details_of name email github status company)
unfolding details_of IsCompleteDetails
details_of-IsComplete name email github status company valid = (
  valid,
  normalize_or_sentinel-ne email email_missing email_missing-ne,
  normalize_or_sentinel-ne github github_missing github_missing-ne,
)

set_details-Complete :
    (id : ℕ) (d : Details) (t : Tables)
    → IsCompleteDetails d
    → Complete t
    → Complete (set_details id d t)
set_details-Complete id d t good h =
    All-map IsComplete (set_columns id d) t.maintainers
      (λ m old. set_columns-IsComplete id d m good old) h

pub set_statuses-Complete :
    (ids : List ℕ) (s : Text) (t : Tables)
    → status_is_valid s ≡ true
    → Complete t
    → Complete (set_statuses ids s t)
set_statuses-Complete ids s t valid h =
    All-map IsComplete (set_status ids s) t.maintainers
      (λ m old. set_status-IsComplete ids s m valid old) h

pub move-Complete :
    (from to : ℕ) (ms : List Maintainer)
    → All IsComplete ms
    → All IsComplete (map (move from to) ms)
move-Complete from to ms h = All-map IsComplete (move from to) ms (λ m old. old) h

module _ (id : ℕ) (name email github status : Text) (company : Option ℕ) where
  abbrev details : Details
  details = details_of name email github status company

  pub IsEdit-Complete :
      (before after : Tables) → IsEdit id details before after → Complete before → Complete after
  unfolding details_of
  IsEdit-Complete before after (valid, exists, same) h = subst Complete (sym same) (
      set_details-Complete id details before
        (details_of-IsComplete name email github status company valid) h)

  EditOutcome-Complete :
      (a : Answer Maintainer) (before after : Tables)
      → EditOutcome a id details before after
      → Complete before
      → Complete after
  EditOutcome-Complete (failed e) before after (inl same) h = subst Complete (sym same) h
  EditOutcome-Complete (failed e) before after (inr edit) h = IsEdit-Complete before after edit h
  EditOutcome-Complete (found m) before after (edit, same, row) h =
      IsEdit-Complete before after edit h

module _ {W : Type 0} (db : Gorm W) (rows saved : W → Tables) (writes : Writes db rows saved)
    (queries : Queries db rows saved) where
  pub update_maintainer_details-Complete :
      (id : ℕ) (name email github status : Text) (company : Option ℕ) (w : W)
      → Complete (rows w)
      → Complete (rows (update_maintainer_details db id name email github status company w).1)
  update_maintainer_details-Complete id name email github status company w h =
      EditOutcome-Complete id name email github status company
        (update_maintainer_details db id name email github status company w).0 (rows w)
        (rows (update_maintainer_details db id name email github status company w).1)
        (update_details-Edits db rows saved writes id name email github status company w queries) h
