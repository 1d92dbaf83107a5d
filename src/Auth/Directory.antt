-- ===== src/Auth/Directory.antt =====
-- `authorizeLogin` of cmd/web-bff/main.go and the map that it asks of db/store_impl.go.
use maintainer_d.Base.{
  Text, ◌==◌, equal_fold, Bool, ◌&&◌, ◌||◌, not, Option, none, some, List, [], ◌∷◌, any,
  if◌then◌else◌,
}
use maintainer_d.Base.Dict.{Dict, put}
use maintainer_d.Model.{Maintainer, StaffMember, github_missing}

-- The roles that a session can hold; `authorizeLogin` returns no other.
pub data Role : Type 0 where
  staff maintainer : Role

-- What the two queries of `authorizeLogin` return; `none` is an error of the database.
pub record Directory : Type 0 where
  pub staff_rows : Option (List StaffMember)
  pub maintainer_rows : Option (List Maintainer)

-- The loop of GetMaintainerMapByGitHubAccount: of rows with one account the last stays.
unfoldable pub map_by_account : Dict Maintainer → List Maintainer → Dict Maintainer
map_by_account m [] = m
map_by_account m (row ∷ rows) = map_by_account (put row.git_hub_account row m) rows

-- The body of the loop over the map. A map is read in no fixed order; the loop only asks whether
-- some entry passes.
unfoldable pub account_matches : Text → Text × Maintainer → Bool
unfolding equal_fold
account_matches login (account, row) =
    not (row.git_hub_account == [] || row.git_hub_account == github_missing)
    && equal_fold account login

unfoldable pub authorize_login : Directory → Text → Option Role
unfolding account_matches map_by_account
authorize_login d login = if login == [] then none else elim d.staff_rows [
  | none ↦ none
  | some rows ↦
      if any (λ m. equal_fold m.git_hub_account login) rows
      then some staff
      else elim d.maintainer_rows [
        | none ↦ none
        | some ms ↦
            if any (account_matches login) (map_by_account [] ms) then some maintainer else none
      ]
]
