-- ===== src/Auth/Authorize.antt =====
-- Who `authorizeLogin` of cmd/web-bff/main.go lets in, in terms of the rows of the database.
use mathlib.Core.List.{Memᴰ}
use maintainer_d.Base.{
  Text, ◌==◌, eq_iff, equal_fold, ◌≡◌, ◌≢◌, ◌↔◌, ◌⊎◌, inl, inr, refl, sym, ap, ◌∙◌, subst, Bool,
  true, false, ◌&&◌, ◌||◌, not, some, List, [], ◌∷◌, any, All, arith, Bool-cases, Option-cases,
}
use maintainer_d.Base.Dict.{Dict, put}
use maintainer_d.Model.{Maintainer, StaffMember, github_missing}
use maintainer_d.Auth.Directory.{
  Role, staff, maintainer, Directory, map_by_account, account_matches, authorize_login,
}

module _ {A : Type 0} (p : A → Bool) where
  any-Memᴰ : (xs : List A) → any p xs ≡ true → (x : A) × Memᴰ x xs × (p x ≡ true)
  any-Memᴰ [] h = absurd (ground arith)
  any-Memᴰ (x ∷ xs) h = elim (Bool-cases (p x)) [
    | inl here ↦ (x, Memᴰ.head refl, here)
    | inr miss ↦ let (y, m, q) = any-Memᴰ xs (ground arith) in (y, Memᴰ.tail m, q)
  ]

  Memᴰ-any : {x : A} (xs : List A) → Memᴰ x xs → p x ≡ true → any p xs ≡ true
  Memᴰ-any [] m h = elim m [ ]
  Memᴰ-any (y ∷ xs) (Memᴰ.head e) h = rw (← e, h)
  Memᴰ-any (y ∷ xs) (Memᴰ.tail m) h = ground (arith, Memᴰ-any xs m h)

-- A row's account is a real one and equals the login up to case.
abbrev passes : Text → Text → Bool
passes login account = not (account == [] || account == github_missing) && equal_fold account login

abbrev IsKeyed : Dict Maintainer → Type 0
IsKeyed m = All (λ (e : Text × Maintainer). e.1.git_hub_account ≡ e.0) m

module _ (login : Text) where
  entry_matches :
      (k : Text) (w : Maintainer)
      → w.git_hub_account ≡ k
      → account_matches login (k, w) ≡ passes login k
  unfolding account_matches
  entry_matches k w e = ap (λ a. not (a == [] || a == github_missing) && equal_fold k login) e

  any-put :
      (row : Maintainer) (m : Dict Maintainer)
      → IsKeyed m
      → any (account_matches login) (put row.git_hub_account row m)
        ≡ (passes login row.git_hub_account || any (account_matches login) m)
  unfolding put
  any-put row [] keyed = ap (λ b. b || false) (entry_matches row.git_hub_account row refl)
  any-put row ((j, w) ∷ m) (e, keyed) = elim (Bool-cases (j == row.git_hub_account)) [
    | inl same ↦
        let k : j ≡ row.git_hub_account = (eq_iff _ _).0 same in
        rw (same, entry_matches row.git_hub_account row refl, entry_matches j w e, k) (ground arith)
    | inr other ↦ rw (other, any-put row m keyed) (ground arith)
  ]

  put-IsKeyed :
      (row : Maintainer) (m : Dict Maintainer) → IsKeyed m → IsKeyed (put row.git_hub_account row m)
  unfolding put
  put-IsKeyed row [] keyed = (refl, tt)
  put-IsKeyed row ((j, w) ∷ m) (e, keyed) = elim (Bool-cases (j == row.git_hub_account)) [
    | inl same ↦ rw same (refl, keyed)
    | inr other ↦ rw other (e, put-IsKeyed row m keyed)
  ]

  -- The map drops rows that share an account; the loop over it finds what the rows hold.
  any-map_by_account :
      (m : Dict Maintainer) (rows : List Maintainer)
      → IsKeyed m
      → any (account_matches login) (map_by_account m rows) ≡ (
          any (account_matches login) m
          || any (λ (r : Maintainer). passes login r.git_hub_account) rows)
  unfolding map_by_account
  any-map_by_account m [] keyed = ground arith
  any-map_by_account m (row ∷ rows) keyed =
      rw
        (
          any-map_by_account (put row.git_hub_account row m) rows (put-IsKeyed row m keyed),
          any-put row m keyed,
        )
        (ground arith)

-- The people that each role is for. A staff member's account is compared as it stands; a
-- maintainer's has to be a real one, and no staff member has it.
pub data IsAuthorized (d : Directory) (login : Text) : Role → Type 0 where
  as_staff :
      (rows : List StaffMember) (m : StaffMember)
      → login ≢ []
      → d.staff_rows ≡ some rows
      → Memᴰ m rows
      → equal_fold m.git_hub_account login ≡ true
      → IsAuthorized d login staff
  as_maintainer :
      (rows : List StaffMember) (maintainers : List Maintainer) (m : Maintainer)
      → login ≢ []
      → d.staff_rows ≡ some rows
      → any (λ (s : StaffMember). equal_fold s.git_hub_account login) rows ≡ false
      → d.maintainer_rows ≡ some maintainers
      → Memᴰ m maintainers
      → passes login m.git_hub_account ≡ true
      → IsAuthorized d login maintainer

module _ (d : Directory) (login : Text) where
  abbrev is_staff : List StaffMember → Bool
  is_staff = any (λ (s : StaffMember). equal_fold s.git_hub_account login)

  login-ne-nil : (r : Role) → authorize_login d login ≡ some r → login ≢ []
  unfolding authorize_login
  login-ne-nil r h empty = ground (arith, eq_iff login [])

  -- `authorize_login` with the tests on the login out of the way.
  authorize_staff :
      (rows : List StaffMember)
      → login ≢ []
      → d.staff_rows ≡ some rows
      → is_staff rows ≡ true
      → authorize_login d login ≡ some staff
  unfolding authorize_login
  authorize_staff rows l e s = ground (arith, eq_iff login [])

  authorize_maintainer :
      (rows : List StaffMember) (ms : List Maintainer)
      → login ≢ []
      → d.staff_rows ≡ some rows
      → is_staff rows ≡ false
      → d.maintainer_rows ≡ some ms
      → any (account_matches login) (map_by_account [] ms) ≡ true
      → authorize_login d login ≡ some maintainer
  unfolding authorize_login
  authorize_maintainer rows ms l e s f m = ground (arith, eq_iff login [])

  authorize_cases :
      (r : Role)
      → authorize_login d login ≡ some r
      → (rows : List StaffMember) × (d.staff_rows ≡ some rows)
        × ((is_staff rows ≡ true) × (r ≡ staff)
            ⊎ ((is_staff rows ≡ false)
                × (r ≡ maintainer)
                × (ms : List Maintainer) × (d.maintainer_rows ≡ some ms)
                × (any (account_matches login) (map_by_account [] ms) ≡ true)))
  unfolding authorize_login
  authorize_cases r h = elim (Option-cases d.staff_rows) [
    | inl missing ↦ absurd (ground arith)
    | inr (rows, e) ↦ elim (Bool-cases (is_staff rows)) [
      | inl s ↦ (rows, e, inl (s, ground arith))
      | inr s ↦ elim (Option-cases d.maintainer_rows) [
        | inl missing ↦ absurd (ground arith)
        | inr (ms, f) ↦ (rows, e, inr (s, ground arith, ms, f, ground arith))
      ]
    ]
  ]

-- `authorize_login` gives the staff role exactly to a login that equals the account of a staff row up
-- to case, and the maintainer role exactly to one that does not and equals the account of a maintainer
-- row: an empty login or an error of the staff's query gives none. A staff account is compared as it
-- stands and the maintainers are then not asked for; the maintainer role needs their query to
-- succeed, and an account that is neither empty nor the placeholder.
pub authorize_login_iff :
    (d : Directory) (login : Text) (r : Role)
    → (authorize_login d login ≡ some r) ↔ IsAuthorized d login r
authorize_login_iff d login r = (forth r, back)
  where
    forth : (r : Role) → authorize_login d login ≡ some r → IsAuthorized d login r
    forth r h =
        let l = login-ne-nil d login r h in
        let (rows, e, which) = authorize_cases d login r h in
        elim which [
          | inl (s, role) ↦
              let (m, i, f) = any-Memᴰ _ rows s in
              subst (IsAuthorized d login) (sym role) (as_staff rows m l e i f)
          | inr (s, role, ms, f, found) ↦
              let (m, i, p) =
                any-Memᴰ (λ (x : Maintainer). passes login x.git_hub_account) ms
                  (sym (any-map_by_account login [] ms tt) ∙ found) in
              subst (IsAuthorized d login) (sym role) (as_maintainer rows ms m l e s f i p)
        ]

    back : {r : Role} → IsAuthorized d login r → authorize_login d login ≡ some r
    back (as_staff rows m l e i f) = authorize_staff d login rows l e (Memᴰ-any _ rows i f)
    back (as_maintainer rows ms m l e s f i p) = authorize_maintainer d login rows ms l e s f (
        any-map_by_account login [] ms tt
        ∙ Memᴰ-any (λ (x : Maintainer). passes login x.git_hub_account) ms i p)
