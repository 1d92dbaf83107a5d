-- ===== src/Web/Actor.antt =====
-- cmd/web-bff/main.go: who a request comes from, for the audit event. The look-up of the staff row
-- stands in each handler in one of two forms; an audit event that cannot be written is only logged.
use maintainer_d.Base.{
  ℕ, Text, text, ◌==◌, to_lower, trim_space, ◌||◌, Option, none, some, [], ◌∷◌, if◌then◌else◌,
}
use maintainer_d.Model.{Maintainer, StaffMember, github_missing}
use maintainer_d.Store.{invalid, Answer, found, failed, Gorm, AuditLog}

pub record Actor : Type 0 where
  pub staff_id : Option ℕ
  pub name : Text

abbrev name_or : Text → Text → Text
name_or login [] = login
name_or login (c ∷ s) = c ∷ s

unfoldable pub after_staff : Text → Answer StaffMember → Actor
after_staff login (found s) = record { staff_id = some s.id; name = name_or login s.name }
after_staff login (failed e) = record { staff_id = none; name = login }

-- An account that is missing is no account.
unfoldable pub real_account : Maintainer → Answer Maintainer
unfolding trim_space ◌==◌
real_account m =
    if trim_space m.git_hub_account == [] || m.git_hub_account == github_missing
    then failed (invalid (text "maintainer has no github account"))
    else found m

unfoldable pub checked_account : Answer Maintainer → Answer Maintainer
unfolding real_account
checked_account (found m) = real_account m
checked_account (failed e) = failed e

abbrev id_of : Answer StaffMember → Option ℕ
id_of (found s) = some s.id
id_of (failed e) = none

abbrev staff_name : Text → Answer StaffMember → Text
staff_name login (found s) = name_or login s.name
staff_name login (failed e) = login

module _ {W : Type 0} (db : Gorm W) where
  -- The look-up by the session's login, with the staff row's name.
  unfoldable pub staff_actor : Text → W → Actor
  unfolding after_staff to_lower
  staff_actor [] w = record { staff_id = none; name = [] }
  staff_actor (c ∷ s) w = after_staff (c ∷ s) (db.first_staff_by_account (to_lower (c ∷ s)) w)

  unfoldable pub lookup_staff_id : Text → W → Option ℕ
  unfolding to_lower
  lookup_staff_id [] w = none
  lookup_staff_id (c ∷ s) w = id_of (db.first_staff_by_account (to_lower (c ∷ s)) w)

  unfoldable pub name_by_id : Text → Option ℕ → W → Text
  name_by_id login none w = login
  name_by_id login (some id) w = staff_name login (db.first_staff id w)

  -- The look-up by lookupStaffID and then by the id.
  unfoldable pub looked_up_actor : Text → W → Actor
  unfolding lookup_staff_id name_by_id
  looked_up_actor login w = record {
    staff_id = lookup_staff_id login w;
    name = name_by_id login (lookup_staff_id login w) w;
  }

  unfoldable pub get_maintainer_by_login : Text → W → Answer Maintainer
  unfolding checked_account trim_space to_lower ◌==◌
  get_maintainer_by_login login w =
      if trim_space login == []
      then failed (invalid (text "missing login"))
      else checked_account (db.first_maintainer_by_account (to_lower login) w)

  unfoldable pub log_event : AuditLog → W → W
  log_event event w = (db.insert_event event w).1
