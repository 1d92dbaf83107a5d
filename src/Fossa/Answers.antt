-- ===== src/Fossa/Answers.antt =====
-- The answers of FOSSA's service, and what plugins/fossa/client.go reads in them. What the service
-- answers, and how encoding/json decodes a body, are arguments.
use maintainer_d.Base.{
  ℕ, Text, text, ◌==◌, to_lower, trim_space, contains, ltb, eqb, Bool, false, ◌||◌, Option, none,
  some, List, [], ◌∷◌, ◌++◌, if◌then◌else◌,
}
use maintainer_d.Base.Decimal.{itoa}
use maintainer_d.Fossa.{
  ErrorKind, invite_already_exists, user_already_member, Error, Result, ok, err, Team, User,
}

pub data Verb : Type 0 where
  get post put : Verb

pub record Response : Type 0 where
  pub status : ℕ
  pub body : Text

-- FOSSA's error schema
pub record ApiError : Type 0 where
  pub code : ℕ
  pub message : Text

-- TeamMembers: the emails of the results and the total.
pub record Members : Type 0 where
  pub emails : List Text
  pub total_count : ℕ

-- The payload of a request: an email, a team's name, or the id of a user to add.
pub data Payload : Type 0 where
  no_payload : Payload
  email_payload name_payload : Text → Payload
  add_payload : ℕ → Payload

pub record Http (W : Type 0) : Type 0 where
  pub send : Verb → Text → Payload → W → Option Response × W
  pub decode_users : Text → Option (List User)
  pub decode_teams : Text → Option (List Team)
  pub decode_team : Text → Option Team
  pub decode_members : Text → Option Members
  pub decode_error : Text → Option ApiError

abbrev pub plain : Text → Error
plain message = record { kind = ErrorKind.other; message = message }

abbrev pub decode_body : {A : Type 0} → Text → Option A → Result A
decode_body what none = err (plain (what ++ text ": failed to decode response"))
decode_body what (some a) = ok a

-- The code 200, and its decoded body.
unfoldable pub decoded : {A : Type 0} → (Text → Option A) → Text → Option Response → Result A
decoded decode what none = err (plain (what ++ text ": request failed"))
decoded decode what (some r) =
    if eqb r.status 200
    then decode_body what (decode r.body)
    else err (plain (what ++ text " failed"))

abbrev pub page_size : ℕ
page_size = 100

unfoldable pub users_endpoint : ℕ → Text
unfolding itoa
users_endpoint page = text "/users?count=" ++ itoa page_size ++ text "&page=" ++ itoa page

unfoldable pub normalize_email : Text → Text
unfolding to_lower trim_space
normalize_email value = to_lower (trim_space value)

abbrev pub matches_email : Text → Option Text → Bool
matches_email target none = false
matches_email target (some email) = normalize_email email == target

unfoldable pub user_matches : Text → User → Bool
unfolding normalize_email ◌==◌
user_matches target u =
    normalize_email u.email == target
    || matches_email target u.git_hub_email
    || matches_email target u.bitbucket_email

unfoldable pub first_match : Text → List User → Option ℕ
unfolding user_matches
first_match target [] = none
first_match target (u ∷ us) = if user_matches target u then some u.id else first_match target us

abbrev pub not_found : Text → Error
not_found email = plain (text "user not found by email: " ++ email)

abbrev pub or_not_found : Text → Option ℕ → Result ℕ
or_not_found email none = err (not_found email)
or_not_found email (some id) = ok id

-- `findUserIDByEmail` after `FetchUsers`
unfoldable pub user_id_in : Text → Result (List User) → Result ℕ
unfolding first_match normalize_email ◌==◌
user_id_in email (err e) = err e
user_id_in email (ok users) =
    if normalize_email email == []
    then err (not_found email)
    else or_not_found email (first_match (normalize_email email) users)

unfoldable pub team_named : Text → List Team → Option Team
unfolding ◌==◌
team_named name [] = none
team_named name (t ∷ ts) = if t.name == name then some t else team_named name ts

unfoldable pub get_team_id : List Team → Text → Option ℕ
unfolding ◌==◌
get_team_id [] name = none
get_team_id (t ∷ ts) name = if t.name == name then some t.id else get_team_id ts name

unfoldable pub team_in : Text → Result (List Team) → Result Team
unfolding team_named
team_in name (err e) = err (plain (text "failed to find team with name " ++ name))
team_in name (ok teams) = elim (team_named name teams) [
  | none ↦ err (plain (text "failed to find team with name " ++ name))
  | some t ↦ ok t
]

-- The kinds of `SendUserInvitation` and of `AddUserToTeamByEmail`
unfoldable pub invite_kind : ℕ → ErrorKind
invite_kind code =
    if eqb code 2011
    then invite_already_exists
    else if eqb code 2001
    then user_already_member
    else ErrorKind.other

unfoldable pub member_kind : ℕ → ErrorKind
member_kind code = if eqb code 2001 then user_already_member else ErrorKind.other

abbrev pub refusal : (ℕ → ErrorKind) → Option ApiError → Error
refusal kind none = plain (text "unknown error format")
refusal kind (some e) = record { kind = kind e.code; message = e.message }

unfoldable pub after_refusal :
    (Text → Option ApiError) → (ℕ → ErrorKind) → (ℕ → Bool) → Option Response → Option Error
after_refusal decode kind is_good none = some (plain (text "request failed"))
after_refusal decode kind is_good (some r) =
    if is_good r.status then none else some (refusal kind (decode r.body))

-- 200, and for an addition also 201 and 204
unfoldable pub is_ok : ℕ → Bool
is_ok status = eqb status 200

unfoldable pub is_added : ℕ → Bool
is_added status = eqb status 200 || eqb status 201 || eqb status 204

unfoldable pub is_made : ℕ → Bool
is_made status = eqb status 200 || eqb status 201

unfoldable pub pending_in : Text → Option Response → Result Bool
unfolding contains to_lower
pending_in email none = err (plain (text "FetchUserInvitations failed"))
pending_in email (some r) =
    if eqb r.status 200
    then ok (contains (to_lower r.body) (to_lower email))
    else err (plain (text "FetchUserInvitations failed"))

unfoldable pub emails_of : Result Members → Result (List Text)
emails_of (err e) = err e
emails_of (ok members) = ok (if ltb 0 members.total_count then members.emails else [])

abbrev pub or_failed : {A : Type 0} → Text → Option A → Result A
or_failed what none = err (plain what)
or_failed what (some a) = ok a
