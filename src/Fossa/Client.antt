-- ===== src/Fossa/Client.antt =====
-- The client of plugins/fossa/client.go over HTTP. A request that fails and a body that cannot be
-- read are no response; the texts of errors that callers do not ask for are shortened.
pub mod Pages
pub mod Lookup
use maintainer_d.Base.{
  ℕ, zero, suc, ◌+◌, Text, text, ◌==◌, to_lower, trim_space, contains, ltb, eqb, length, Bool, true,
  false, ◌||◌, not, Option, none, some, List, [], ◌∷◌, ◌++◌, if◌then◌else◌,
}
use maintainer_d.Base.Decimal.{itoa}
use maintainer_d.Fossa.{
  ErrorKind, invite_already_exists, user_already_member, Error, Result, ok, err, wrap, Team, User,
  FossaClient,
}
use maintainer_d.Fossa.Answers.{
  ApiError, Http, Response, add_payload, after_refusal, decoded, email_payload, emails_of, get,
  invite_kind, is_added, is_made, is_ok, member_kind, name_payload, no_payload, or_failed,
  page_size, pending_in, plain, post, put, team_in, user_id_in, users_endpoint,
}

module _ {W : Type 0} (http : Http W) where
  unfoldable pub fetch_page : ℕ → W → Result (List User) × W
  unfolding decoded users_endpoint
  fetch_page page w =
      let (answer, w') = http.send get (users_endpoint page) no_payload w in
      (decoded http.decode_users (text "FetchUsers") answer, w')

  -- After a page: a short one is the last.
  unfoldable pub after_page :
      (List User → W → Option (Result (List User)) × W)
      → List User
      → Result (List User) × W
      → Option (Result (List User)) × W
  after_page next all (err e, w) = (some (err e), w)
  after_page next all (ok users, w) =
      if ltb (length users) page_size then (some (ok (all ++ users)), w) else next (all ++ users) w

  -- The loop of `FetchUsers`; `none` if the fuel is used up.
  unfoldable pub fetch_from : ℕ → ℕ → List User → W → Option (Result (List User)) × W
  unfolding fetch_page after_page
  fetch_from zero page all w = (none, w)
  fetch_from (suc fuel) page all w =
      after_page (λ more w'. fetch_from fuel (suc page) more w') all (fetch_page page w)

  unfoldable pub fetch_users : ℕ → W → Option (Result (List User)) × W
  unfolding fetch_from
  fetch_users fuel w = fetch_from fuel 0 [] w

  unfoldable pub has_pending_invitation : Text → W → Result Bool × W
  unfolding pending_in
  has_pending_invitation email w =
      let (answer, w') = http.send get (text "/user-invitations") no_payload w in
      (pending_in email answer, w')

  unfoldable pub send_user_invitation : Text → W → Option Error × W
  unfolding after_refusal invite_kind is_ok
  send_user_invitation email w =
      let (answer, w') =
        http.send post (text "/organizations/162/invite") (email_payload email) w in
      (after_refusal http.decode_error invite_kind is_ok answer, w')

  unfoldable pub fetch_teams : W → Result (List Team) × W
  unfolding decoded
  fetch_teams w =
      let (answer, w') = http.send get (text "/teams") no_payload w in
      (decoded http.decode_teams (text "list teams") answer, w')

  unfoldable pub fetch_team : Text → W → Result Team × W
  unfolding fetch_teams team_in
  fetch_team name w = let (teams, w') = fetch_teams w in (team_in name teams, w')

  unfoldable pub fetch_team_user_emails : ℕ → W → Result (List Text) × W
  unfolding decoded emails_of itoa
  fetch_team_user_emails team w =
      let (answer, w') =
        http.send get (text "/teams/" ++ itoa team ++ text "/members") no_payload w in
      (emails_of (decoded http.decode_members (text "list team users") answer), w')

  unfoldable pub add_user : ℕ → Result ℕ → W → Option Error × W
  unfolding after_refusal member_kind is_added itoa
  add_user team (err e) w = (some (wrap (text "resolve user by email: ") e), w)
  add_user team (ok id) w =
      let (answer, w') =
        http.send put (text "/teams/" ++ itoa team ++ text "/users") (add_payload id) w in
      (after_refusal http.decode_error member_kind is_added answer, w')

  -- `AddUserToTeamByEmail`, which uses no role; `none` only if the fuel of the loop is used up.
  unfoldable pub after_users :
      ℕ → Text → Option (Result (List User)) × W → Option (Option Error) × W
  unfolding add_user user_id_in
  after_users team email (none, w) = (none, w)
  after_users team email (some users, w) =
      let (answer, w') = add_user team (user_id_in email users) w in (some answer, w')

  unfoldable pub add_user_to_team_by_email : ℕ → ℕ → Text → ℕ → W → Option (Option Error) × W
  unfolding after_users fetch_users
  add_user_to_team_by_email fuel team email role w = after_users team email (fetch_users fuel w)

  -- The code 2003: the team exists, and is looked up.
  unfoldable pub after_existing : Text → Option Team → W → Result Team × W
  unfolding fetch_team
  after_existing name none w = (err (plain (text "failed to decode response")), w)
  after_existing name (some t) w = fetch_team name w

  unfoldable pub after_create_error : Text → Text → Option ApiError → W → Result Team × W
  unfolding after_existing
  after_create_error name body none w = (err (plain (text "CreateTeam failed")), w)
  after_create_error name body (some e) w =
      if eqb e.code 2003
      then after_existing name (http.decode_team body) w
      else (err (plain (text "CreateTeam failed")), w)

  unfoldable pub after_create : Text → Option Response × W → Result Team × W
  unfolding after_create_error is_made
  after_create name (none, w) = (err (plain (text "request failed")), w)
  after_create name (some r, w) =
      if not (is_made r.status)
      then after_create_error name r.body (http.decode_error r.body) w
      else (or_failed (text "failed to decode response") (http.decode_team r.body), w)

  unfoldable pub create_team : Text → W → Result Team × W
  unfolding after_create
  create_team name w = after_create name (http.send post (text "/teams") (name_payload name) w)
