-- ===== src/Auth/Tests.antt =====
-- Runs of the login flow at concrete inputs, and the theorems of the login flow applied to them.
use mathlib.Core.List.{Memᴰ}
use Prim.Native.String.{String}
use maintainer_d.Base.{
  ℕ, ◌+◌, ◌≤◌, ◌≡◌, ◌≢◌, ◌↔◌, refl, inl, inr, Text, text, ◌==◌, equal_fold, false, none, some, List,
  [], ◌∷◌, ◌++◌,
}
use maintainer_d.Base.Dict.{get, put}
use maintainer_d.Model.{Maintainer, StaffMember, active_maintainer}
use maintainer_d.Auth.Directory.{staff, maintainer, Directory, authorize_login}
use maintainer_d.Auth.Authorize.{IsAuthorized, authorize_login_iff}
use maintainer_d.Auth.Stores.{Session, StateEntry, consume_state}
use maintainer_d.Auth.Handlers.{
  Env, Config, Request, Server, Method, Route, handle_callback, handle_logout, is_options,
  require_session, serve, run, start, redirect_to,
}
use maintainer_d.Auth.Sessions.{
  IsEstablished, require_session_iff, api_access-IsEstablished, logout_ends,
}
use maintainer_d.Auth.Callback.{IsAdmitted, handle_callback-IsAdmitted, handle_callback_once}
use maintainer_d.Auth.Redirects.{IsLocal, callback_location-IsLocal}

abbrev alice : StaffMember
alice = record {
  id = 1;
  name = text "Alice";
  email = text "a@cncf.io";
  git_hub_account = text "Alice";
  git_hub_email = [];
  registered_at = none;
  foundation_id = none;
  foundation = [];
}

abbrev bob : Maintainer
bob = record {
  id = 7;
  name = text "Bob";
  email = text "bob@x.org";
  git_hub_account = text "bob";
  git_hub_email = text "bob@x.org";
  maintainer_status = active_maintainer;
  registered_at = none;
  company_id = none;
  company = [];
}

abbrev directory : Directory
directory = record { staff_rows = some (alice ∷ []); maintainer_rows = some (bob ∷ []) }

abbrev config : Config
config = record {
  session_ttl = 100;
  state_ttl = 10;
  test_mode = false;
  web_base_url = text "https://m.d";
  auth_code_url = λ state. text "https://github.com/?state=" ++ state;
  next = λ req sess. 200;
}

-- GitHub exchanges every code and names the user by the code.
abbrev env_at : ℕ → String → Env
env_at now token = record {
  now = now;
  directory = directory;
  random = some (text token);
  exchange = λ code. some code;
  fetch_user = λ token. some token;
}

abbrev blank : Route → Request
blank r = record {
  route = r;
  method = Method.get;
  session_cookie = none;
  state_cookie = none;
  state = [];
  code = [];
  redirect = [];
  login_name = [];
}

abbrev login_request : Request
login_request = record (blank Route.login) { redirect = text "/projects" }

abbrev callback_request : Request
callback_request = record (blank Route.callback) {
  state_cookie = some (text "st");
  state = text "st";
  code = text "ALICE";
}

abbrev api_request : Request
api_request = record (blank Route.api) { session_cookie = some (text "sid") }

abbrev logged_in : List (Env × Request)
logged_in = (env_at 5 "st", login_request) ∷ (env_at 9 "sid", callback_request) ∷ []

callback_admits :
    (handle_callback config
      (env_at 9 "sid")
      callback_request
      (run config start ((env_at 5 "st", login_request) ∷ []))).1.status
    ≡ 302
unfolding run serve authorize_login consume_state get put ◌==◌ equal_fold
callback_admits = refl

abbrev alice_session : Session
alice_session = record {
  id = text "sid";
  login = text "alice";
  role = staff;
  created_at = 9;
  expires_at = 109;
}

abbrev after_login : Server
after_login = run config start logged_in

api_in_time : require_session (env_at 109 "x") api_request after_login ≡ inr alice_session
unfolding run serve authorize_login consume_state get put require_session ◌==◌ equal_fold
api_in_time = refl

session_expired :
    require_session (env_at 110 "x") api_request after_login
    ≡ inl (record {
      status = 401;
      location = none;
      set_session_cookie = none;
      set_state_cookie = none;
    })
unfolding run serve authorize_login consume_state get put require_session ◌==◌ equal_fold
session_expired = refl

api_access_example :
    (e : Env × Request) × Memᴰ e logged_in
    × IsEstablished config e.0 alice_session
    × (api_request.session_cookie ≡ some (text "sid"))
    × (109 ≤ e.0.now + 100)
api_access_example =
    api_access-IsEstablished config logged_in (env_at 109 "x") api_request alice_session api_in_time

require_session_iff_example :
    (require_session (env_at 109 "x") api_request after_login ≡ inr alice_session) ↔ (
      (is_options api_request.method ≡ false)
      × (id : Text) × (api_request.session_cookie ≡ some id)
      × (get id after_login.sessions ≡ some alice_session)
      × (109 ≤ 109))
require_session_iff_example =
    require_session_iff (env_at 109 "x") api_request after_login alice_session

abbrev logout_request : Request
logout_request = record api_request { route = Route.logout; method = Method.post }

logout_ends_example :
    ((sess : Session)
      → require_session
          (env_at 50 "x")
          api_request
          (handle_logout config (env_at 40 "x") logout_request after_login).0
        ≢ inr sess)
    × ((k : Text)
        → k ≢ text "sid"
        → get k (handle_logout config (env_at 40 "x") logout_request after_login).0.sessions
          ≡ get k after_login.sessions)
logout_ends_example =
    logout_ends config (env_at 40 "x") (env_at 50 "x") logout_request api_request after_login
      (text "sid") refl refl refl

abbrev before_callback : Server
before_callback = run config start ((env_at 5 "st", login_request) ∷ [])

handle_callback-IsAdmitted_example :
    (entry : StateEntry) × IsAdmitted (env_at 9 "sid") callback_request before_callback entry
    × ((handle_callback config (env_at 9 "sid") callback_request before_callback).1.location
        ≡ (redirect_to config entry).location)
handle_callback-IsAdmitted_example =
    handle_callback-IsAdmitted config (env_at 9 "sid") callback_request before_callback
      callback_admits

handle_callback_once_example :
    (handle_callback config
      (env_at 10 "sid2")
      callback_request
      (handle_callback config (env_at 9 "sid") callback_request before_callback).0).1.status
    ≡ 400
handle_callback_once_example =
    handle_callback_once config (env_at 9 "sid") (env_at 10 "sid2") callback_request
      callback_request before_callback callback_admits refl

callback_location_example :
    (path : Text) × IsLocal path
    × ((handle_callback config (env_at 9 "sid") callback_request before_callback).1.location
        ≡ some (text "https://m.d" ++ path))
callback_location_example =
    callback_location-IsLocal config ((env_at 5 "st", login_request) ∷ []) (env_at 9 "sid")
      callback_request callback_admits

authorize_login_iff_example :
    (authorize_login directory (text "BOB") ≡ some maintainer)
    ↔ IsAuthorized directory (text "BOB") maintainer
authorize_login_iff_example = authorize_login_iff directory (text "BOB") maintainer

bob_logs_in : authorize_login directory (text "BOB") ≡ some maintainer
unfolding authorize_login put ◌==◌ equal_fold
bob_logs_in = refl
