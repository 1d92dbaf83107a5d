-- ===== src/Auth/Handlers.antt =====
-- The login, callback, logout and test-login handlers of cmd/web-bff/main.go, and `requireSession`.
use maintainer_d.Base.{
  ℕ, ◌+◌, ◌⊎◌, inl, inr, Text, ◌==◌, to_lower, trim_space, has_prefix, text, Bool, true, false,
  ◌&&◌, ◌||◌, not, Option, none, some, List, [], ◌∷◌, ◌++◌, if◌then◌else◌,
}
use maintainer_d.Base.Dict.{Dict}
use maintainer_d.Auth.Directory.{Role, Directory, authorize_login}
use maintainer_d.Auth.Stores.{
  Session, StateEntry, set_session, get_session, delete_session, set_state, consume_state,
}

pub data Method : Type 0 where
  get post options other : Method

pub data Route : Type 0 where
  login callback test_login logout api : Route

-- What the handlers read of an http.Request. An absent query parameter is the empty text.
pub record Request : Type 0 where
  pub route : Route
  pub method : Method
  pub session_cookie : Option Text
  pub state_cookie : Option Text
  pub state : Text
  pub code : Text
  pub redirect : Text
  pub login_name : Text

-- `random` is the answer of `randomToken`; `exchange` and `fetch_user` are GitHub's.
pub record Env : Type 0 where
  pub now : ℕ
  pub directory : Directory
  pub random : Option Text
  pub exchange : Text → Option Text
  pub fetch_user : Text → Option Text

-- `next` is the status that the handler behind `requireSession` answers.
pub record Config : Type 0 where
  pub session_ttl : ℕ
  pub state_ttl : ℕ
  pub test_mode : Bool
  pub web_base_url : Text
  pub auth_code_url : Text → Text
  pub next : Request → Session → ℕ

pub record Server : Type 0 where
  pub sessions : Dict Session
  pub oauth_states : Dict StateEntry

-- The status, the redirect, and the values of the cookies that the response sets.
pub record Response : Type 0 where
  pub status : ℕ
  pub location : Option Text
  pub set_session_cookie : Option Text
  pub set_state_cookie : Option Text

abbrev pub plain : ℕ → Response
plain n = record { status = n; location = none; set_session_cookie = none; set_state_cookie = none }

abbrev pub is_options : Method → Bool
is_options options = true
is_options _ = false

unfoldable pub sanitize_redirect : Text → Text
unfolding has_prefix
sanitize_redirect raw =
    if raw == []
    then []
    else if has_prefix raw (text "/") && not (has_prefix raw (text "//"))
    then raw
    else []

abbrev pub cookie_is : Option Text → Text → Bool
cookie_is none v = false
cookie_is (some c) v = c == v

module _ (c : Config) where
  -- The new session's id, which is also the cookie's value; `none` if there is no random token.
  unfoldable pub create_session : Env → Text → Role → Server → Option (Server × Text)
  unfolding set_session
  create_session env name role s = elim env.random [
    | none ↦ none
    | some id ↦ some (
      record s {
        sessions =
            set_session
              (record {
                id = id;
                login = name;
                role = role;
                created_at = env.now;
                expires_at = env.now + c.session_ttl;
              })
              s.sessions;
      },
      id,
    )
  ]

  unfoldable pub handle_login : Env → Request → Server → Server × Response
  unfolding sanitize_redirect set_state
  handle_login env req s = elim env.random [
    | none ↦ (s, plain 500)
    | some state ↦ (
      record s {
        oauth_states =
            set_state state
              (record {
                redirect = sanitize_redirect req.redirect;
                expires = env.now + c.state_ttl;
              })
              s.oauth_states;
      },
      record {
        status = 302;
        location = some (c.auth_code_url state);
        set_session_cookie = none;
        set_state_cookie = some state;
      },
    )
  ]

  -- The end of both logins: a session for an authorized login, 403 for another.
  unfoldable pub establish : Env → Text → Response → Server → Server × Response
  unfolding create_session
  establish env name done s = elim (authorize_login env.directory name) [
    | none ↦ (s, plain 403)
    | some role ↦ elim (create_session env name role s) [
      | none ↦ (s, plain 500)
      | some (s', id) ↦ (s', record done { set_session_cookie = some id })
    ]
  ]

  -- A redirect of [] adds nothing to the base URL.
  abbrev pub redirect_to : StateEntry → Response
  redirect_to entry = record (plain 302) {
    location =
        some (if entry.redirect == [] then c.web_base_url else c.web_base_url ++ entry.redirect);
  }

  -- `handleCallback` after the state was consumed.
  unfoldable pub finish_callback : Env → Text → StateEntry → Server → Server × Response
  unfolding establish
  finish_callback env code entry s = elim (env.exchange code) [
    | none ↦ (s, plain 400)
    | some token ↦ elim (env.fetch_user token) [
      | none ↦ (s, plain 502)
      | some user ↦ establish env (to_lower user) (redirect_to entry) s
    ]
  ]

  unfoldable pub after_consume :
      Env → Text → Server → Dict StateEntry × Option StateEntry → Server × Response
  unfolding finish_callback
  after_consume env code s (states, none) = (record s { oauth_states = states }, plain 400)
  after_consume env code s (states, some entry) =
      finish_callback env code entry (record s { oauth_states = states })

  unfoldable pub handle_callback : Env → Request → Server → Server × Response
  unfolding after_consume
  handle_callback env req s =
      if req.state == [] || req.code == []
      then (s, plain 400)
      else if not (cookie_is req.state_cookie req.state)
      then (s, plain 400)
      else after_consume env req.code s (consume_state env.now req.state s.oauth_states)

  unfoldable pub handle_test_login : Env → Request → Server → Server × Response
  unfolding establish
  handle_test_login env req s =
      if not c.test_mode
      then (s, plain 404)
      else if is_options req.method
      then (s, plain 204)
      else if trim_space req.login_name == []
      then (s, plain 400)
      else establish env (trim_space req.login_name) (plain 200) s

  -- The cookie is overwritten by an empty one that has expired.
  unfoldable pub handle_logout : Env → Request → Server → Server × Response
  unfolding delete_session
  handle_logout env req s = if is_options req.method then (s, plain 204) else (
    elim req.session_cookie [
      | none ↦ s
      | some id ↦ record s { sessions = (delete_session id s.sessions).0 }
    ],
    record (plain 204) { set_session_cookie = some [] },
  )

-- `withCORS (requireSession next)`: `inl` is the response that is sent without calling `next`.
unfoldable pub require_session : Env → Request → Server → Response ⊎ Session
unfolding get_session
require_session env req s =
    if is_options req.method then inl (plain 204) else elim req.session_cookie [
      | none ↦ inl (plain 401)
      | some id ↦ elim (get_session env.now id s.sessions) [
        | none ↦ inl (plain 401)
        | some sess ↦ inr sess
      ]
    ]

-- What the handlers behind `require_session` do to the tables: nothing.
unfoldable pub serve : Config → Env → Request → Server → Server × Response
unfolding handle_login handle_callback handle_test_login handle_logout require_session
serve c env req s = elim req.route [
  | login ↦ handle_login c env req s
  | callback ↦ handle_callback c env req s
  | test_login ↦ handle_test_login c env req s
  | logout ↦ handle_logout c env req s
  | api ↦ elim (require_session env req s) [
    | inl r ↦ (s, r)
    | inr sess ↦ (s, plain (c.next req sess))
  ]
]

-- The requests of a run in the order in which they are served.
unfoldable pub run : Config → Server → List (Env × Request) → Server
run c s [] = s
run c s ((env, req) ∷ rest) = run c (serve c env req s).0 rest

abbrev pub start : Server
start = record { sessions = []; oauth_states = [] }
