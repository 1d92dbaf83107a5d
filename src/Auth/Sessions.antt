-- ===== src/Auth/Sessions.antt =====
-- Where the sessions of cmd/web-bff/main.go come from, and which requests `requireSession` lets by.
use mathlib.Core.List.{Memᴰ}
use maintainer_d.Base.{
  ◌+◌, ◌≤◌, ◌≡◌, ◌≢◌, if◌then◌else◌, refl, ◌↔◌, ◌⊎◌, inl, inr, Text, ◌==◌, eq_iff, to_lower,
  trim_space, false, Option, none, some, List, [], ◌∷◌, arith, Option-cases, Bool-cases, subst, sym,
  ap, ◌∙◌,
}
use maintainer_d.Base.Dict.{Dict, get, put, get-put, get-remove}
use maintainer_d.Auth.Directory.{authorize_login}
use maintainer_d.Auth.Stores.{Session, StateEntry, consume_state, delete_session, get_session}
use maintainer_d.Auth.Handlers.{
  Env, Config, Request, Response, after_consume, plain, redirect_to, Server, Route, login, callback,
  test_login, logout, api, establish, finish_callback, handle_login, handle_callback,
  handle_test_login, handle_logout, require_session, serve, run, start, is_options,
}

-- A session that a request with this environment set up.
pub record IsEstablished (c : Config) (env : Env) (sess : Session) : Type 0 where
  pub authorized : authorize_login env.directory sess.login ≡ some sess.role
  pub created : sess.created_at ≡ env.now
  pub expires : sess.expires_at ≡ env.now + c.session_ttl
  pub token : env.random ≡ some sess.id

get-delete_session :
    (id k : Text) (m : Dict Session)
    → get k (delete_session id m).0 ≡ (if id == k then none else get k m)
unfolding delete_session
get-delete_session id k m = ground (arith, get-remove id k m, eq_iff id k)

deleted_session :
    (id : Text) (m : Dict Session) (k : Text) (sess : Session)
    → id ≡ k
    → get k (delete_session id m).0 ≢ some sess
deleted_session id m k sess same h = ground (arith, get-delete_session id k m, eq_iff id k)

module _ (c : Config) (env : Env) (id : Text) (sess : Session) where
  -- The session stands in the table already, or the request sets it up under its id.
  abbrev IsAccounted : Server → Type 0
  IsAccounted s = (get id s.sessions ≡ some sess) ⊎ (IsEstablished c env sess × (id ≡ sess.id))

  fresh_session :
      (new : Session) (s : Server)
      → IsEstablished c env new
      → get id (put new.id new s.sessions) ≡ some sess
      → IsAccounted s
  fresh_session new s e h = elim (Bool-cases (new.id == id)) [
    | inl same ↦
        let new_is : new ≡ sess = ground (arith, get-put new.id id new s.sessions) in
        inr (subst (IsEstablished c env) new_is e, sym ((eq_iff _ _).0 same) ∙ ap Session.id new_is)
    | inr other ↦ inl (ground (arith, get-put new.id id new s.sessions))
  ]

  establish_sessions :
      (name : Text) (done : Response) (s : Server)
      → get id (establish c env name done s).0.sessions ≡ some sess
      → IsAccounted s
  unfolding establish
  establish_sessions name done s h = elim (Option-cases (authorize_login env.directory name)) [
    | inl missing ↦ inl (ground arith)
    | inr (role, authorized) ↦ elim (Option-cases env.random) [
      | inl missing ↦ inl (ground arith)
      | inr (tok, token) ↦
          fresh_session
            (record {
              id = tok;
              login = name;
              role = role;
              created_at = env.now;
              expires_at = env.now + c.session_ttl;
            })
            s (record { authorized = authorized; created = refl; expires = refl; token = token })
            (ground arith)
    ]
  ]

  finish_callback_sessions :
      (code : Text) (entry : StateEntry) (s : Server)
      → get id (finish_callback c env code entry s).0.sessions ≡ some sess
      → IsAccounted s
  unfolding finish_callback
  finish_callback_sessions code entry s h = elim (Option-cases (env.exchange code)) [
    | inl missing ↦ inl (ground arith)
    | inr (token, e) ↦ elim (Option-cases (env.fetch_user token)) [
      | inl missing ↦ inl (ground arith)
      | inr (user, f) ↦
          establish_sessions (to_lower user) (redirect_to c entry) s
            (rw (f, finish_callback) at (rw (e, finish_callback) at h))
    ]
  ]

  after_consume_sessions :
      (code : Text) (s : Server) (r : Dict StateEntry × Option StateEntry)
      → get id (after_consume c env code s r).0.sessions ≡ some sess
      → IsAccounted s
  unfolding after_consume
  after_consume_sessions code s (states, none) h = inl h
  after_consume_sessions code s (states, some entry) h =
      finish_callback_sessions code entry (record s { oauth_states = states }) h

  callback_sessions :
      (req : Request) (s : Server)
      → get id (handle_callback c env req s).0.sessions ≡ some sess
      → IsAccounted s
  unfolding handle_callback
  callback_sessions req s h =
      ground
        (arith, after_consume_sessions req.code s (consume_state env.now req.state s.oauth_states))

  test_login_sessions :
      (req : Request) (s : Server)
      → get id (handle_test_login c env req s).0.sessions ≡ some sess
      → IsAccounted s
  unfolding handle_test_login
  test_login_sessions req s h =
      ground (arith, establish_sessions (trim_space req.login_name) (plain 200) s)

  delete_sessions :
      (k : Text) (s : Server)
      → get id (delete_session k s.sessions).0 ≡ some sess
      → get id s.sessions ≡ some sess
  unfolding delete_session
  delete_sessions k s h = ground (arith, get-remove k id s.sessions)

  logout_sessions :
      (req : Request) (s : Server)
      → get id (handle_logout c env req s).0.sessions ≡ some sess
      → IsAccounted s
  unfolding handle_logout
  logout_sessions req s h = elim (Option-cases req.session_cookie) [
    | inl missing ↦ inl (ground arith)
    | inr (k, e) ↦ inl (ground (arith, delete_sessions k s))
  ]

  serve_sessions :
      (req : Request) (s : Server)
      → get id (serve c env req s).0.sessions ≡ some sess
      → IsAccounted s
  unfolding serve
  serve_sessions req s h = by_route req.route refl
    where
      by_route : (r : Route) → req.route ≡ r → IsAccounted s
      by_route login e = inl (unfold handle_login in ground arith)
      by_route callback e = callback_sessions req s (ground arith)
      by_route test_login e = test_login_sessions req s (ground arith)
      by_route logout e = logout_sessions req s (ground arith)
      by_route api e = inl (ground arith)

module _ (c : Config) (id : Text) (sess : Session) where
  abbrev IsTraced : List (Env × Request) → Type 0
  IsTraced requests =
      (e : Env × Request) × Memᴰ e requests × IsEstablished c e.0 sess × (id ≡ sess.id)

  run_sessions :
      (s : Server) (requests : List (Env × Request))
      → get id (run c s requests).sessions ≡ some sess
      → (get id s.sessions ≡ some sess) ⊎ IsTraced requests
  unfolding run
  run_sessions s [] h = inl h
  run_sessions s ((env, req) ∷ rest) h = elim (run_sessions (serve c env req s).0 rest h) [
    | inr (e, m, est, key) ↦ inr (e, Memᴰ.tail m, est, key)
    | inl before ↦ elim (serve_sessions c env id sess req s before) [
      | inl old ↦ inl old
      | inr (est, key) ↦ inr ((env, req), Memᴰ.head refl, est, key)
    ]
  ]

-- Every session that stands in the table after a run from the empty server was set up by a request
-- of that run, for a login that `authorize_login` gave that role at that moment; it carries the time
-- of that request, expires one session lifetime later, and is keyed by its own random id.
run-IsEstablished :
    (c : Config) (requests : List (Env × Request)) (id : Text) (sess : Session)
    → get id (run c start requests).sessions ≡ some sess
    → (e : Env × Request) × Memᴰ e requests × IsEstablished c e.0 sess × (id ≡ sess.id)
run-IsEstablished c requests id sess h = elim (run_sessions c id sess start requests h) [
  | inl old ↦ absurd (unfold get in cc old)
  | inr traced ↦ traced
]

-- `require_session` hands a request on exactly if it is no OPTIONS request and its cookie names a
-- session of the table that has not expired; that session is the one handed on.
pub require_session_iff :
    (env : Env) (req : Request) (s : Server) (sess : Session)
    → (require_session env req s ≡ inr sess) ↔ (
        (is_options req.method ≡ false)
        × (id : Text) × (req.session_cookie ≡ some id)
        × (get id s.sessions ≡ some sess)
        × (env.now ≤ sess.expires_at))
unfolding require_session get_session
require_session_iff env req s sess = (forth, λ h. back h.0 h.1 h.2 h.3 h.4)
  where
    forth :
        require_session env req s ≡ inr sess
        → (is_options req.method ≡ false)
          × (id : Text) × (req.session_cookie ≡ some id)
          × (get id s.sessions ≡ some sess)
          × (env.now ≤ sess.expires_at)
    forth h = elim (Option-cases req.session_cookie) [
      | inl missing ↦ absurd (ground arith)
      | inr (id, e) ↦ (ground arith, id, e, ground arith, ground arith)
    ]

    back :
        is_options req.method ≡ false
        → (id : Text) → req.session_cookie ≡ some id
        → get id s.sessions ≡ some sess
        → env.now ≤ sess.expires_at
        → require_session env req s ≡ inr sess
    back o id e f l = ground arith

-- A request that the middleware hands on after a run from the empty server carries the id of a
-- session that an earlier request of the run set up for an authorized login, at most one session
-- lifetime before.
pub api_access-IsEstablished :
    (c : Config) (requests : List (Env × Request)) (env : Env) (req : Request) (sess : Session)
    → require_session env req (run c start requests) ≡ inr sess
    → (e : Env × Request) × Memᴰ e requests
      × IsEstablished c e.0 sess
      × (req.session_cookie ≡ some sess.id)
      × (env.now ≤ e.0.now + c.session_ttl)
api_access-IsEstablished c requests env req sess h =
    let (_, id, cookie, held, in_time) =
      (require_session_iff env req (run c start requests) sess).0 h in
    let (e, m, est, key) = run-IsEstablished c requests id sess held in
    (e, m, est, cookie ∙ ap some key, omega (arith, est.expires))

-- A logout other than an OPTIONS request ends the session that its cookie names: no request with
-- that cookie is handed on afterwards, at any time. Sessions under other ids stay.
pub logout_ends :
    (c : Config) (env env' : Env) (req req' : Request) (s : Server) (id : Text)
    → is_options req.method ≡ false
    → req.session_cookie ≡ some id
    → req'.session_cookie ≡ some id
    → ((sess : Session) → require_session env' req' (handle_logout c env req s).0 ≢ inr sess)
      × ((k : Text) → k ≢ id → get k (handle_logout c env req s).0.sessions ≡ get k s.sessions)
unfolding handle_logout
logout_ends c env env' req req' s id not_options cookie cookie' = (ended, others)
  where
    ended : (sess : Session) → require_session env' req' (handle_logout c env req s).0 ≢ inr sess
    ended sess h =
        let (_, k, named, held, _) = (require_session_iff env' req' _ sess).0 h in
        deleted_session id s.sessions k sess (ground arith) (ground arith)

    others : (k : Text) → k ≢ id → get k (handle_logout c env req s).0.sessions ≡ get k s.sessions
    others k other = ground (arith, get-delete_session id k s.sessions, eq_iff id k)
