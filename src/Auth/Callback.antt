-- ===== src/Auth/Callback.antt =====
-- `handleCallback` of cmd/web-bff/main.go: what a login that succeeds has shown, what becomes of its
-- state, and where the browser is sent.
use maintainer_d.Base.{
  ℕ, ◌≤◌, ◌≡◌, refl, ap, ◌⊎◌, inl, inr, Text, eq_iff, eq_refl, to_lower, true, Option, none, some,
  arith, Option-cases, Bool-cases,
}
use maintainer_d.Base.Dict.{Dict, get, get-remove}
use maintainer_d.Auth.Directory.{Role, authorize_login}
use maintainer_d.Auth.Stores.{StateEntry, consume_state}
use maintainer_d.Auth.Handlers.{
  Env, Config, Request, Response, Server, after_consume, redirect_to, establish, finish_callback,
  handle_callback, cookie_is,
}

-- What a callback that ends in a redirect has shown.
pub record IsAdmitted (env : Env) (req : Request) (s : Server) (entry : StateEntry) : Type 0 where
  pub same_browser : req.state_cookie ≡ some req.state
  pub issued : get req.state s.oauth_states ≡ some entry
  pub in_time : env.now ≤ entry.expires
  pub token : Text
  pub exchanged : env.exchange req.code ≡ some token
  pub user : Text
  pub fetched : env.fetch_user token ≡ some user
  pub role : Role
  pub authorized : authorize_login env.directory (to_lower user) ≡ some role

cookie_is_lem : (o : Option Text) (v : Text) → cookie_is o v ≡ true → o ≡ some v
cookie_is_lem none v h = cc
cookie_is_lem (some c) v h = ap some ((eq_iff c v).0 h)

module _ (c : Config) (env : Env) where
  establish_302 :
      (name : Text) (done : Response) (s : Server)
      → (establish c env name done s).1.status ≡ 302
      → (role : Role) × (authorize_login env.directory name ≡ some role)
        × ((establish c env name done s).1.location ≡ done.location)
  unfolding establish
  establish_302 name done s h = elim (Option-cases (authorize_login env.directory name)) [
    | inl missing ↦ absurd (ground arith)
    | inr (role, e) ↦ (role, e, ground arith)
  ]

  -- The three answers of GitHub and the directory on which a redirect rests.
  finish_302 :
      (code : Text) (entry : StateEntry) (s : Server)
      → (finish_callback c env code entry s).1.status ≡ 302
      → (token : Text) × (env.exchange code ≡ some token)
        × (user : Text) × (env.fetch_user token ≡ some user)
        × (role : Role) × (authorize_login env.directory (to_lower user) ≡ some role)
        × ((finish_callback c env code entry s).1.location ≡ (redirect_to c entry).location)
  unfolding finish_callback
  finish_302 code entry s h = elim (Option-cases (env.exchange code)) [
    | inl missing ↦ absurd (ground arith)
    | inr (token, e) ↦ elim (Option-cases (env.fetch_user token)) [
      | inl missing ↦ absurd (ground arith)
      | inr (user, f) ↦
          let (role, a, l) = establish_302 (to_lower user) (redirect_to c entry) s (ground arith) in
          (token, e, user, f, role, a, ground arith)
    ]
  ]

  -- A state that is consumed was in the table and had not expired.
  consume_state_lem :
      (now : ℕ) (state : Text) (m : Dict StateEntry) (entry : StateEntry)
      → (consume_state now state m).1 ≡ some entry
      → (get state m ≡ some entry) × (now ≤ entry.expires)
  unfolding consume_state
  consume_state_lem now state m entry h = ground arith

  callback_cases :
      (req : Request) (s : Server)
      → (handle_callback c env req s).1.status ≡ 302
      → (req.state_cookie ≡ some req.state)
        × (handle_callback c env req s
            ≡ after_consume c env req.code s (consume_state env.now req.state s.oauth_states))
  unfolding handle_callback
  callback_cases req s h = elim (Bool-cases (cookie_is req.state_cookie req.state)) [
    | inl same ↦ (cookie_is_lem _ _ same, ground arith)
    | inr other ↦ absurd (ground arith)
  ]

  after_consume_302 :
      (code : Text) (s : Server) (states : Dict StateEntry) (found : Option StateEntry)
      → (after_consume c env code s (states, found)).1.status ≡ 302
      → (entry : StateEntry) × (found ≡ some entry)
        × (after_consume c env code s (states, found)
            ≡ finish_callback c env code entry (record s { oauth_states = states }))
  unfolding after_consume
  after_consume_302 code s states none h = absurd (omega arith)
  after_consume_302 code s states (some entry) h = (entry, refl, refl)

  -- A callback redirects only if the state cookie equals the state of the query, the state is one
  -- that the table holds and that has not expired, GitHub exchanged the code and named the user, and
  -- the lower-cased user is authorized; it redirects to the place that the state's entry holds.
  pub handle_callback-IsAdmitted :
      (req : Request) (s : Server)
      → (handle_callback c env req s).1.status ≡ 302
      → (entry : StateEntry) × IsAdmitted env req s entry
        × ((handle_callback c env req s).1.location ≡ (redirect_to c entry).location)
  handle_callback-IsAdmitted req s h =
      let states = consume_state env.now req.state s.oauth_states in
      let (same, e) = callback_cases req s h in
      let (entry, found, f) = after_consume_302 req.code s states.0 states.1 (cc e) in
      let s' : Server = record s { oauth_states = states.0 } in
      let (token, exchanged, user, fetched, role, authorized, l) =
        finish_302 req.code entry s' (cc (e, f)) in
      let (issued, in_time) = consume_state_lem env.now req.state s.oauth_states entry found in
      (
        entry,
        record {
          same_browser = same;
          issued = issued;
          in_time = in_time;
          token = token;
          exchanged = exchanged;
          user = user;
          fetched = fetched;
          role = role;
          authorized = authorized;
        },
        cc (e, f, l),
      )

  pub establish_states :
      (name : Text) (done : Response) (s : Server)
      → (establish c env name done s).0.oauth_states ≡ s.oauth_states
  unfolding establish
  establish_states name done s = ground arith

  finish_states :
      (code : Text) (entry : StateEntry) (s : Server)
      → (finish_callback c env code entry s).0.oauth_states ≡ s.oauth_states
  unfolding finish_callback
  finish_states code entry s = elim (Option-cases (env.exchange code)) [
    | inl missing ↦ ground arith
    | inr (token, e) ↦ elim (Option-cases (env.fetch_user token)) [
      | inl missing ↦ ground arith
      | inr (user, f) ↦ ground (arith, establish_states (to_lower user) (redirect_to c entry) s)
    ]
  ]

  after_consume_states :
      (code : Text) (s : Server) (states : Dict StateEntry) (found : Option StateEntry)
      → (after_consume c env code s (states, found)).0.oauth_states ≡ states
  unfolding after_consume
  after_consume_states code s states none = refl
  after_consume_states code s states (some entry) =
      finish_states code entry (record s { oauth_states = states })

  -- A callback leaves the table of states alone or takes its own state out of it.
  pub callback_keeps :
      (req : Request) (s : Server)
      → ((handle_callback c env req s).0.oauth_states ≡ s.oauth_states)
        ⊎ ((handle_callback c env req s).0.oauth_states
            ≡ (consume_state env.now req.state s.oauth_states).0)
  unfolding handle_callback
  callback_keeps req s =
      let r = consume_state env.now req.state s.oauth_states in
      ground (arith, after_consume_states req.code s r.0 r.1)

  consume_states :
      (now : ℕ) (state : Text) (m : Dict StateEntry)
      → get state (consume_state now state m).0 ≡ none
  unfolding consume_state
  consume_states now state m = rw (get-remove, eq_refl)

  -- A state that the table does not hold is refused.
  callback_unknown :
      (req : Request) (s : Server)
      → get req.state s.oauth_states ≡ none
      → (handle_callback c env req s).1.status ≡ 400
  unfolding handle_callback after_consume consume_state
  callback_unknown req s h = ground arith

-- After a callback that ends in a redirect its state is used up: in the server that it leaves, any
-- callback with that state, whatever its code, cookie, time and answers of GitHub, gets 400.
pub handle_callback_once :
    (c : Config) (env env' : Env) (req req' : Request) (s : Server)
    → (handle_callback c env req s).1.status ≡ 302
    → req'.state ≡ req.state
    → (handle_callback c env' req' (handle_callback c env req s).0).1.status ≡ 400
handle_callback_once c env env' req req' s h same =
    let r = consume_state env.now req.state s.oauth_states in
    let (_, e) = callback_cases c env req s h in
    let left : (handle_callback c env req s).0.oauth_states ≡ r.0 =
      cc (e, after_consume_states c env req.code s r.0 r.1) in
    callback_unknown c env' req' (handle_callback c env req s).0
      (rw (same, left) (consume_states c env env.now req.state s.oauth_states))
