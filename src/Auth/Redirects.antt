-- ===== src/Auth/Redirects.antt =====
-- Where the login flow of cmd/web-bff/main.go sends the browser: `sanitizeRedirect` at the start of
-- the flow, and the redirect at its end.
use mathlib.Core.List.{append-nil}
use maintainer_d.Base.{
  ℕ, ◌+◌, ◌≡◌, ◌≢◌, refl, ap, subst, ◌∙◌, eqb, eqb_iff, sym, inl, inr, Text, ◌==◌, some, List, [],
  ◌∷◌, ◌++◌, arith, Option-cases, Bool-cases, if◌then◌else◌, trim_space,
}
use maintainer_d.Base.Dict.{get, get-put, get-remove}
use maintainer_d.Auth.Stores.{StateEntry, consume_state}
use maintainer_d.Auth.Handlers.{
  Env, Config, Request, Server, Route, login, callback, test_login, logout, api, plain,
  handle_login, handle_callback, handle_test_login, handle_logout, serve, run, start,
  sanitize_redirect,
}
use maintainer_d.Auth.Callback.{callback_keeps, establish_states, handle_callback-IsAdmitted}

abbrev IsNoSlash : Text → Type 0
IsNoSlash [] = Unit
IsNoSlash (c ∷ s) = c ≢ b'/'

-- No path, or a path of this site: it begins with one slash and not with two, which would name
-- another host.
abbrev pub IsLocal : Text → Type 0
IsLocal [] = Unit
IsLocal (c ∷ s) = (c ≡ b'/') × IsNoSlash s

sanitize_redirect-IsLocal : (raw : Text) → IsLocal (sanitize_redirect raw)
unfolding sanitize_redirect ◌==◌
sanitize_redirect-IsLocal [] = tt
sanitize_redirect-IsLocal (c ∷ []) = elim (Bool-cases (eqb c b'/')) [
  | inl slash ↦ rw slash ((eqb_iff c b'/').0 slash, tt)
  | inr other ↦ rw other tt
]
sanitize_redirect-IsLocal (c ∷ d ∷ s) = elim (Bool-cases (eqb c b'/')) [
  | inl slash ↦ elim (Bool-cases (eqb d b'/')) [
    | inl double ↦ rw (slash, double) tt
    | inr single ↦ rw (slash, single) ((eqb_iff c b'/').0 slash, ground arith)
  ]
  | inr other ↦ rw other tt
]

abbrev IsSafeAt : Text → StateEntry → Server → Type 0
IsSafeAt k entry s = get k s.oauth_states ≡ some entry → IsLocal entry.redirect

module _ (c : Config) (env : Env) (k : Text) (entry : StateEntry) where
  abbrev IsSafe : Server → Type 0
  IsSafe s = IsSafeAt k entry s

  login_redirects : (req : Request) (s : Server) → IsSafe s → IsSafe (handle_login c env req s).0
  unfolding handle_login
  login_redirects req s safe h = elim (Option-cases env.random) [
    | inl missing ↦ safe (ground arith)
    | inr (state, e) ↦ elim (Bool-cases (state == k)) [
      | inl same ↦
          let new : StateEntry = record {
            redirect = sanitize_redirect req.redirect;
            expires = env.now + c.state_ttl;
          } in
          let is_new : new ≡ entry = ground (arith, get-put state k new s.oauth_states) in
          subst (λ (x : StateEntry). IsLocal x.redirect) is_new
            (sanitize_redirect-IsLocal req.redirect)
      | inr other ↦ safe (
          ground (
            arith,
            get-put state k
                (record {
                  redirect = sanitize_redirect req.redirect;
                  expires = env.now + c.state_ttl;
                })
                s.oauth_states,
          ))
    ]
  ]

  consume_redirects :
      (now : ℕ) (state : Text) (s : Server)
      → IsSafe s
      → get k (consume_state now state s.oauth_states).0 ≡ some entry
      → IsLocal entry.redirect
  unfolding consume_state
  consume_redirects now state s safe h = safe (ground (arith, get-remove state k s.oauth_states))

  callback_redirects :
      (req : Request) (s : Server) → IsSafe s → IsSafe (handle_callback c env req s).0
  unfolding handle_callback
  callback_redirects req s safe h =
      let r = consume_state env.now req.state s.oauth_states in
      elim (callback_keeps c env req s) [
        | inl same ↦ safe (cc same)
        | inr used ↦ consume_redirects env.now req.state s safe (cc used)
      ]

  test_login_redirects :
      (req : Request) (s : Server) → IsSafe s → IsSafe (handle_test_login c env req s).0
  unfolding handle_test_login
  test_login_redirects req s safe h =
      safe (ground (arith, establish_states c env (trim_space req.login_name) (plain 200) s))

  logout_redirects : (req : Request) (s : Server) → IsSafe s → IsSafe (handle_logout c env req s).0
  unfolding handle_logout
  logout_redirects req s safe h = safe (ground arith)

  serve_redirects : (req : Request) (s : Server) → IsSafe s → IsSafe (serve c env req s).0
  unfolding serve
  serve_redirects req s safe h = by_route req.route refl
    where
      by_route : (r : Route) → req.route ≡ r → IsLocal entry.redirect
      by_route login e = login_redirects req s safe (ground arith)
      by_route callback e = callback_redirects req s safe (ground arith)
      by_route test_login e = test_login_redirects req s safe (ground arith)
      by_route logout e = logout_redirects req s safe (ground arith)
      by_route api e = safe (ground arith)

run_redirects :
    (c : Config) (k : Text) (entry : StateEntry) (s : Server) (requests : List (Env × Request))
    → IsSafeAt k entry s
    → IsSafeAt k entry (run c s requests)
unfolding run
run_redirects c k entry s [] safe = safe
run_redirects c k entry s ((env, req) ∷ rest) safe =
    run_redirects c k entry (serve c env req s).0 rest (serve_redirects c env k entry req s safe)

redirect_target : (base path : Text) → (if path == [] then base else base ++ path) ≡ base ++ path
unfolding ◌==◌
redirect_target base [] = sym (append-nil base)
redirect_target base (c ∷ path) = refl

-- Whatever requests came before, a callback that redirects sends the browser to the configured base
-- URL followed by nothing or by a path of this site, never to another host.
pub callback_location-IsLocal :
    (c : Config) (requests : List (Env × Request)) (env : Env) (req : Request)
    → (handle_callback c env req (run c start requests)).1.status ≡ 302
    → (path : Text) × IsLocal path
      × ((handle_callback c env req (run c start requests)).1.location
          ≡ some (c.web_base_url ++ path))
callback_location-IsLocal c requests env req h =
    let (entry, admitted, sent) = handle_callback-IsAdmitted c env req (run c start requests) h in
    (
      entry.redirect,
      run_redirects c req.state entry start requests (λ old. absurd (unfold get in cc old))
          admitted.issued,
      sent ∙ ap some (redirect_target c.web_base_url entry.redirect),
    )
