-- ===== src/Auth/Stores.antt =====
-- The two tables of the server: `sessionStore` and `stateStore` of cmd/web-bff/main.go. Their locks
-- make each operation one step.
use maintainer_d.Base.{ℕ, Text, Option, none, some, ltb, if◌then◌else◌}
use maintainer_d.Base.Dict.{Dict, get, put, remove}
use maintainer_d.Auth.Directory.{Role}

pub record Session : Type 0 where
  pub id : Text
  pub login : Text
  pub role : Role
  pub created_at : ℕ
  pub expires_at : ℕ

pub record StateEntry : Type 0 where
  pub redirect : Text
  pub expires : ℕ

unfoldable pub set_session : Session → Dict Session → Dict Session
set_session sess m = put sess.id sess m

-- `time.Now().After(t)` is `t < now`.
abbrev live_session : ℕ → Option Session → Option Session
live_session now none = none
live_session now (some sess) = if ltb sess.expires_at now then none else some sess

unfoldable pub get_session : ℕ → Text → Dict Session → Option Session
unfolding get
get_session now id m = live_session now (get id m)

unfoldable pub delete_session : Text → Dict Session → Dict Session × Option Session
delete_session id m = elim (get id m) [ none ↦ (m, none) | some sess ↦ (remove id m, some sess) ]

unfoldable pub set_state : Text → StateEntry → Dict StateEntry → Dict StateEntry
set_state state entry m = put state entry m

abbrev live_state : ℕ → Option StateEntry → Option StateEntry
live_state now none = none
live_state now (some e) = if ltb e.expires now then none else some e

-- The entry is deleted whether it is returned or has expired.
unfoldable pub consume_state : ℕ → Text → Dict StateEntry → Dict StateEntry × Option StateEntry
consume_state now state m = (remove state m, live_state now (get state m))
