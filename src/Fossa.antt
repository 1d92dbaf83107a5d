-- ===== src/Fossa.antt =====
-- plugins/fossa/client.go as its callers see it: the types of its answers, and the methods of the
-- interfaces that onboarding/interfaces.go and the scanner's controller declare. `W` is the state of
-- everything outside the program; a method returns the state that it leaves.
pub mod Trace
pub mod Answers
pub mod Client
mod Tests
use maintainer_d.Base.{ℕ, Text, Bool, Option, List, ◌++◌}

-- errors.Is on an error of the client: the two sentinels that callers ask for, and all others.
pub data ErrorKind : Type 0 where
  invite_already_exists user_already_member other : ErrorKind

pub record Error : Type 0 where
  pub kind : ErrorKind
  pub message : Text

-- fmt.Errorf with %w at the end: errors.Is sees through it.
abbrev pub wrap : Text → Error → Error
wrap prefix e = record e { message = prefix ++ e.message }

pub data Result (A : Type 0) : Type 0 where
  ok : A → Result A
  err : Error → Result A

pub record Team : Type 0 where
  pub id : ℕ
  pub name : Text
  pub created_at : ℕ

pub record User : Type 0 where
  pub id : ℕ
  pub email : Text
  pub git_hub_email : Option Text
  pub bitbucket_email : Option Text

-- A method that returns only an error returns an `Option Error`.
pub record FossaClient (W : Type 0) : Type 0 where
  pub create_team : Text → W → Result Team × W
  pub fetch_team : Text → W → Result Team × W
  pub send_user_invitation : Text → W → Option Error × W
  pub has_pending_invitation : Text → W → Result Bool × W
  pub fetch_users : W → Result (List User) × W
  pub add_user_to_team_by_email : ℕ → Text → ℕ → W → Option Error × W
  pub fetch_team_user_emails : ℕ → W → Result (List Text) × W
