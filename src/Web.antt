-- ===== src/Web.antt =====
-- cmd/web-bff/main.go: the handlers behind requireSession that read and write single rows. A body is
-- `none` if it cannot be decoded; the session is `none` if the context has none. Texts of refusals
-- are the source's. Times, the lists of projects and what is only logged are left out of the
-- responses.
pub mod Params
pub mod Actor
pub mod Changes
pub mod Maintainer
pub mod Company
pub mod Project
pub mod FromRef
pub mod Urls
pub mod Issues
pub mod Create
pub mod Summary
pub mod Serve
pub mod Entitled
pub mod Run
pub mod SelfEdit
mod Tests
use maintainer_d.Base.{ℕ, Text, text, Bool, true, false, Option, none, some, List}
use maintainer_d.Auth.Directory.{Role}
use maintainer_d.Auth.Stores.{Session}

pub data Method : Type 0 where
  get post patch put options other_method : Method

-- What a handler writes: http.Error with its status, 204, or a body with 200.
pub data Reply (A : Type 0) : Type 0 where
  refused : ℕ → Text → Reply A
  no_content : Reply A
  ok : A → Reply A

abbrev pub bad_request : ℕ
bad_request = 400

abbrev pub unauthorized : ℕ
unauthorized = 401

abbrev pub forbidden : ℕ
forbidden = 403

abbrev pub not_found : ℕ
not_found = 404

abbrev pub method_not_allowed : ℕ
method_not_allowed = 405

abbrev pub conflict : ℕ
conflict = 409

abbrev pub server_error : ℕ
server_error = 500

abbrev pub bad_gateway : ℕ
bad_gateway = 502

unfoldable pub role_text : Role → Text
role_text Role.staff = text "staff"
role_text Role.maintainer = text "maintainer"

pub record UpdateRequest : Type 0 where
  pub name : Text
  pub email : Text
  pub git_hub : Text
  pub status : Text
  pub company_id : Option ℕ

pub record StatusRequest : Type 0 where
  pub ids : List ℕ
  pub status : Text

pub record MergeRequest : Type 0 where
  pub from_id : ℕ
  pub to_id : ℕ

pub record AddRequest : Type 0 where
  pub project_id : ℕ
  pub name : Text
  pub git_hub_handle : Text
  pub email : Text
  pub company : Text

pub record CreateRequest : Type 0 where
  pub onboarding_issue : Text
  pub project_name : Text
  pub git_hub_org : Text
  pub legacy_maintainer_ref : Text
  pub dot_project_yaml_ref : Text
  pub parent_project_id : Option ℕ
  pub maturity : Text

pub record MaintainerDetail : Type 0 where
  pub id : ℕ
  pub name : Text
  pub email : Text
  pub git_hub : Text
  pub git_hub_email : Text
  pub status : Text
  pub company_id : Option ℕ
  pub company : Text
  pub updated_by : Text

-- The guard of the handlers that only staff may use.
unfoldable pub for_role : {A W : Type 0} → Role → (W → Reply A × W) → W → Reply A × W
for_role Role.staff run w = run w
for_role Role.maintainer run w = (refused forbidden (text "forbidden"), w)

unfoldable pub for_staff :
    {A W : Type 0} → Option Session → (Session → W → Reply A × W) → W → Reply A × W
unfolding for_role
for_staff none run w = (refused forbidden (text "forbidden"), w)
for_staff (some session) run w = for_role session.role (run session) w

-- A chain of checks, each of which may refuse the request.
pub data Checked (A : Type 0) : Type 0 where
  refuse : ℕ → Text → Checked A
  pass : A → Checked A

infixl 5 ◌>>=◌ ◌>>◌
abbrev pub ◌>>=◌ : {A B : Type 0} → Checked A → (A → Checked B) → Checked B
pass a >>= f = f a
refuse status message >>= f = refuse status message

abbrev pub ◌>>◌ : {B : Type 0} → Checked (Unit {0}) → Checked B → Checked B
m >> k = m >>= λ _. k

abbrev pub refuse_if : Bool → ℕ → Text → Checked (Unit {0})
refuse_if true status message = refuse status message
refuse_if false status message = pass tt
