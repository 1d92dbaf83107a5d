-- ===== src/Scanner/Kube.antt =====
-- The CodeScannerFossa resource, and the cluster as the controller reaches it: the methods of
-- controller-runtime's client and of the event recorder that it calls. `W` is the state of
-- everything outside the program.
use maintainer_d.Base.{ℕ, Text, Option, List, ◌⊎◌}
use maintainer_d.Base.Dict.{Dict}
use maintainer_d.Base.Decimal.{ℤ}
use maintainer_d.Scanner.Types.{FossaUserInvitation}
use maintainer_d.Scanner.Conditions.{Condition, Note}

pub record FossaTeamReference : Type 0 where
  pub id : ℕ
  pub name : Text
  pub organization_id : ℤ
  pub url : Text
  pub created_at : ℕ

pub record CodeScannerFossaSpec : Type 0 where
  pub project_name : Text
  pub config_map_name : Text
  pub fossa_user_emails : List Text

pub record CodeScannerFossaStatus : Type 0 where
  pub observed_generation : ℕ
  pub config_map_ref : Text
  pub fossa_team : Option FossaTeamReference
  pub user_invitations : List FossaUserInvitation
  pub conditions : List Condition

-- The metadata are those that the controller reads or writes.
pub record CodeScannerFossa : Type 0 where
  pub name : Text
  pub namespace : Text
  pub generation : ℕ
  pub annotations : Dict Text
  pub spec : CodeScannerFossaSpec
  pub status : CodeScannerFossaStatus

pub record ConfigMap : Type 0 where
  pub name : Text
  pub namespace : Text
  pub config_data : Dict Text

-- The answer of `Get`; the flag of `k8serrors.IsNotFound` is a case of its own.
pub data Found (A : Type 0) : Type 0 where
  found : A → Found A
  not_found : Found A
  failed : Text → Found A

pub data EventType : Type 0 where
  normal warning : EventType

pub data Event : Type 0 where
  event : EventType → Text → Note → Event

-- A method that returns only an error returns an `Option Text`. `Patch` fills the object that it is
-- given with the server's answer; the answer here is that object, or an error.
pub record Kube (W : Type 0) : Type 0 where
  pub get_cr : W → Found CodeScannerFossa × W
  pub get_secret : Text → Text → W → Found (Dict Text) × W
  pub get_config_map : Text → Text → W → Found (Dict Text) × W
  pub create_config_map : ConfigMap → W → Option Text × W
  pub update_config_map : ConfigMap → W → Option Text × W
  pub set_controller_reference : CodeScannerFossa → ConfigMap → Option Text
  pub patch : CodeScannerFossa → W → (CodeScannerFossa ⊎ Text) × W
  pub update_status : CodeScannerFossa → W → Option Text × W
  pub record_event : Event → W → W
