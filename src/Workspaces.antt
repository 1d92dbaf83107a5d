-- ===== src/Workspaces.antt =====
-- The kdp-workspaces operator: kdp-workspaces/internal/kcp, the client of the kcp server, and
-- kdp-workspaces/internal/controller, the controllers of the projects' workspaces and of the staff's
-- bindings in them. Here are the data, and the servers as the operator reaches them. `W` is the state of
-- everything outside the program.
pub mod Kcp
pub mod Rbac
pub mod Conditions
pub mod Project
pub mod Staff
pub mod Events
pub mod Memory
pub mod Tests
use maintainer_d.Base.{ℕ, Text, text, Bool, Option, List, ◌⊎◌}
use maintainer_d.Base.Dict.{Dict}
use maintainer_d.Scanner.Kube.{Found}

-- internal/kcp/client.go
pub record Config : Type 0 where
  pub kubeconfig_data : Text
  pub workspace_path : Text
  pub workspace_type : Text

-- internal/kcp/workspace.go
pub record WorkspaceInfo : Type 0 where
  pub name : Text
  pub url : Text
  pub phase : Text
  pub ready : Bool

-- kcp's resource, as far as the operator reads or writes it.
pub record Workspace : Type 0 where
  pub name : Text
  pub annotations : Dict Text
  pub type_name : Text
  pub type_path : Text
  pub url : Text
  pub phase : Text

pub record Subject : Type 0 where
  pub kind : Text
  pub name : Text

-- A ClusterRoleBinding; the annotations are a map that can be nil.
pub record Binding : Type 0 where
  pub name : Text
  pub annotations : Option (Dict Text)
  pub labels : Dict Text
  pub subjects : List Subject
  pub role : Text

-- A value in the object that the API returns: a string, a number, or anything else.
pub data Value : Type 0 where
  string : Text → Value
  number : ℕ → Value
  other : Value

-- The `status` of an unstructured object: `none` stands for what is absent or of another type.
pub record StatusMap : Type 0 where
  pub conditions : Option (List (Option (Dict Value)))
  pub others : Dict Value

-- A Project resource, as its metadata and its status.
pub record ProjectResource : Type 0 where
  pub name : Text
  pub namespace : Text
  pub generation : ℕ
  pub annotations : Dict Text
  pub status : Option StatusMap

-- A StaffMember resource. `spec` is `none` where it is not a map; so is the email.
pub record StaffResource : Type 0 where
  pub name : Text
  pub annotations : Dict Text
  pub spec : Option (Option Text)

-- metav1.Condition. A time counts the seconds since Go's zero time.
pub record MetaCondition : Type 0 where
  pub type : Text
  pub status : Text
  pub observed_generation : ℕ
  pub last_transition_time : ℕ
  pub reason : Text
  pub message : Text

-- The kcp server, by the methods of its SDK and of client-go: a path names a logical cluster, a host
-- the API of one. An error is its text, shortened where an object is not found; a deletion that succeeds answers with a text that is ignored. `poll` is `wait.PollUntilContextTimeout` at the interval and
-- timeout of WaitForWorkspaceReady, with the variable that the closure assigns.
pub record KcpServer (W : Type 0) : Type 0 where
  pub rest_config : Text → Text ⊎ Text
  pub cluster_client : Text → Option Text
  pub kubernetes_client : Text → Option Text
  pub new_path : Text → Text
  pub join : Text → Text → Text
  pub create_workspace : Text → Workspace → W → (Workspace ⊎ Text) × W
  pub get_workspace : Text → Text → W → Found Workspace × W
  pub delete_workspace : Text → Text → W → Found Text × W
  pub list_workspaces : Text → W → (List Workspace ⊎ Text) × W
  pub poll :
      (Option WorkspaceInfo → W → (Bool ⊎ Text) × Option WorkspaceInfo × W)
      → Option WorkspaceInfo
      → W
      → Option Text × Option WorkspaceInfo × W
  pub get_binding : Text → Text → W → Found Binding × W
  pub create_binding : Text → Binding → W → Option Text × W
  pub update_binding : Text → Binding → W → Option Text × W

-- The cluster of the operator, by the methods of controller-runtime's client. Names come with their
-- namespaces first; a patch takes the object before and after. `patch_project` answers with the
-- object that it fills in. `set_status` is unstructured.SetNestedField, `set_status_condition`
-- meta.SetStatusCondition, `format` the format RFC 3339 of a time.
pub record Cluster (W : Type 0) : Type 0 where
  pub get_config_map : Text → Text → W → Found (Dict Text) × W
  pub get_secret : Text → Text → W → Found (Dict Text) × W
  pub get_project : Text → Text → W → Found ProjectResource × W
  pub patch_project : ProjectResource → ProjectResource → W → (ProjectResource ⊎ Text) × W
  pub patch_status : ProjectResource → ProjectResource → W → Option Text × W
  pub list_staff : Text → W → (List StaffResource ⊎ Text) × W
  pub get_staff : Text → Text → W → Found StaffResource × W
  pub patch_staff : StaffResource → StaffResource → W → Option Text × W
  pub set_status : StatusMap → ProjectResource → ProjectResource ⊎ Text
  pub set_status_condition : MetaCondition → List MetaCondition → List MetaCondition
  pub now : W → ℕ
  pub format : ℕ → Text
  pub join_errors : List Text → Text
