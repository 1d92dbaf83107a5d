-- ===== src/Workspaces/Project.antt =====
-- Reconcile of kdp-workspaces/internal/controller/project_controller.go.

pub mod Laws
pub mod Writes
pub mod Waits
pub mod Progress
pub mod Ready
use maintainer_d.Base.{
  ℕ, Text, text, to_lower, Bool, true, false, Option, none, some, ◌++◌, ◌⊎◌, inl, inr,
  if◌then◌else◌,
}
use maintainer_d.Scanner.Kube.{Found, found, not_found, failed}
use maintainer_d.Workspaces.{
  Config, WorkspaceInfo, ProjectResource, MetaCondition, KcpServer, Cluster,
}
use maintainer_d.Workspaces.Kcp.{
  load_config_from_cluster, new_client, get_workspace, create_workspace, wait_for_workspace_ready,
}
use maintainer_d.Workspaces.Conditions.{
  workspace_ready_condition, update_condition, update_workspace_status,
}

pub record ProjectReconciler : Type 0 where
  pub kcp_config_map_name : Text
  pub kcp_config_map_namespace : Text
  pub kcp_secret_name : Text
  pub kcp_secret_namespace : Text

-- The time to requeue after in seconds, 0 for none, and the error. A nil pointer panics.
pub data Ended : Type 0 where
  returned : ℕ → Option Text → Ended
  panicked : Ended

abbrev pub false_condition : Text → Text → MetaCondition
false_condition reason message = record {
  type = workspace_ready_condition;
  status = text "False";
  observed_generation = 0;
  last_transition_time = 0;
  reason = reason;
  message = message;
}

abbrev pub requeue_unless : Bool → ℕ
requeue_unless true = 0
requeue_unless false = 5

abbrev pub status_written : {W : Type 0} → ℕ → Option Text × W → Ended × W
status_written delay (none, w) = (returned delay none, w)
status_written delay (some e, w) = (returned 0 (some e), w)

module _ {W : Type 0} (cluster : Cluster W) where
  -- A step that fails is told in the condition; an error of that update is only logged.
  unfoldable pub give_up : ProjectResource → Text → Text → ℕ → Text → W → Ended × W
  unfolding update_condition
  give_up project reason message delay e w = (
    returned delay (some e),
    (update_condition cluster project (false_condition reason (message ++ e)) w).1,
  )

  unfoldable pub after_wait :
      ProjectResource → WorkspaceInfo → Option WorkspaceInfo × Option Text × W → Ended × W
  unfolding update_workspace_status
  after_wait project created (last, some e, w) =
      (returned 30 (some e), (update_workspace_status cluster project created w).1)
  after_wait project created (some ready, none, w) =
      status_written 0 (update_workspace_status cluster project ready w)
  after_wait project created (none, none, w) = (panicked, w)

module _ {W : Type 0} (kcp : KcpServer W) (cluster : Cluster W) where
  unfoldable pub after_create_workspace :
      ProjectResource → Config → Text → WorkspaceInfo ⊎ Text → W → Ended × W
  unfolding after_wait give_up wait_for_workspace_ready
  after_create_workspace project config name (inr e) w =
      give_up cluster project (text "CreationFailed") (text "Workspace creation failed: ") 30 e w
  after_create_workspace project config name (inl created) w =
      after_wait cluster project created (wait_for_workspace_ready kcp config name w)

  unfoldable pub create_it : ProjectResource → Config → Text → W → Ended × W
  unfolding after_create_workspace create_workspace update_condition
  create_it project config name w =
      let told =
        update_condition cluster project
          (false_condition (text "Creating") (text "Creating workspace in kcp")) w in
      let (created, w') = create_workspace kcp config name project.namespace project.name told.1 in
      after_create_workspace project config name created w'

  unfoldable pub after_workspace :
      ProjectResource → Config → Text → Found WorkspaceInfo → W → Ended × W
  unfolding create_it update_workspace_status give_up
  after_workspace project config name (failed e) w =
      give_up cluster project (text "WorkspaceCheckError") (text "Failed to check workspace: ") 60 e
        w
  after_workspace project config name (found info) w =
      status_written (requeue_unless info.ready) (update_workspace_status cluster project info w)
  after_workspace project config name not_found w = create_it project config name w

  unfoldable pub after_client : ProjectResource → Config → Option Text → W → Ended × W
  unfolding after_workspace give_up get_workspace to_lower
  after_client project config (some e) w =
      give_up cluster project (text "KCPConnectionError") (text "Failed to create kcp client: ") 60
        e w
  after_client project config none w =
      let name = to_lower project.name in
      let (answer, w') = get_workspace kcp config name w in
      after_workspace project config name answer w'

  unfoldable pub after_config : ProjectResource → Config ⊎ Text → W → Ended × W
  unfolding after_client give_up new_client
  after_config project (inr e) w =
      give_up cluster project (text "ConfigurationError")
        (text "Failed to load kcp configuration: ") 60 e w
  after_config project (inl config) w = after_client project config (new_client kcp config) w

  unfoldable pub after_project : ProjectReconciler → Found ProjectResource → W → Ended × W
  unfolding after_config load_config_from_cluster
  after_project r not_found w = (returned 0 none, w)
  after_project r (failed e) w = (returned 0 (some e), w)
  after_project r (found project) w =
      let (config, w') =
        load_config_from_cluster cluster r.kcp_config_map_name r.kcp_secret_name
          r.kcp_config_map_namespace w in
      after_config project config w'

  unfoldable pub reconcile : ProjectReconciler → Text → Text → W → Ended × W
  unfolding after_project
  reconcile r namespace name w =
      let (project, w') = cluster.get_project namespace name w in after_project r project w'
