-- ===== src/Workspaces/Kcp.antt =====
-- kdp-workspaces/internal/kcp/client.go and workspace.go.

use maintainer_d.Base.{
  Text, text, ◌==◌, Bool, true, false, ◌&&◌, Option, none, some, List, [], ◌∷◌, ◌++◌, ◌⊎◌, inl, inr,
  text_or, if◌then◌else◌,
}
use maintainer_d.Base.Dict
use maintainer_d.Base.Dict.{Dict}
use maintainer_d.Scanner.Kube.{Found, found, not_found, failed}
use maintainer_d.Workspaces.{Config, WorkspaceInfo, Workspace, KcpServer, Cluster}

abbrev pub default_workspace_type : Text
default_workspace_type = text "kdp-organization"

abbrev pub phase_ready : Text
phase_ready = text "Ready"

abbrev pub operator_name : Text
operator_name = text "kdp-ws-operator"

unfoldable pub info_of : Workspace → WorkspaceInfo
unfolding ◌==◌
info_of ws = record {
  name = ws.name;
  url = ws.url;
  phase = ws.phase;
  ready = ws.phase == phase_ready;
}

abbrev named : Text → Text → Text
named namespace name = namespace ++ text "/" ++ name

-- A key that the map lacks is the empty text.
abbrev pub value_or_empty : Text → Dict Text → Text
value_or_empty key m = text_or [] (Dict.get key m)

abbrev absent : Text
absent = text "not found"

module _ {W : Type 0} (cluster : Cluster W) where
  unfoldable pub after_secret :
      Text → Text → Dict Text → Found (Dict Text) → W → (Config ⊎ Text) × W
  unfolding Dict.get
  after_secret namespace secret_name config_map (found secret) w =
      elim (Dict.get (text "kubeconfig") secret) [
        | none ↦ (inr (text "kubeconfig not found in Secret " ++ named namespace secret_name), w)
        | some kubeconfig ↦ (
          inl (record {
            kubeconfig_data = kubeconfig;
            workspace_path = value_or_empty (text "kcp-workspace-path") config_map;
            workspace_type = value_or_empty (text "workspace-type") config_map;
          }),
          w,
        )
      ]
  after_secret namespace secret_name config_map not_found w =
      (inr (text "failed to get Secret " ++ named namespace secret_name ++ text ": " ++ absent), w)
  after_secret namespace secret_name config_map (failed e) w =
      (inr (text "failed to get Secret " ++ named namespace secret_name ++ text ": " ++ e), w)

  unfoldable pub after_config_map : Text → Text → Text → Found (Dict Text) → W → (Config ⊎ Text) × W
  unfolding after_secret
  after_config_map name secret_name namespace (found config_map) w =
      let (secret, w') = cluster.get_secret namespace secret_name w in
      after_secret namespace secret_name config_map secret w'
  after_config_map name secret_name namespace not_found w =
      (inr (text "failed to get ConfigMap " ++ named namespace name ++ text ": " ++ absent), w)
  after_config_map name secret_name namespace (failed e) w =
      (inr (text "failed to get ConfigMap " ++ named namespace name ++ text ": " ++ e), w)

  unfoldable pub load_config_from_cluster : Text → Text → Text → W → (Config ⊎ Text) × W
  unfolding after_config_map
  load_config_from_cluster config_map_name secret_name namespace w =
      let (config_map, w') = cluster.get_config_map namespace config_map_name w in
      after_config_map config_map_name secret_name namespace config_map w'

abbrev pub workspace_for : Config → Text → Text → Text → Workspace
workspace_for config org_name namespace resource_name = record {
  name = org_name;
  annotations =
      (text "managed-by", operator_name)
      ∷ (text "organization-namespace", namespace)
      ∷ (text "organization-name", resource_name)
      ∷ [];
  type_name = if config.workspace_type == [] then default_workspace_type else config.workspace_type;
  type_path = config.workspace_path;
  url = [];
  phase = [];
}

-- The answer nil, nil is `not_found`.
unfoldable pub info_found : Text → Found Workspace → Found WorkspaceInfo
unfolding info_of
info_found name (found ws) = found (info_of ws)
info_found name not_found = not_found
info_found name (failed e) = failed (text "failed to get workspace " ++ name ++ text ": " ++ e)

abbrev deletion_error : Text → Found Text → Option Text
deletion_error name (found _) = none
deletion_error name not_found = none
deletion_error name (failed e) = some (text "failed to delete workspace " ++ name ++ text ": " ++ e)

abbrev existence : Found WorkspaceInfo → Bool ⊎ Text
existence (found _) = inl true
existence not_found = inl false
existence (failed e) = inr e

-- The loop of ListManagedWorkspaces.
unfoldable pub managed_only : List Workspace → List WorkspaceInfo
unfolding info_of ◌==◌ Dict.get
managed_only [] = []
managed_only (ws ∷ wss) =
    let rest = managed_only wss in
    if value_or_empty (text "managed-by") ws.annotations == operator_name && ws.phase == phase_ready
    then record { name = ws.name; url = ws.url; phase = ws.phase; ready = true } ∷ rest
    else rest

abbrev pub managed_of : List Workspace ⊎ Text → List WorkspaceInfo ⊎ Text
managed_of (inl wss) = inl (managed_only wss)
managed_of (inr e) = inr (text "failed to list workspaces: " ++ e)

module _ {W : Type 0} where
  unfoldable pub after_create : Text → Workspace ⊎ Text → W → (WorkspaceInfo ⊎ Text) × W
  unfolding info_of
  after_create org_name (inl ws) w = (inl (info_of ws), w)
  after_create org_name (inr e) w =
      (inr (text "failed to create workspace " ++ org_name ++ text ": " ++ e), w)

  -- The closure of WaitForWorkspaceReady: whether to stop, and the new `lastInfo`.
  unfoldable pub poll_answer :
      Text
      → Option WorkspaceInfo
      → Found WorkspaceInfo
      → W
      → (Bool ⊎ Text) × Option WorkspaceInfo × W
  poll_answer name last (found info) w = (inl info.ready, some info, w)
  poll_answer name last not_found w =
      (inr (text "workspace " ++ name ++ text " not found"), last, w)
  poll_answer name last (failed e) w = (inr e, last, w)

  unfoldable pub after_poll :
      Text → Option Text → Option WorkspaceInfo → W → Option WorkspaceInfo × Option Text × W
  after_poll name none last w = (last, none, w)
  after_poll name (some e) (some info) w = (
    some info,
    some (
        text "workspace "
        ++ name
        ++ text " not ready after timeout, current phase: "
        ++ info.phase
        ++ text ": "
        ++ e),
    w,
  )
  after_poll name (some e) none w =
      (none, some (text "failed to wait for workspace " ++ name ++ text " to be ready: " ++ e), w)

module _ {W : Type 0} (kcp : KcpServer W) where
  -- `NewClient`: the error, if there is one. The client is the configuration.
  unfoldable pub new_client : Config → Option Text
  new_client config = elim (kcp.rest_config config.kubeconfig_data) [
    | inr e ↦ some (text "failed to parse kubeconfig: " ++ e)
    | inl host ↦ elim (kcp.cluster_client host) [
      | none ↦ none
      | some e ↦ some (text "failed to create KCP client: " ++ e)
    ]
  ]

  unfoldable pub create_workspace : Config → Text → Text → Text → W → (WorkspaceInfo ⊎ Text) × W
  unfolding after_create ◌==◌
  create_workspace config org_name namespace resource_name w =
      if org_name == []
      then (inr (text "organization name cannot be empty"), w)
      else (let (created, w') =
            kcp.create_workspace (kcp.new_path config.workspace_path)
              (workspace_for config org_name namespace resource_name) w in
          after_create org_name created w')

  unfoldable pub get_workspace : Config → Text → W → Found WorkspaceInfo × W
  unfolding info_found ◌==◌
  get_workspace config name w =
      if name == []
      then (failed (text "workspace name cannot be empty"), w)
      else (let (answer, w') = kcp.get_workspace (kcp.new_path config.workspace_path) name w in
          (info_found name answer, w'))

  unfoldable pub delete_workspace : Config → Text → W → Option Text × W
  unfolding ◌==◌
  delete_workspace config name w =
      if name == []
      then (some (text "workspace name cannot be empty"), w)
      else (let (answer, w') = kcp.delete_workspace (kcp.new_path config.workspace_path) name w in
          (deletion_error name answer, w'))

  unfoldable pub poll_once :
      Config → Text → Option WorkspaceInfo → W → (Bool ⊎ Text) × Option WorkspaceInfo × W
  unfolding get_workspace poll_answer
  poll_once config name last w =
      let (answer, w') = get_workspace config name w in poll_answer name last answer w'

  -- The last answer and the error; Go returns both.
  unfoldable pub wait_for_workspace_ready :
      Config → Text → W → Option WorkspaceInfo × Option Text × W
  unfolding after_poll poll_once ◌==◌
  wait_for_workspace_ready config name w =
      if name == []
      then (none, some (text "workspace name cannot be empty"), w)
      else (let (error, last, w') = kcp.poll (poll_once config name) none w in
          after_poll name error last w')

  unfoldable pub workspace_exists : Config → Text → W → (Bool ⊎ Text) × W
  unfolding get_workspace
  workspace_exists config name w =
      let (answer, w') = get_workspace config name w in (existence answer, w')

  unfoldable pub list_managed_workspaces : Config → W → (List WorkspaceInfo ⊎ Text) × W
  unfolding managed_only
  list_managed_workspaces config w =
      let (listed, w') = kcp.list_workspaces (kcp.new_path config.workspace_path) w in
      (managed_of listed, w')
