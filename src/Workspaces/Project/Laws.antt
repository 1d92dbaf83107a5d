-- ===== src/Workspaces/Project/Laws.antt =====
-- A run of project_controller.go in which no call fails and nobody else acts: what the two servers
-- answer, by the workspace and the project that they hold.
use maintainer_d.Base.{
  ℕ, ◌-◌, ◌≤◌, Text, text, ◌==◌, to_lower, Bool, true, false, eqb, ◌≡◌, inl, ◌⊎◌, Option, none,
  some, List, [], ◌∷◌, if◌then◌else◌,
}
use maintainer_d.Base.Dict
use maintainer_d.Base.Dict.{Dict}
use maintainer_d.Scanner.Kube.{Found, found, not_found}
use maintainer_d.Workspaces.{
  Config, WorkspaceInfo, Workspace, StatusMap, ProjectResource, MetaCondition, KcpServer, Cluster,
}
use maintainer_d.Workspaces.Kcp.{value_or_empty, phase_ready}
use maintainer_d.Workspaces.Project.{ProjectReconciler}

abbrev pub found_or : {A : Type 0} → Option A → Found A
found_or none = not_found
found_or (some a) = found a

-- The first condition of the type.
abbrev pub condition_of : Text → List MetaCondition → Option MetaCondition
condition_of type [] = none
condition_of type (c ∷ cs) = if c.type == type then some c else condition_of type cs

-- The same status, reason and message.
abbrev pub Says : MetaCondition → Option MetaCondition → Type 0
Says c none = ⊥
Says c (some d) = (d.status ≡ c.status) × (d.reason ≡ c.reason) × (d.message ≡ c.message)

abbrev pub HasWorkspace : {W : Type 0} → (W → Option Workspace) → W → Type 0
HasWorkspace workspace w = (ws : Workspace) × (workspace w ≡ some ws)

module _ {W : Type 0} (workspace : W → Option Workspace) (remaining : W → ℕ) where
  -- A call that has nothing to do with the workspace.
  abbrev pub Still : W → W → Type 0
  Still before after = (workspace after ≡ workspace before) × (remaining after ≡ remaining before)

  -- Time passes: a workspace stays, and comes no further from being ready.
  abbrev pub Elapsed : W → W → Type 0
  Elapsed before after =
      (HasWorkspace workspace before → HasWorkspace workspace after)
      × (remaining after ≤ remaining before)

abbrev pub the_config : Dict Text → Text → Config
the_config config_map kubeconfig = record {
  kubeconfig_data = kubeconfig;
  workspace_path = value_or_empty (text "kcp-workspace-path") config_map;
  workspace_type = value_or_empty (text "workspace-type") config_map;
}

-- The servers, the operator's settings and the project, with what the servers hold: the project and
-- its workspace, and how many waits away that is from being ready. `tick` is one such wait.
pub record Setting (W : Type 0) : Type 0 where
  pub kcp : KcpServer W
  pub cluster : Cluster W
  pub r : ProjectReconciler
  pub namespace : Text
  pub name : Text
  pub config_map : Dict Text
  pub secret : Dict Text
  pub kubeconfig : Text
  pub host : Text
  pub project : W → ProjectResource
  pub workspace : W → Option Workspace
  pub remaining : W → ℕ
  pub tick : W → W

module _ {W : Type 0} (setting : Setting W) where
  open setting use {
    kcp, cluster, r, namespace, name, config_map, secret, kubeconfig, host, project, workspace,
    remaining, tick,
  }

  pub record Cooperates : Type 0 where
    pub config_map_there :
        (w : W)
        → cluster.get_config_map r.kcp_config_map_namespace r.kcp_config_map_name w
          ≡ (found config_map, w)
    pub secret_there :
        (w : W)
        → cluster.get_secret r.kcp_config_map_namespace r.kcp_secret_name w ≡ (found secret, w)
    pub has_kubeconfig : Dict.get (text "kubeconfig") secret ≡ some kubeconfig
    pub parses : kcp.rest_config kubeconfig ≡ inl host
    pub connects : kcp.cluster_client host ≡ none
    pub is_named : (name == []) ≡ false
    pub names : (w : W) → ((project w).namespace ≡ namespace) × ((project w).name ≡ name)
    pub reads :
        (ns n : Text) (w : W)
        → ns ≡ namespace
        → n ≡ name
        → cluster.get_project ns n w ≡ (found (project w), w)
    pub patches :
        (new : ProjectResource) (w : W)
        → new.namespace ≡ namespace
        → new.name ≡ name
        → let step = cluster.patch_project (project w) new w in
          (step.0 ≡ inl new) × (project step.1 ≡ new) × Still workspace remaining w step.1
    pub patches_status :
        (new : ProjectResource) (w : W)
        → new.namespace ≡ namespace
        → new.name ≡ name
        → let step = cluster.patch_status (project w) new w in
          (step.0 ≡ none) × (project step.1 ≡ new) × Still workspace remaining w step.1
    pub sets_status :
        (s : StatusMap) (p : ProjectResource)
        → cluster.set_status s p ≡ inl (record p { status = some s })
    pub sets_condition :
        (c : MetaCondition) (cs : List MetaCondition)
        → Says c (condition_of c.type (cluster.set_status_condition c cs))
    pub looks_up :
        (w : W)
        → kcp.get_workspace
            (kcp.new_path (the_config config_map kubeconfig).workspace_path)
            (to_lower name)
            w
          ≡ (found_or (workspace w), w)
    pub creates :
        (ws : Workspace) (w : W)
        → ws.name ≡ to_lower name
        → ws.type_path ≡ (the_config config_map kubeconfig).workspace_path
        → (ws.type_name == []) ≡ false
        → workspace w ≡ none
        → let step =
            kcp.create_workspace
              (kcp.new_path (the_config config_map kubeconfig).workspace_path)
              ws
              w in
          (made : Workspace) × (step.0 ≡ inl made)
          × HasWorkspace workspace step.1
          × (remaining step.1 ≤ remaining w)
    pub polls :
        (f : Option WorkspaceInfo → W → (Bool ⊎ Text) × Option WorkspaceInfo × W)
        (last : Option WorkspaceInfo) (w : W)
        → ((last : Option WorkspaceInfo) (w : W) → (f last w).2 ≡ w)
        → Elapsed workspace remaining w (kcp.poll f last w).2
    pub polls_until :
        (f : Option WorkspaceInfo → W → (Bool ⊎ Text) × Option WorkspaceInfo × W)
        (last : Option WorkspaceInfo) (w : W)
        → (kcp.poll f last w).0 ≡ none
        → (before : Option WorkspaceInfo) × (at : W) × ((f before at).0 ≡ inl true)
          × ((kcp.poll f last w).1 ≡ (f before at).1)
    pub is_ready :
        (ws : Workspace) (w : W)
        → workspace w ≡ some ws
        → (ws.phase == phase_ready) ≡ eqb (remaining w) 0
    pub passes :
        (w : W)
        → HasWorkspace workspace w
        → HasWorkspace workspace (tick w) × (remaining (tick w) ≤ remaining w - 1)
