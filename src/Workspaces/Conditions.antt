-- ===== src/Workspaces/Conditions.antt =====
-- updateCondition and updateWorkspaceStatus of
-- kdp-workspaces/internal/controller/project_controller.go.
use maintainer_d.Base.{
  ℕ, Text, text, Bool, true, false, Option, none, some, List, [], ◌∷◌, ◌++◌, ◌⊎◌, inl, inr, map,
}
use maintainer_d.Base.Dict
use maintainer_d.Base.Dict.{Dict}
use maintainer_d.Scanner.Kube.{Found, found, not_found, failed}
use maintainer_d.Workspaces.{
  WorkspaceInfo, Value, string, number, StatusMap, ProjectResource, MetaCondition, Cluster,
}

abbrev pub workspace_ready_condition : Text
workspace_ready_condition = text "WorkspaceReady"

abbrev pub annotation_workspace_name : Text
annotation_workspace_name = text "kdp-workspaces.cncf.io/workspace-name"

abbrev pub annotation_workspace_url : Text
annotation_workspace_url = text "kdp-workspaces.cncf.io/workspace-url"

abbrev pub annotation_workspace_phase : Text
annotation_workspace_phase = text "kdp-workspaces.cncf.io/workspace-phase"

-- A type assertion to string whose failure leaves the field empty.
abbrev string_or_empty : Option Value → Text
string_or_empty (some (string s)) = s
string_or_empty _ = []

unfoldable pub read_condition : Dict Value → MetaCondition
unfolding Dict.get
read_condition m = record {
  type = string_or_empty (Dict.get (text "type") m);
  status = string_or_empty (Dict.get (text "status") m);
  observed_generation = 0;
  last_transition_time = 0;
  reason = string_or_empty (Dict.get (text "reason") m);
  message = string_or_empty (Dict.get (text "message") m);
}

unfoldable pub read_list : List (Option (Dict Value)) → List MetaCondition
unfolding read_condition
read_list [] = []
read_list (none ∷ rest) = read_list rest
read_list (some m ∷ rest) = read_condition m ∷ read_list rest

abbrev list_in : Option (List (Option (Dict Value))) → List MetaCondition
list_in none = []
list_in (some raw) = read_list raw

unfoldable pub read_conditions : Option StatusMap → List MetaCondition
unfolding read_list
read_conditions none = []
read_conditions (some status) = list_in status.conditions

abbrev status_or_empty : Option StatusMap → StatusMap
status_or_empty none = record { conditions = none; others = [] }
status_or_empty (some status) = status

abbrev patch_error : Option Text → Option Text
patch_error none = none
patch_error (some e) = some (text "failed to patch status: " ++ e)

unfoldable pub with_workspace : WorkspaceInfo → ProjectResource → ProjectResource
unfolding Dict.put
with_workspace info project = record project {
  annotations = Dict.put annotation_workspace_phase info.phase (
      Dict.put annotation_workspace_url info.url
        (Dict.put annotation_workspace_name info.name project.annotations));
}

abbrev pub open_condition : ℕ → ℕ → MetaCondition
open_condition generation time = record {
  type = workspace_ready_condition;
  status = [];
  observed_generation = generation;
  last_transition_time = time;
  reason = [];
  message = [];
}

-- The condition without a status, reason or message is completed by the readiness.
abbrev pub readiness : MetaCondition → WorkspaceInfo → Bool → MetaCondition
readiness c info true = record c {
  status = text "True";
  reason = text "WorkspaceReady";
  message = text "Workspace " ++ info.name ++ text " is ready at " ++ info.url;
}
readiness c info false = record c {
  status = text "False";
  reason = text "WorkspaceNotReady";
  message = text "Workspace " ++ info.name ++ text " is in phase " ++ info.phase;
}

module _ {W : Type 0} (cluster : Cluster W) where
  unfoldable pub write_condition : MetaCondition → Option (Dict Value)
  write_condition c = some (
      (text "type", string c.type)
      ∷ (text "status", string c.status)
      ∷ (text "reason", string c.reason)
      ∷ (text "message", string c.message)
      ∷ (text "lastTransitionTime", string (cluster.format c.last_transition_time))
      ∷ (text "observedGeneration", number c.observed_generation)
      ∷ [])

  unfoldable pub new_status : MetaCondition → Option StatusMap → StatusMap
  unfolding read_conditions write_condition
  new_status condition status = record (status_or_empty status) {
    conditions =
        some
          (map write_condition (cluster.set_status_condition condition (read_conditions status)));
  }

  unfoldable pub after_set_status : ProjectResource → ProjectResource ⊎ Text → W → Option Text × W
  after_set_status current (inr e) w = (some (text "failed to set status: " ++ e), w)
  after_set_status current (inl changed) w =
      let (error, w') = cluster.patch_status current changed w in (patch_error error, w')

  unfoldable pub after_current : MetaCondition → Found ProjectResource → W → Option Text × W
  unfolding after_set_status new_status
  after_current condition (found current) w =
      after_set_status current (cluster.set_status (new_status condition current.status) current) w
  after_current condition not_found w = (some (text "failed to get current project: not found"), w)
  after_current condition (failed e) w = (some (text "failed to get current project: " ++ e), w)

  unfoldable pub update_condition : ProjectResource → MetaCondition → W → Option Text × W
  unfolding after_current
  update_condition project condition w =
      let (current, w') = cluster.get_project project.namespace project.name w in
      after_current condition current w'

  unfoldable pub condition_for : WorkspaceInfo → ℕ → W → MetaCondition
  condition_for info generation w =
      readiness (open_condition generation (cluster.now w)) info info.ready

  unfoldable pub after_patch_project : WorkspaceInfo → ProjectResource ⊎ Text → W → Option Text × W
  unfolding update_condition condition_for
  after_patch_project info (inr e) w = (some (text "failed to patch annotations: " ++ e), w)
  after_patch_project info (inl fresh) w =
      update_condition fresh (condition_for info fresh.generation w) w

  unfoldable pub after_fresh : WorkspaceInfo → Found ProjectResource → W → Option Text × W
  unfolding after_patch_project with_workspace
  after_fresh info (found fresh) w =
      let (patched, w') = cluster.patch_project fresh (with_workspace info fresh) w in
      after_patch_project info patched w'
  after_fresh info not_found w = (some (text "failed to get fresh project: not found"), w)
  after_fresh info (failed e) w = (some (text "failed to get fresh project: " ++ e), w)

  unfoldable pub update_workspace_status : ProjectResource → WorkspaceInfo → W → Option Text × W
  unfolding after_fresh
  update_workspace_status project info w =
      let (fresh, w') = cluster.get_project project.namespace project.name w in
      after_fresh info fresh w'
