-- ===== src/Workspaces/Staff.antt =====
-- Reconcile and updateStaffMemberAnnotations of
-- kdp-workspaces/internal/controller/staffmember_controller.go.
pub mod Access
pub mod Tallies
pub mod Granted
pub mod Synced
use maintainer_d.Base.{
  ℕ, suc, Text, text, ◌==◌, eqb, Bool, true, false, Option, none, some, List, [], ◌∷◌, ◌++◌, ◌⊎◌,
  inl, inr, if◌then◌else◌,
}
use maintainer_d.Base.Decimal.{itoa}
use maintainer_d.Base.Dict
use maintainer_d.Scanner.Kube.{Found, found, not_found, failed}
use maintainer_d.Workspaces.{Config, WorkspaceInfo, Subject, StaffResource, KcpServer, Cluster}
use maintainer_d.Workspaces.Kcp.{load_config_from_cluster, new_client, list_managed_workspaces}
use maintainer_d.Workspaces.Rbac.{
  BindOutcome, bound, refused, panicked, create_or_update_staff_binding,
}

abbrev pub annotation_staff_last_synced : Text
annotation_staff_last_synced = text "kdp-workspaces.cncf.io/last-synced"

abbrev pub annotation_staff_sync_status : Text
annotation_staff_sync_status = text "kdp-workspaces.cncf.io/sync-status"

abbrev pub annotation_staff_workspace_count : Text
annotation_staff_workspace_count = text "kdp-workspaces.cncf.io/workspace-count"

abbrev pub workspace_trigger : Text
workspace_trigger = text "workspace-trigger"

pub record StaffMemberReconciler : Type 0 where
  pub kcp_config_map_name : Text
  pub kcp_config_map_namespace : Text
  pub kcp_secret_name : Text
  pub kcp_secret_namespace : Text
  pub staff_member_namespace : Text

abbrev subject_for : Text → Subject
subject_for email = record { kind = text "User"; name = text "oidc:" ++ email }

abbrev pub with_email : Option (Option Text) → List Subject → List Subject
with_email (some (some email)) rest = if email == [] then rest else subject_for email ∷ rest
with_email _ rest = rest

-- The subjects of all staff members who have an email.
unfoldable pub subjects_of : List StaffResource → List Subject
unfolding ◌==◌
subjects_of [] = []
subjects_of (staff ∷ rest) = with_email staff.spec (subjects_of rest)

-- What the loop over the workspaces counts.
pub record Tally : Type 0 where
  pub workspace_errors : List Text
  pub failed_workspaces : List Text
  pub success_count : ℕ

abbrev pub no_tally : Tally
no_tally = record { workspace_errors = []; failed_workspaces = []; success_count = 0 }

unfoldable pub tell_failure : Text → Text → Tally → Tally
tell_failure name e t = record t {
  workspace_errors = t.workspace_errors ++ (text "workspace " ++ name ++ text ": " ++ e) ∷ [];
  failed_workspaces = t.failed_workspaces ++ name ∷ [];
}

-- The annotation of the staff member that was reconciled.
unfoldable pub sync_status : Tally → Text
sync_status t = elim t.workspace_errors [
  | [] ↦ text "success"
  | _ ∷ _ ↦ if eqb t.success_count 0 then text "error" else text "partial"
]

-- What the loop does with the rest of the workspaces after one; `none` is a panic.
module _ {W : Type 0} where
  unfoldable pub after_bound :
      (Tally → W → Option Tally × W) → Text → Tally → BindOutcome → W → Option Tally × W
  unfolding tell_failure
  after_bound next name t bound w = next (record t { success_count = suc t.success_count }) w
  after_bound next name t (refused e) w = next (tell_failure name e t) w
  after_bound next name t panicked w = (none, w)

-- The error that Reconcile returns; a panic has none.
pub data StaffEnded : Type 0 where
  ended : Option Text → StaffEnded
  crashed : StaffEnded

-- The annotations that the operator adds to a staff member.
unfoldable pub with_sync : Text → Text → Text → StaffResource → StaffResource
unfolding Dict.put
with_sync time status count staff = record staff {
  annotations = Dict.put annotation_staff_workspace_count count (
      Dict.put annotation_staff_sync_status status
        (Dict.put annotation_staff_last_synced time staff.annotations));
}

module _ {W : Type 0} (cluster : Cluster W) where
  unfoldable pub after_staff_member : ℕ → Text → Found StaffResource → W → Option Text × W
  unfolding with_sync
  after_staff_member count status not_found w = (none, w)
  after_staff_member count status (failed e) w = (some e, w)
  after_staff_member count status (found staff) w =
      cluster.patch_staff staff
        (with_sync (cluster.format (cluster.now w)) status (itoa count) staff) w

  unfoldable pub update_staff_member_annotations : Text → Text → ℕ → Text → W → Option Text × W
  unfolding after_staff_member
  update_staff_member_annotations namespace name count status w =
      let (answer, w') = cluster.get_staff namespace name w in
      after_staff_member count status answer w'

  abbrev pub all_errors : List Text → Option Text
  all_errors [] = none
  all_errors (e ∷ es) = some (cluster.join_errors (e ∷ es))

  unfoldable pub after_bind_all : Text → Text → Option Tally → W → StaffEnded × W
  unfolding update_staff_member_annotations sync_status ◌==◌
  after_bind_all namespace name none w = (crashed, w)
  after_bind_all namespace name (some t) w =
      if name == workspace_trigger then (ended (all_errors t.workspace_errors), w) else (
        ended (all_errors t.workspace_errors),
        (update_staff_member_annotations namespace name t.success_count (sync_status t) w).1,
      )

module _ {W : Type 0} (kcp : KcpServer W) (cluster : Cluster W) where
  unfoldable pub bind_all :
      Config → List Subject → Text → List WorkspaceInfo → Tally → W → Option Tally × W
  unfolding after_bound create_or_update_staff_binding
  bind_all config subjects namespace [] t w = (some t, w)
  bind_all config subjects namespace (ws ∷ wss) t w =
      let (outcome, w') =
        create_or_update_staff_binding kcp cluster config ws.name subjects namespace w in
      after_bound (bind_all config subjects namespace wss) ws.name t outcome w'

  unfoldable pub after_staff_list :
      Text → Text → Config → List WorkspaceInfo → List StaffResource ⊎ Text → W → StaffEnded × W
  unfolding after_bind_all bind_all subjects_of
  after_staff_list namespace name config workspaces (inr e) w =
      (ended (some (text "failed to list staff members: " ++ e)), w)
  after_staff_list namespace name config workspaces (inl staff) w =
      let (tally, w') = bind_all config (subjects_of staff) namespace workspaces no_tally w in
      after_bind_all cluster namespace name tally w'

  unfoldable pub after_managed :
      Text → Text → Config → List WorkspaceInfo ⊎ Text → W → StaffEnded × W
  unfolding after_staff_list
  after_managed namespace name config (inr e) w =
      (ended (some (text "failed to list managed workspaces: " ++ e)), w)
  after_managed namespace name config (inl workspaces) w =
      let (staff, w') = cluster.list_staff namespace w in
      after_staff_list namespace name config workspaces staff w'

  unfoldable pub after_staff_client : Text → Text → Config → Option Text → W → StaffEnded × W
  unfolding after_managed list_managed_workspaces
  after_staff_client namespace name config (some e) w =
      (ended (some (text "failed to create kcp client: " ++ e)), w)
  after_staff_client namespace name config none w =
      let (managed, w') = list_managed_workspaces kcp config w in
      after_managed namespace name config managed w'

  unfoldable pub after_staff_config : Text → Text → Config ⊎ Text → W → StaffEnded × W
  unfolding after_staff_client new_client
  after_staff_config namespace name (inr e) w =
      (ended (some (text "failed to load kcp configuration: " ++ e)), w)
  after_staff_config namespace name (inl config) w =
      after_staff_client namespace name config (new_client kcp config) w

  unfoldable pub reconcile_staff : StaffMemberReconciler → Text → W → StaffEnded × W
  unfolding after_staff_config load_config_from_cluster
  reconcile_staff r name w =
      let (config, w') =
        load_config_from_cluster cluster r.kcp_config_map_name r.kcp_secret_name
          r.kcp_config_map_namespace w in
      after_staff_config r.staff_member_namespace name config w'
