-- ===== src/Workspaces/Staff/Synced.antt =====
-- Reconcile of staffmember_controller.go as a whole.
use maintainer_d.Base.{
  ℕ, Text, ◌==◌, ◌≡◌, ◌⊎◌, refl, inl, inr, true, Option, none, some, List, [], ◌∷◌, length, All,
  All-imp, ◌∙◌, sym, ap, arith, if-Splits,
}
use maintainer_d.Scanner.Kube.{Found, found, not_found, failed}
use mathlib.Core.List.{Memᴰ}
use maintainer_d.Workspaces.{
  Config, WorkspaceInfo, Workspace, Subject, StaffResource, Binding, KcpServer, Cluster,
}
use maintainer_d.Workspaces.Kcp.{
  managed_only, managed_of, list_managed_workspaces, load_config_from_cluster, new_client,
}
use maintainer_d.Workspaces.Staff.{
  StaffMemberReconciler, StaffEnded, ended, Tally, no_tally, workspace_trigger, sync_status,
  subjects_of, bind_all, after_staff_member, update_staff_member_annotations, all_errors,
  after_bind_all, after_staff_list, after_managed, after_staff_client, after_staff_config,
  reconcile_staff,
}
use maintainer_d.Workspaces.Rbac.{host_of}
use maintainer_d.Workspaces.Staff.Granted.{
  AreUsersOf, IsManaged, subjects_of-AreUsersOf, managed_only-All,
}
use maintainer_d.Workspaces.Staff.Access.{BindingLaws, HasAccess}
use maintainer_d.Workspaces.Staff.Tallies.{IsAnswered, Tallied, bind_all-Tallies}

module _ {W : Type 0} (kcp : KcpServer W) (cluster : Cluster W)
    (bindings : W → Text → Option Binding) where
  -- The operator's own cluster has no part in the bindings.
  pub record ClusterLaws : Type 0 where
    pub reads :
        (namespace name : Text) (w : W) (h : Text)
        → bindings (cluster.get_staff namespace name w).1 h ≡ bindings w h
    pub patches :
        (old new : StaffResource) (w : W) (h : Text)
        → bindings (cluster.patch_staff old new w).1 h ≡ bindings w h

  -- The workspace has a binding that is for the staff, and for nobody else.
  abbrev pub HasStaff : Config → List StaffResource → W → Workspace → Type 0
  HasStaff config staff w ws =
      (base : Text) × (b : Binding) × (kcp.rest_config config.kubeconfig_data ≡ inl base)
      × (bindings w (host_of kcp config ws.name base) ≡ some b)
      × AreUsersOf staff b.subjects

  -- The configuration that the run reads, and the workspaces and the staff that it is answered.
  abbrev pub config_read : StaffMemberReconciler → W → (Config ⊎ Text) × W
  config_read r w =
      load_config_from_cluster cluster r.kcp_config_map_name r.kcp_secret_name
        r.kcp_config_map_namespace w

  abbrev pub workspaces_read : Config → W → (List Workspace ⊎ Text) × W
  workspaces_read config w = kcp.list_workspaces (kcp.new_path config.workspace_path) w

  abbrev pub staff_read : StaffMemberReconciler → Config → W → (List StaffResource ⊎ Text) × W
  staff_read r config w = cluster.list_staff r.staff_member_namespace (workspaces_read config w).1

  -- After a run from `w`, each workspace that it was told of, if it is managed and ready, has the
  -- staff that it was told of.
  pub record IsSynced (r : StaffMemberReconciler) (w after : W) : Type 0 where
    pub config : Config
    pub workspaces : List Workspace
    pub staff : List StaffResource
    pub loaded : (config_read r w).0 ≡ inl config
    pub listed : (workspaces_read config (config_read r w).1).0 ≡ inl workspaces
    pub staff_listed : (staff_read r config (config_read r w).1).0 ≡ inl staff
    pub access :
        (ws : Workspace) → Memᴰ ws workspaces → IsManaged ws → HasStaff config staff after ws

  module _ (laws : BindingLaws kcp bindings) (own : ClusterLaws) where
    after_staff_member_apart :
        (count : ℕ) (status : Text) (answer : Found StaffResource) (w : W) (h : Text)
        → bindings (after_staff_member cluster count status answer w).1 h ≡ bindings w h
    unfolding after_staff_member
    after_staff_member_apart count status (found staff) w h = own.patches staff _ w h
    after_staff_member_apart count status not_found w h = refl
    after_staff_member_apart count status (failed e) w h = refl

    annotations_apart :
        (namespace name : Text) (count : ℕ) (status : Text) (w : W) (h : Text)
        → bindings (update_staff_member_annotations cluster namespace name count status w).1 h
          ≡ bindings w h
    unfolding update_staff_member_annotations
    annotations_apart namespace name count status w h =
        after_staff_member_apart count status _ _ h ∙ own.reads namespace name w h

    after_bind_all_apart :
        (namespace name : Text) (t : Tally) (w : W) (h : Text)
        → bindings (after_bind_all cluster namespace name (some t) w).1 h ≡ bindings w h
    unfolding after_bind_all
    after_bind_all_apart namespace name t w h =
        if-Splits (λ (end : StaffEnded × W). bindings end.1 h ≡ bindings w h)
          (name == workspace_trigger) (ended (all_errors cluster t.workspace_errors), w)
          (
            ended (all_errors cluster t.workspace_errors),
            (update_staff_member_annotations cluster namespace name t.success_count (sync_status t)
                w).1,
          )
          (λ _. refl) (λ _. annotations_apart namespace name t.success_count (sync_status t) w h)

    all_errors-none : (es : List Text) → all_errors cluster es ≡ none → es ≡ []
    all_errors-none [] h = refl
    all_errors-none (e ∷ es) h = cc

    ended-inj : {a b : Option Text} → ended a ≡ ended b → a ≡ b
    ended-inj h = cc

    after_bind_all-answer :
        (namespace name : Text) (t : Tally) (w : W)
        → (after_bind_all cluster namespace name (some t) w).0
          ≡ ended (all_errors cluster t.workspace_errors)
    unfolding after_bind_all
    after_bind_all-answer namespace name t w = ground arith

    after_bind_all-ended :
        (namespace name : Text) (t : Tally) (w : W)
        → (after_bind_all cluster namespace name (some t) w).0 ≡ ended none
        → t.workspace_errors ≡ []
    after_bind_all-ended namespace name t w h =
        all_errors-none t.workspace_errors
          (ended-inj (sym (after_bind_all-answer namespace name t w) ∙ h))

    no_items : (names : List Text) → length names ≡ 0 → names ≡ []
    no_items [] h = refl
    no_items (n ∷ ns) h = absurd (omega (arith, h))

    answered-Access :
        (config : Config) (subjects : List Subject) (t : Tally) (w w' : W) (ws : WorkspaceInfo)
        → t.failed_workspaces ≡ []
        → ((h : Text) → bindings w' h ≡ bindings w h)
        → IsAnswered kcp bindings config subjects w t ws
        → HasAccess kcp bindings config subjects w' ws
    answered-Access config subjects t w w' ws none_failed same (inl (base, e, (b, at, s))) =
        (base, e, (b, same _ ∙ at, s))
    answered-Access config subjects t w w' ws none_failed same (inr told) =
        absurd (ground (arith, told, none_failed))

    after_bind_all-Binds :
        (namespace name : Text) (config : Config) (subjects : List Subject)
        (wss : List WorkspaceInfo) (tally : Option Tally) (w w' : W)
        → Tallied kcp bindings config subjects wss no_tally w tally w'
        → let end = after_bind_all cluster namespace name tally w' in
          end.0 ≡ ended none → All (HasAccess kcp bindings config subjects end.1) wss
    unfolding after_bind_all
    after_bind_all-Binds namespace name config subjects wss none w w' tallied h = cc
    after_bind_all-Binds namespace name config subjects wss (some t) w w' tallied h =
        let end = after_bind_all cluster namespace name (some t) w' in
        let no_errors = after_bind_all-ended namespace name t w' h in
        All-imp (IsAnswered kcp bindings config subjects w' t)
          (HasAccess kcp bindings config subjects end.1) wss
          (λ ws.
            answered-Access config subjects t w' end.1 ws
              (no_items t.failed_workspaces (tallied.4 refl ∙ ap length no_errors))
              (after_bind_all_apart namespace name t w'))
          tallied.1

    -- As ListManagedWorkspaces tells a workspace.
    abbrev listed_info : Workspace → WorkspaceInfo
    listed_info ws = record { name = ws.name; url = ws.url; phase = ws.phase; ready = true }

    HasAccess-HasStaff :
        (config : Config) (staff : List StaffResource) (w : W) (ws : Workspace)
        (info : WorkspaceInfo)
        → info.name ≡ ws.name
        → HasAccess kcp bindings config (subjects_of staff) w info
        → HasStaff config staff w ws
    HasAccess-HasStaff config staff w ws info name (base, parsed, (b, at, subjects)) =
        (base, b, parsed, rw (sym name) at, rw subjects (subjects_of-AreUsersOf staff))

    after_staff_list-Binds :
        (namespace name : Text) (config : Config) (infos : List WorkspaceInfo)
        (answer : List StaffResource ⊎ Text) (w : W)
        → let end = after_staff_list kcp cluster namespace name config infos answer w in
          end.0 ≡ ended none
          → (staff : List StaffResource) × (answer ≡ inl staff)
            × All (HasAccess kcp bindings config (subjects_of staff) end.1) infos
    unfolding after_staff_list
    after_staff_list-Binds namespace name config infos (inr e) w h = cc
    after_staff_list-Binds namespace name config infos (inl staff) w h =
        let subjects = subjects_of staff in
        let tally = bind_all kcp cluster config subjects namespace infos no_tally w in
        (
          staff,
          refl,
          after_bind_all-Binds namespace name config subjects infos tally.0 w tally.1
              (bind_all-Tallies kcp bindings config subjects cluster laws namespace infos no_tally
                w)
              h,
        )

    after_managed-Binds :
        (namespace name : Text) (config : Config) (answer : List WorkspaceInfo ⊎ Text) (w : W)
        → let end = after_managed kcp cluster namespace name config answer w in
          end.0 ≡ ended none
          → (infos : List WorkspaceInfo) × (staff : List StaffResource) × (answer ≡ inl infos)
            × ((cluster.list_staff namespace w).0 ≡ inl staff)
            × All (HasAccess kcp bindings config (subjects_of staff) end.1) infos
    unfolding after_managed
    after_managed-Binds namespace name config (inr e) w h = cc
    after_managed-Binds namespace name config (inl infos) w h =
        let listed = cluster.list_staff namespace w in
        let (staff, answer, all) =
          after_staff_list-Binds namespace name config infos listed.0 listed.1 h in
        (infos, staff, refl, answer, all)

    managed_of-inl :
        (answer : List Workspace ⊎ Text) (infos : List WorkspaceInfo)
        → managed_of answer ≡ inl infos
        → (wss : List Workspace) × (answer ≡ inl wss) × (managed_only wss ≡ infos)
    managed_of-inl (inl wss) infos h = (wss, refl, cc)
    managed_of-inl (inr e) infos h = cc

    after_staff_client-Binds :
        (namespace name : Text) (config : Config) (error : Option Text) (w : W)
        → let end = after_staff_client kcp cluster namespace name config error w in
          end.0 ≡ ended none
          → (wss : List Workspace) × (staff : List StaffResource) × ((workspaces_read config w).0
              ≡ inl wss)
            × ((cluster.list_staff namespace (workspaces_read config w).1).0 ≡ inl staff)
            × All (HasAccess kcp bindings config (subjects_of staff) end.1) (managed_only wss)
    unfolding after_staff_client list_managed_workspaces
    after_staff_client-Binds namespace name config (some e) w h = cc
    after_staff_client-Binds namespace name config none w h =
        let answer = workspaces_read config w in
        let (infos, staff, ours, staff_listed, all) =
          after_managed-Binds namespace name config (managed_of answer.0) answer.1 h in
        let (wss, listed, told) = managed_of-inl answer.0 infos ours in
        (wss, staff, listed, staff_listed, rw told all)

    after_staff_config-Binds :
        (namespace name : Text) (answer : Config ⊎ Text) (w : W)
        → let end = after_staff_config kcp cluster namespace name answer w in
          end.0 ≡ ended none
          → (config : Config) × (wss : List Workspace) × (staff : List StaffResource) × (answer
              ≡ inl config)
            × ((workspaces_read config w).0 ≡ inl wss)
            × ((cluster.list_staff namespace (workspaces_read config w).1).0 ≡ inl staff)
            × All (HasAccess kcp bindings config (subjects_of staff) end.1) (managed_only wss)
    unfolding after_staff_config
    after_staff_config-Binds namespace name (inr e) w h = cc
    after_staff_config-Binds namespace name (inl config) w h =
        let (wss, staff, listed, staff_listed, all) =
          after_staff_client-Binds namespace name config (new_client kcp config) w h in
        (config, wss, staff, refl, listed, staff_listed, all)

    -- A reconciliation of the staff that ends without an error, whichever name it is for, has read its
    -- configuration, the list of workspaces at the configured path and the list of staff members, and
    -- leaves a binding in each workspace of that list that the operator manages and that is ready. The
    -- subjects of the binding are the users of all the listed staff members with a non-empty email, and
    -- no others. The laws: a write of a binding stores it or, if it fails, nothing, and the operator's
    -- own cluster has no part in the bindings.
    pub reconcile_staff-Syncs :
        (r : StaffMemberReconciler) (name : Text) (w : W)
        → (reconcile_staff kcp cluster r name w).0 ≡ ended none
        → IsSynced r w (reconcile_staff kcp cluster r name w).1
    unfolding reconcile_staff
    reconcile_staff-Syncs r name w h =
        let (config, wss, staff, loaded, listed, staff_listed, all) =
          after_staff_config-Binds r.staff_member_namespace name (config_read r w).0
            (config_read r w).1 h in
        let after = (reconcile_staff kcp cluster r name w).1 in
        record {
          config = config;
          workspaces = wss;
          staff = staff;
          loaded = loaded;
          listed = listed;
          staff_listed = staff_listed;
          access = λ ws there managed.
              HasAccess-HasStaff config staff after ws (listed_info ws) refl (
                managed_only-All (HasAccess kcp bindings config (subjects_of staff) after) wss all
                  ws there managed);
        }
