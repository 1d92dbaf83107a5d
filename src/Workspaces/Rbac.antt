-- ===== src/Workspaces/Rbac.antt =====
-- kdp-workspaces/internal/kcp/rbac.go: the binding that gives the staff its role in a workspace.
use maintainer_d.Base.{
  Text, text, ◌==◌, Option, none, some, List, [], ◌∷◌, ◌++◌, ◌⊎◌, inl, inr, length, if◌then◌else◌,
}
use maintainer_d.Base.Decimal.{itoa}
use maintainer_d.Base.Dict
use maintainer_d.Base.Dict.{Dict}
use maintainer_d.Scanner.Kube.{Found, found, not_found, failed}
use maintainer_d.Workspaces.{Config, Subject, Binding, KcpServer, Cluster}
use maintainer_d.Workspaces.Kcp.{operator_name}

abbrev pub staff_access_binding_name : Text
staff_access_binding_name = text "cncf-staff-access"

abbrev pub staff_role_name : Text
staff_role_name = text "kdp:owner"

abbrev pub binding_last_synced : Text
binding_last_synced = text "kdp-workspaces.cncf.io/last-synced"

abbrev pub binding_staff_count : Text
binding_staff_count = text "kdp-workspaces.cncf.io/staff-count"

-- A write to a nil map panics.
pub data BindOutcome : Type 0 where
  bound : BindOutcome
  refused : Text → BindOutcome
  panicked : BindOutcome

module _ {W : Type 0} (kcp : KcpServer W) where
  -- The workspace's own path, below the configured one.
  unfoldable pub path_of : Config → Text → Text
  unfolding ◌==◌
  path_of config name =
      kcp.join
        (kcp.new_path (if config.workspace_path == [] then text "root" else config.workspace_path))
        name

  unfoldable pub host_of : Config → Text → Text → Text
  unfolding path_of
  host_of config name host = host ++ text "/clusters/" ++ path_of config name

module _ {W : Type 0} (cluster : Cluster W) where
  unfoldable pub staff_binding : List Subject → Text → W → Binding
  staff_binding subjects source_namespace w = record {
    name = staff_access_binding_name;
    annotations = some (
        (binding_last_synced, cluster.format (cluster.now w))
        ∷ (binding_staff_count, itoa (length subjects))
        ∷ (text "kdp-workspaces.cncf.io/managed-by", operator_name)
        ∷ (text "kdp-workspaces.cncf.io/source-namespace", source_namespace)
        ∷ []);
    labels = (text "managed-by", operator_name) ∷ [];
    subjects = subjects;
    role = staff_role_name;
  }

  unfoldable pub updated_binding : Binding → Dict Text → List Subject → W → Binding
  unfolding Dict.put
  updated_binding binding annotations subjects w = record binding {
    subjects = subjects;
    annotations = some (
        Dict.put binding_staff_count (itoa (length subjects))
          (Dict.put binding_last_synced (cluster.format (cluster.now w)) annotations));
  }

abbrev pub bound_or : Text → Text → Option Text → BindOutcome
bound_or verb name none = bound
bound_or verb name (some e) = refused (
    text "failed to " ++ verb ++ text " ClusterRoleBinding in workspace " ++ name ++ text ": " ++ e)

module _ {W : Type 0} (kcp : KcpServer W) (cluster : Cluster W) where
  unfoldable pub update_existing :
      Text → Text → Binding → Option (Dict Text) → List Subject → W → BindOutcome × W
  unfolding updated_binding
  update_existing host name binding none subjects w = (panicked, w)
  update_existing host name binding (some annotations) subjects w =
      let (error, w') =
        kcp.update_binding host (updated_binding cluster binding annotations subjects w) w in
      (bound_or (text "update") name error, w')

  unfoldable pub after_binding :
      Text → Text → List Subject → Binding → Found Binding → W → BindOutcome × W
  unfolding update_existing
  after_binding host name subjects fresh (found binding) w =
      update_existing host name binding binding.annotations subjects w
  after_binding host name subjects fresh not_found w =
      let (error, w') = kcp.create_binding host fresh w in (bound_or (text "create") name error, w')
  after_binding host name subjects fresh (failed e) w =
      (refused (text "failed to get ClusterRoleBinding in workspace " ++ name ++ text ": " ++ e), w)

  unfoldable pub bind_at : Text → Text → List Subject → Text → Option Text → W → BindOutcome × W
  unfolding after_binding staff_binding
  bind_at host name subjects source_namespace (some e) w =
      (refused (text "failed to create kubernetes client: " ++ e), w)
  bind_at host name subjects source_namespace none w =
      let fresh = staff_binding cluster subjects source_namespace w in
      let (answer, w') = kcp.get_binding host staff_access_binding_name w in
      after_binding host name subjects fresh answer w'

  unfoldable pub after_rest_config :
      Config → Text → List Subject → Text → Text ⊎ Text → W → BindOutcome × W
  unfolding bind_at host_of
  after_rest_config config name subjects source_namespace (inr e) w =
      (refused (text "failed to parse kubeconfig: " ++ e), w)
  after_rest_config config name subjects source_namespace (inl base) w =
      let host = host_of kcp config name base in
      bind_at host name subjects source_namespace (kcp.kubernetes_client host) w

  unfoldable pub create_or_update_staff_binding :
      Config → Text → List Subject → Text → W → BindOutcome × W
  unfolding after_rest_config ◌==◌
  create_or_update_staff_binding config name subjects source_namespace w =
      if name == []
      then (refused (text "workspace name cannot be empty"), w)
      else after_rest_config config name subjects source_namespace
          (kcp.rest_config config.kubeconfig_data) w
