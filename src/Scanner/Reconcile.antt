-- ===== src/Scanner/Reconcile.antt =====
-- `Reconcile` of code-scanners/internal/controller/codescannerfossa_controller.go, a function for
-- each stretch between two calls to the cluster.
pub mod Log
pub mod Shows
pub mod Users
pub mod Settles
use maintainer_d.Base.{
  ℕ, Text, text, ◌==◌, Bool, Option, none, some, ◌++◌, inl, inr, ◌⊎◌, if◌then◌else◌,
}
use maintainer_d.Base.Dict.{Dict, get, put}
use maintainer_d.Fossa.{FossaClient, Result, ok, err, Team}
use maintainer_d.Scanner.Conditions.{condition_false, error_text, config_map_created, reconciled}
use maintainer_d.Scanner.Kube.{
  CodeScannerFossa, ConfigMap, Found, found, not_found, failed, Kube, event, normal, warning,
}
use maintainer_d.Scanner.Resource.{
  team_ready_type, annotation_config_map_ref, secret_name, secret_value, with_condition, with_team,
  with_config_map, config_map_for_fossa, same_data, credentials,
}
use maintainer_d.Scanner.Stages.{ensure_fossa_team, process_users}

-- ctrl.Result, its time in seconds, and the error beside it.
pub record Outcome : Type 0 where
  pub requeue_after : ℕ
  pub error : Option Text

abbrev pub done_with : ℕ → Outcome
done_with seconds = record { requeue_after = seconds; error = none }

abbrev pub fails_with : Text → Outcome
fails_with e = record { requeue_after = 0; error = some e }

abbrev pub config_map_ref_of : CodeScannerFossa → Text
config_map_ref_of cr = cr.namespace ++ text "/" ++ cr.name

-- `fossaCR.Annotations[AnnotationConfigMapRef] == configMapRef`
unfoldable pub annotated : CodeScannerFossa → Text → Bool
unfolding get ◌==◌
annotated cr ref = secret_value cr.annotations annotation_config_map_ref == ref

abbrev pub with_ref : Text → CodeScannerFossa → CodeScannerFossa
with_ref ref cr = record cr { status = record cr.status { config_map_ref = ref } }

-- An empty namespace of the credentials stands for that of the resource.
unfoldable pub credentials_namespace_of : Text → CodeScannerFossa → Text
unfolding ◌==◌
credentials_namespace_of namespace cr = if namespace == text "" then cr.namespace else namespace

module _ {W : Type 0} (kube : Kube W) (clock : W → ℕ) where
  unfoldable pub after_update : CodeScannerFossa → Team → ℕ → Option Text → W → Outcome × W
  after_update cr team requeue (some e) w = (fails_with e, w)
  after_update cr team requeue none w = (
    done_with requeue,
    kube.record_event (event normal (text "Reconciled") (reconciled team.name team.id)) w,
  )

  -- Step 10.
  unfoldable pub write_status : CodeScannerFossa → Team → Text → ℕ → W → Outcome × W
  unfolding after_update
  write_status cr team ref requeue w =
      let (error, w') = kube.update_status (with_ref ref cr) w in
      after_update (with_ref ref cr) team requeue error w'

  unfoldable pub after_patch : Team → Text → ℕ → (CodeScannerFossa ⊎ Text) × W → Outcome × W
  unfolding write_status
  after_patch team ref requeue (inr e, w) = (fails_with e, w)
  after_patch team ref requeue (inl cr, w) = write_status cr team ref requeue w

  -- Steps 9 and 10.
  unfoldable pub annotate : CodeScannerFossa → Team → Text → ℕ → W → Outcome × W
  unfolding write_status after_patch annotated put
  annotate cr team ref requeue w =
      if annotated cr ref
      then write_status cr team ref requeue w
      else after_patch team ref requeue (
          kube.patch (record cr { annotations = put annotation_config_map_ref ref cr.annotations })
            w)

  module _ (fossa : FossaClient W) where
    -- Step 8 and what follows it.
    unfoldable pub after_ready : CodeScannerFossa → Team → W → Outcome × W
    unfolding with_config_map process_users annotate
    after_ready cr team w =
        let ((cr', requeue), w') =
          process_users kube clock fossa (with_config_map (clock w) cr) team w in
        annotate cr' team (config_map_ref_of cr) requeue w'

    unfoldable pub after_create :
        CodeScannerFossa → Team → ConfigMap → Option Text × W → Outcome × W
    unfolding after_ready
    after_create cr team config_map (some e, w) = (fails_with e, w)
    after_create cr team config_map (none, w) = after_ready cr team (
        kube.record_event
          (event normal (text "ConfigMapCreated") (config_map_created config_map.name)) w)

    unfoldable pub after_config_map_update : CodeScannerFossa → Team → Option Text × W → Outcome × W
    unfolding after_ready
    after_config_map_update cr team (some e, w) = (fails_with e, w)
    after_config_map_update cr team (none, w) = after_ready cr team w

    -- Step 7, once the config map is looked up.
    unfoldable pub after_config_map :
        CodeScannerFossa → Team → ConfigMap → Found (Dict Text) → W → Outcome × W
    unfolding after_create after_config_map_update after_ready same_data
    after_config_map cr team config_map (failed e) w = (fails_with e, w)
    after_config_map cr team config_map not_found w =
        after_create cr team config_map (kube.create_config_map config_map w)
    after_config_map cr team config_map (found existing) w =
        if same_data existing config_map.config_data
        then after_ready cr team w
        else after_config_map_update cr team (kube.update_config_map config_map w)

    unfoldable pub after_owner : CodeScannerFossa → Team → ConfigMap → Option Text → W → Outcome × W
    unfolding after_config_map
    after_owner cr team config_map (some e) w = (fails_with e, w)
    after_owner cr team config_map none w =
        let (existing, w') = kube.get_config_map config_map.namespace config_map.name w in
        after_config_map cr team config_map existing w'

    -- Steps 6 and 7; without a team an error is reported, and the next run comes after a minute.
    unfoldable pub after_team : CodeScannerFossa → Text → Result Team → W → Outcome × W
    unfolding with_team after_owner config_map_for_fossa with_condition
    after_team cr org_id (err e) w =
        let (ignored, w') =
          kube.update_status
            (with_condition team_ready_type condition_false (text "APIError") (error_text e.message)
              (clock w) cr)
            w in
        (
          record { requeue_after = 60; error = some e.message },
          kube.record_event (event warning (text "APIError") (error_text e.message)) w',
        )
    after_team cr org_id (ok team) w =
        let cr' = with_team org_id team (clock w) cr in
        let config_map = config_map_for_fossa cr' team in
        after_owner cr' team config_map (kube.set_controller_reference cr' config_map) w

  unfoldable pub after_no_credentials : Text → Option Text × W → Outcome × W
  after_no_credentials e (some error, w) = (fails_with error, w)
  after_no_credentials e (none, w) =
      (done_with 0, kube.record_event (event warning (text "CredentialsNotFound") (error_text e)) w)

  module _ (factory : Text → FossaClient W) where
    -- Steps 4 and 5; without credentials the run ends and is not repeated.
    unfoldable pub after_credentials : CodeScannerFossa → (Text × Text) ⊎ Text → W → Outcome × W
    unfolding after_team ensure_fossa_team with_condition after_no_credentials
    after_credentials cr (inr e) w = after_no_credentials e (
        kube.update_status
          (with_condition team_ready_type condition_false (text "CredentialsNotFound")
            (error_text e) (clock w) cr)
          w)
    after_credentials cr (inl (token, org_id)) w =
        let (team, w') = ensure_fossa_team kube clock (factory token) cr.spec.project_name w in
        after_team (factory token) cr org_id team w'

    unfoldable pub after_get : Text → Found CodeScannerFossa → W → Outcome × W
    unfolding after_credentials credentials credentials_namespace_of
    after_get namespace not_found w = (done_with 0, w)
    after_get namespace (failed e) w = (fails_with e, w)
    after_get namespace (found cr) w =
        let at = credentials_namespace_of namespace cr in
        let (secret, w') = kube.get_secret at secret_name w in
        after_credentials cr (credentials at secret) w'

    unfoldable pub reconcile : Text → W → Outcome × W
    unfolding after_get
    reconcile namespace w = let (cr, w') = kube.get_cr w in after_get namespace cr w'
