-- ===== src/Scanner/Resource.antt =====
-- What `Reconcile` of code-scanners/internal/controller/codescannerfossa_controller.go computes from
-- the resource, the secret and the team without a call.
use maintainer_d.Base.{
  ℕ, Text, text, ◌==◌, Bool, false, ◌&&◌, Option, none, some, List, [], ◌∷◌, ◌++◌, all, ◌⊎◌, inl,
  inr, length, eqb,
}
use maintainer_d.Base.Dict.{Dict, get}
use maintainer_d.Base.Decimal.{itoa, atoi}
use maintainer_d.Fossa.{Team}
use maintainer_d.Scanner.Types.{FossaUserInvitation}
use maintainer_d.Scanner.Conditions.{
  Status, condition_true, Note, team_ready, config_map_ready, no_users_requested, set_condition,
  invitations_verdict,
}
use maintainer_d.Scanner.Kube.{CodeScannerFossa, ConfigMap, Found, found, not_found, failed}

-- constants.go
abbrev pub team_ready_type : Text
team_ready_type = text "FossaTeamReady"

abbrev pub config_map_ready_type : Text
config_map_ready_type = text "ConfigMapReady"

abbrev pub invitations_type : Text
invitations_type = text "UserInvitationsProcessed"

abbrev pub annotation_config_map_ref : Text
annotation_config_map_ref = text "maintainer-d.cncf.io/configmap-ref"

abbrev pub secret_name : Text
secret_name = text "code-scanners"

abbrev pub secret_key_fossa_token : Text
secret_key_fossa_token = text "fossa-api-token"

abbrev pub secret_key_fossa_org_id : Text
secret_key_fossa_org_id = text "fossa-organization-id"

-- `setCondition` on the resource; `now` is what `metav1.Now` says.
unfoldable pub with_condition :
    Text → Status → Text → Note → ℕ → CodeScannerFossa → CodeScannerFossa
unfolding set_condition
with_condition type status reason message now cr = record cr {
  status = record cr.status {
    conditions =
        set_condition
          (record {
            type = type;
            status = status;
            observed_generation = cr.generation;
            last_transition_time = now;
            reason = reason;
            message = message;
          })
          cr.status.conditions;
  };
}

abbrev pub team_url : Team → Text
team_url team = text "https://app.fossa.com/account/settings/organization/teams/" ++ itoa team.id

-- The name of the config map is that of the resource.
unfoldable pub config_map_for_fossa : CodeScannerFossa → Team → ConfigMap
unfolding itoa
config_map_for_fossa cr team = record {
  name = cr.name;
  namespace = cr.namespace;
  config_data =
      (text "CodeScanner", text "Fossa")
      ∷ (text "ProjectName", cr.spec.project_name)
      ∷ (text "FossaTeamID", itoa team.id)
      ∷ (text "FossaTeamName", team.name)
      ∷ (text "FossaTeamURL", team_url team)
      ∷ [];
}

-- `reflect.DeepEqual` on two maps: as many keys, and each with the same value.
abbrev same_value : Text → Option Text → Bool
same_value v none = false
same_value v (some w) = v == w

unfoldable pub same_data : Dict Text → Dict Text → Bool
unfolding get ◌==◌
same_data m n = eqb (length m) (length n) && all (λ (e : Text × Text). same_value e.1 (get e.0 n)) m

-- `secret.Data[key]`: empty if it is missing.
abbrev pub secret_value : Dict Text → Text → Text
secret_value m key = elim (get key m) [ none ↦ [] | some v ↦ v ]

-- `getFossaCredentials` once the secret is read: the token and the organization's number.
unfoldable pub credentials : Text → Found (Dict Text) → (Text × Text) ⊎ Text
unfolding get
credentials namespace not_found =
    inr (text "secret code-scanners not found in namespace " ++ namespace)
credentials namespace (failed e) = inr (text "failed to get secret code-scanners: " ++ e)
credentials namespace (found secret) = elim (secret_value secret secret_key_fossa_token) [
  | [] ↦ inr (text "missing fossa-api-token in secret")
  | b ∷ token ↦ elim (secret_value secret secret_key_fossa_org_id) [
    | [] ↦ inr (text "missing fossa-organization-id in secret")
    | d ∷ org_id ↦ inl (b ∷ token, d ∷ org_id)
  ]
]

-- Step 6: the team in the status.
unfoldable pub with_team_reference : Text → Team → CodeScannerFossa → CodeScannerFossa
unfolding itoa atoi
with_team_reference org_id team cr = record cr {
  status = record cr.status {
    observed_generation = cr.generation;
    fossa_team = some (record {
      id = team.id;
      name = team.name;
      organization_id = atoi org_id;
      url = team_url team;
      created_at = team.created_at;
    });
  };
}

unfoldable pub with_team : Text → Team → ℕ → CodeScannerFossa → CodeScannerFossa
unfolding with_condition with_team_reference
with_team org_id team now cr =
    with_condition team_ready_type condition_true (text "TeamCreated")
      (team_ready team.name team.id) now (with_team_reference org_id team cr)

abbrev pub with_invitations : List FossaUserInvitation → CodeScannerFossa → CodeScannerFossa
with_invitations invitations cr = record cr {
  status = record cr.status { user_invitations = invitations };
}

-- Step 8.3.
unfoldable pub with_verdict : List FossaUserInvitation → ℕ → CodeScannerFossa → CodeScannerFossa
unfolding with_condition invitations_verdict
with_verdict invitations now cr =
    let v = invitations_verdict invitations in
    with_condition invitations_type v.status v.reason v.message now
      (with_invitations invitations cr)

-- The end of step 7, and the branch of step 8 without emails.
unfoldable pub with_config_map : ℕ → CodeScannerFossa → CodeScannerFossa
unfolding with_condition
with_config_map now cr =
    with_condition config_map_ready_type condition_true (text "ConfigMapCreated") config_map_ready
      now cr

unfoldable pub without_users : ℕ → CodeScannerFossa → CodeScannerFossa
unfolding with_condition
without_users now cr =
    with_condition invitations_type condition_true (text "NoInvitationsRequested")
      no_users_requested now (with_invitations [] cr)
