-- ===== src/Scanner/Reconcile/Settles.antt =====
-- What the last status that a run of `Reconcile` writes says.
use maintainer_d.Base.{
  ℕ, Text, text, ◌==◌, subst, ◌≡◌, refl, sym, ◌⊎◌, inl, inr, Bool, true, Option, none, some, List,
  [], ◌∷◌, ◌++◌, arith, Bool-cases,
}
use maintainer_d.Base.Dict.{Dict}
use maintainer_d.Fossa.{FossaClient, Result, ok, err, Team}
use maintainer_d.Scanner.Conditions.{condition_false, error_text}
use maintainer_d.Scanner.Conditions.Update.{IsDistinct}
use maintainer_d.Scanner.Kube.{
  CodeScannerFossa, CodeScannerFossaStatus, ConfigMap, Found, found, not_found, failed, Kube,
}
use maintainer_d.Scanner.Resource.{
  team_ready_type, secret_name, secret_value, annotation_config_map_ref, with_condition,
  with_team_reference, with_team, with_config_map, config_map_for_fossa, same_data, credentials,
}
use maintainer_d.Scanner.Stages.{process_users, process_emails}
use maintainer_d.Scanner.Reconcile.{
  Outcome, config_map_ref_of, annotated, with_ref, after_update, write_status, after_patch,
  annotate, after_ready, after_create, after_config_map_update, after_config_map, after_owner,
  after_team, after_no_credentials, after_credentials, after_get, credentials_namespace_of,
  reconcile,
}
use maintainer_d.Scanner.Reconcile.Log.{Logged, logged}
use maintainer_d.Scanner.Reconcile.Shows.{Shows, with_condition-Shows}
use maintainer_d.Scanner.Reconcile.Users.{
  IsReady, UsersReady-with_ref, HasTeam, with_team-HasTeam, with_config_map-IsPrepared,
  process_emails-IsReady,
}

-- If a run returns no error, the newest accepted status is as `P` says, with the time to requeue.
abbrev pub Ends : {W : Type 0} → (CodeScannerFossaStatus → ℕ → Type 0) → Outcome × Logged W → Type 0
Ends P r =
    r.0.error ≡ none
    → (before : List CodeScannerFossaStatus) × (s : CodeScannerFossaStatus) × (r.1.statuses
        ≡ before ++ s ∷ [])
      × P s r.0.requeue_after

-- The annotation is in place, or a patch answers with the status that it was given.
abbrev pub Keeps : {W : Type 0} → Kube W → Bool → Type 0
Keeps {W} kube in_place =
    (in_place ≡ true)
    ⊎ ((c : CodeScannerFossa) (w : W) (c' : CodeScannerFossa)
        → (kube.patch c w).0 ≡ inl c'
        → c'.status ≡ c.status)

module _ {W : Type 0} (kube : Kube W) (clock : Logged W → ℕ)
    (P : CodeScannerFossaStatus → ℕ → Type 0) where
  write_status-Ends :
      (cr : CodeScannerFossa) (team : Team) (ref : Text) (requeue : ℕ) (l : Logged W)
      → P (with_ref ref cr).status requeue
      → Ends P (write_status (logged kube) clock cr team ref requeue l)
  unfolding write_status after_update
  write_status-Ends cr team ref requeue l p =
      by_answer (kube.update_status (with_ref ref cr) l.world) refl
    where
      by_answer :
          (r : Option Text × W)
          → kube.update_status (with_ref ref cr) l.world ≡ r
          → Ends P (write_status (logged kube) clock cr team ref requeue l)
      by_answer (none, w) e = rw e (λ h. (l.statuses, (with_ref ref cr).status, refl, p))
      by_answer (some error, w) e = rw e (λ h. ground arith)

  after_patch-Ends :
      (team : Team) (ref : Text) (requeue : ℕ) (r : (CodeScannerFossa ⊎ Text) × Logged W)
      → ((cr : CodeScannerFossa) → r.0 ≡ inl cr → P (with_ref ref cr).status requeue)
      → Ends P (after_patch (logged kube) clock team ref requeue r)
  unfolding after_patch
  after_patch-Ends team ref requeue (inr e, l) p = λ h. ground arith
  after_patch-Ends team ref requeue (inl cr, l) p =
      write_status-Ends cr team ref requeue l (p cr refl)

  annotate-Ends :
      (cr : CodeScannerFossa) (team : Team) (ref : Text) (requeue : ℕ) (l : Logged W)
      → Keeps kube (annotated cr ref)
      → P (with_ref ref cr).status requeue
      → Ends P (annotate (logged kube) clock cr team ref requeue l)
  unfolding annotate
  annotate-Ends cr team ref requeue l (inl there) p =
      rw there (write_status-Ends cr team ref requeue l p)
  annotate-Ends cr team ref requeue l (inr keeps) p = elim (Bool-cases (annotated cr ref)) [
    | inl there ↦ rw there (write_status-Ends cr team ref requeue l p)
    | inr missing ↦ rw missing (
        after_patch-Ends team ref requeue _ (λ cr' e.
          subst (λ (s : CodeScannerFossaStatus). P (record s { config_map_ref = ref }) requeue)
            (sym (keeps _ _ cr' e)) p))
  ]

module _ {W : Type 0} (kube : Kube W) (clock : Logged W → ℕ) (fossa : FossaClient (Logged W)) where
  -- A run that has a team ends with a status that is ready.
  abbrev EndsReady : CodeScannerFossa → Outcome × Logged W → Type 0
  EndsReady cr = Ends (IsReady cr.spec.fossa_user_emails)

  abbrev IsBegun : CodeScannerFossa → Type 0
  IsBegun cr = HasTeam cr.status × Keeps kube (annotated cr (config_map_ref_of cr))

  after_ready-Ends :
      (cr : CodeScannerFossa) (team : Team) (l : Logged W)
      → IsBegun cr
      → EndsReady cr (after_ready (logged kube) clock fossa cr team l)
  unfolding after_ready process_users annotated with_config_map with_condition
  after_ready-Ends cr team l (has_team, keeps) =
      let cr0 = with_config_map (clock l) cr in
      let prepared = with_config_map-IsPrepared (clock l) cr has_team in
      let ((cr', requeue), l') =
        process_emails (logged kube) clock fossa cr.spec.fossa_user_emails cr0 team l in
      let (ready, same) =
        process_emails-IsReady (logged kube) clock fossa cr.spec.fossa_user_emails cr0 team l
          prepared in
      let ref = config_map_ref_of cr in
      annotate-Ends kube clock (IsReady cr.spec.fossa_user_emails) cr' team ref requeue l'
        (subst (λ (m : Dict Text). Keeps kube (secret_value m annotation_config_map_ref == ref))
          (sym same) keeps)
        (ready.0, UsersReady-with_ref cr.spec.fossa_user_emails _ requeue ref ready.1)

  after_create-Ends :
      (cr : CodeScannerFossa) (team : Team) (config_map : ConfigMap) (r : Option Text × Logged W)
      → IsBegun cr
      → EndsReady cr (after_create (logged kube) clock fossa cr team config_map r)
  unfolding after_create
  after_create-Ends cr team config_map (some e, l) h = λ e. ground arith
  after_create-Ends cr team config_map (none, l) h = after_ready-Ends cr team _ h

  after_config_map_update-Ends :
      (cr : CodeScannerFossa) (team : Team) (r : Option Text × Logged W)
      → IsBegun cr
      → EndsReady cr (after_config_map_update (logged kube) clock fossa cr team r)
  unfolding after_config_map_update
  after_config_map_update-Ends cr team (some e, l) h = λ e. ground arith
  after_config_map_update-Ends cr team (none, l) h = after_ready-Ends cr team l h

  after_config_map-Ends :
      (cr : CodeScannerFossa) (team : Team) (config_map : ConfigMap) (existing : Found (Dict Text))
      (l : Logged W)
      → IsBegun cr
      → EndsReady cr (after_config_map (logged kube) clock fossa cr team config_map existing l)
  unfolding after_config_map
  after_config_map-Ends cr team config_map (failed e) l h = λ e. ground arith
  after_config_map-Ends cr team config_map not_found l h = after_create-Ends cr team config_map _ h
  after_config_map-Ends cr team config_map (found existing) l h =
      elim (Bool-cases (same_data existing config_map.config_data)) [
        | inl same ↦ rw same (after_ready-Ends cr team l h)
        | inr other ↦ rw other (after_config_map_update-Ends cr team _ h)
      ]

  after_owner-Ends :
      (cr : CodeScannerFossa) (team : Team) (config_map : ConfigMap) (owner : Option Text)
      (l : Logged W)
      → IsBegun cr
      → EndsReady cr (after_owner (logged kube) clock fossa cr team config_map owner l)
  unfolding after_owner
  after_owner-Ends cr team config_map (some e) l h = λ e. ground arith
  after_owner-Ends cr team config_map none l h = after_config_map-Ends cr team config_map _ _ h

  after_team-Ends :
      (cr : CodeScannerFossa) (org_id : Text) (team : Result Team) (l : Logged W)
      → IsDistinct cr.status.conditions
      → Keeps kube (annotated cr (config_map_ref_of cr))
      → EndsReady cr (after_team (logged kube) clock fossa cr org_id team l)
  unfolding after_team with_team with_team_reference with_condition annotated
  after_team-Ends cr org_id (err e) l h keeps = λ e. ground arith
  after_team-Ends cr org_id (ok team) l h keeps =
      after_owner-Ends (with_team org_id team (clock l) cr) team
        (config_map_for_fossa (with_team org_id team (clock l) cr) team) _ l
        (with_team-HasTeam org_id team (clock l) cr h, keeps)

-- The end of a run that returns no error, from what the credentials are.
abbrev pub Settled : CodeScannerFossa → (Text × Text) ⊎ Text → CodeScannerFossaStatus → ℕ → Type 0
Settled cr (inr e) s requeue =
    Shows team_ready_type condition_false (text "CredentialsNotFound") s.conditions × (requeue ≡ 0)
Settled cr (inl token_and_org) s requeue = IsReady cr.spec.fossa_user_emails s requeue

module _ {W : Type 0} (kube : Kube W) (clock : Logged W → ℕ)
    (factory : Text → FossaClient (Logged W)) where
  after_credentials-Ends :
      (cr : CodeScannerFossa) (creds : (Text × Text) ⊎ Text) (l : Logged W)
      → IsDistinct cr.status.conditions
      → Keeps kube (annotated cr (config_map_ref_of cr))
      → Ends (Settled cr creds) (after_credentials (logged kube) clock factory cr creds l)
  unfolding after_credentials after_no_credentials
  after_credentials-Ends cr (inl (token, org_id)) l h keeps =
      after_team-Ends kube clock (factory token) cr org_id _ _ h keeps
  after_credentials-Ends cr (inr e) l h keeps = by_answer (kube.update_status cr' l.world) refl
    where
      cr' : CodeScannerFossa
      cr' =
          with_condition team_ready_type condition_false (text "CredentialsNotFound") (error_text e)
            (clock l) cr

      shows :
          Shows team_ready_type condition_false (text "CredentialsNotFound") cr'.status.conditions
      shows = with_condition-Shows _ _ _ _ _ cr h

      by_answer :
          (r : Option Text × W)
          → kube.update_status cr' l.world ≡ r
          → Ends (Settled cr (inr e)) (after_credentials (logged kube) clock factory cr (inr e) l)
      by_answer (none, w) f = rw f (λ h. (l.statuses, cr'.status, refl, (shows, refl)))
      by_answer (some error, w) f = rw f (λ h. ground arith)

  -- A run of `reconcile` on a resource without two conditions of one type, whose annotation is in
  -- place or whose patch answers with the status that it was given, if it returns no error: the last
  -- status that the cluster has accepted says, without usable credentials, that they were not found,
  -- and nothing is requeued. With them it has the team, says that the team and the config map are
  -- ready, has one condition for each type, and on the invitations the verdict of those that it
  -- holds; the next run is due exactly as these ask for (`invitations_requeue`). Without emails it
  -- holds no invitations.
  pub reconcile-Settled :
      (namespace : Text) (l : Logged W) (cr : CodeScannerFossa)
      → (kube.get_cr l.world).0 ≡ found cr
      → IsDistinct cr.status.conditions
      → Keeps kube (annotated cr (config_map_ref_of cr))
      → Ends
          (Settled cr (
            credentials
              (credentials_namespace_of namespace cr)
              (kube.get_secret
                (credentials_namespace_of namespace cr)
                secret_name
                (kube.get_cr l.world).1).0))
          (reconcile (logged kube) clock factory namespace l)
  unfolding reconcile after_get
  reconcile-Settled namespace l cr e h keeps = rw e (after_credentials-Ends cr _ _ h keeps)
