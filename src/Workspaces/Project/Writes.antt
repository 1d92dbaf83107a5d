-- ===== src/Workspaces/Project/Writes.antt =====
-- What updateCondition and updateWorkspaceStatus of project_controller.go leave of the project, in a
-- run in which no call fails.
use maintainer_d.Base.{
  ℕ, Text, text, ◌==◌, eq_refl, Bool, true, false, ◌≡◌, refl, ◌∙◌, subst, ap, Option, none, some,
  List, [], ◌∷◌, map, arith, if◌then◌else◌,
}
use maintainer_d.Base.Dict
use maintainer_d.Base.Dict.{Dict}
use maintainer_d.Workspaces.{WorkspaceInfo, StatusMap, ProjectResource, MetaCondition, Cluster}
use maintainer_d.Workspaces.Kcp.{value_or_empty}
use maintainer_d.Workspaces.Conditions.{
  workspace_ready_condition, annotation_workspace_phase, annotation_workspace_url,
  annotation_workspace_name, readiness, open_condition, read_condition, read_list, read_conditions,
  write_condition, new_status, after_set_status, after_current, update_condition, with_workspace,
  condition_for, after_patch_project, after_fresh, update_workspace_status,
}
use maintainer_d.Workspaces.Project.Laws.{condition_of, Says, Setting, Cooperates, Still}

-- What a condition that is written keeps when it is read again.
pub forget_times : MetaCondition → MetaCondition
forget_times c = record c { observed_generation = 0; last_transition_time = 0 }

Says-forget_times :
    (c : MetaCondition) (cs : List MetaCondition)
    → Says c (condition_of c.type cs)
    → Says c (condition_of c.type (map forget_times cs))
unfolding forget_times
Says-forget_times c [] says = says
Says-forget_times c (d ∷ cs) says = ground (arith, says, Says-forget_times c cs)

-- The project's condition of this type says the same.
abbrev pub Tells : MetaCondition → ProjectResource → Type 0
Tells c p = Says c (condition_of c.type (read_conditions p.status))

module _ {W : Type 0} (cluster : Cluster W) where
  -- Conditions that updateCondition writes and that it reads again are the same in the same order, but
  -- their transition times and observed generations are gone.
  pub read_list-write :
      (cs : List MetaCondition) → read_list (map (write_condition cluster) cs) ≡ map forget_times cs
  unfolding read_list write_condition forget_times read_condition Dict.get ◌==◌
  read_list-write [] = refl
  read_list-write (c ∷ cs) = ap (λ rest. forget_times c ∷ rest) (read_list-write cs)

module _ {W : Type 0} (setting : Setting W) (co : Cooperates setting) where
  open setting use {
    kcp, cluster, r, namespace, name, config_map, secret, kubeconfig, host, project, workspace,
    remaining, tick,
  }

  new_status-Tells :
      (c : MetaCondition) (s : Option StatusMap) (p : ProjectResource)
      → Tells c (record p { status = some (new_status cluster c s) })
  unfolding new_status read_conditions
  new_status-Tells c s p =
      rw (read_list-write cluster (cluster.set_status_condition c (read_conditions s))) (
        Says-forget_times c (cluster.set_status_condition c (read_conditions s))
          (co.sets_condition c (read_conditions s)))

  -- The condition is stored, and neither the workspace nor the annotations change.
  abbrev pub Updated : MetaCondition → W → Option Text × W → Type 0
  Updated c w (error, w') =
      (error ≡ none)
      × Tells c (project w')
      × ((project w').annotations ≡ (project w).annotations)
      × Still workspace remaining w w'

  pub update_condition-Updated :
      (p : ProjectResource) (c : MetaCondition) (w : W)
      → p.namespace ≡ namespace
      → p.name ≡ name
      → Updated c w (update_condition cluster p c w)
  unfolding update_condition after_current after_set_status
  update_condition-Updated p c w ns n =
      let status = new_status cluster c (project w).status in
      let new = record (project w) { status = some status } in
      let stored = co.patches_status new w (co.names w).0 (co.names w).1 in
      rw (co.reads p.namespace p.name w ns n, co.sets_status status (project w), stored.0)
        (
          refl,
          rw stored.1 (new_status-Tells c (project w).status (project w)),
          rw stored.1,
          stored.2,
        )

  -- What the project shows of a workspace: the condition, by its readiness, and the phase.
  abbrev pub Shows : WorkspaceInfo → ProjectResource → Type 0
  Shows info p =
      (c : MetaCondition) × (condition_of workspace_ready_condition (read_conditions p.status)
        ≡ some c)
      × (c.status ≡ (if info.ready then text "True" else text "False"))
      × (value_or_empty annotation_workspace_phase p.annotations ≡ info.phase)

  Tells-Shows :
      (c : MetaCondition) (o : Option MetaCondition)
      → Says c o
      → (d : MetaCondition) × (o ≡ some d) × (d.status ≡ c.status)
  Tells-Shows c none says = absurd says
  Tells-Shows c (some d) says = (d, refl, says.0)

  readiness-status :
      (c : MetaCondition) (info : WorkspaceInfo) (b : Bool)
      → ((readiness c info b).status ≡ (if b then text "True" else text "False"))
        × ((readiness c info b).type ≡ c.type)
  readiness-status c info true = (refl, refl)
  readiness-status c info false = (refl, refl)

  condition_for-status :
      (info : WorkspaceInfo) (generation : ℕ) (w : W)
      → let c = condition_for cluster info generation w in
        (c.status ≡ (if info.ready then text "True" else text "False"))
        × (c.type ≡ workspace_ready_condition)
  unfolding condition_for
  condition_for-status info generation w =
      readiness-status (open_condition generation (cluster.now w)) info info.ready

  with_workspace-phase :
      (info : WorkspaceInfo) (p : ProjectResource)
      → value_or_empty annotation_workspace_phase (with_workspace info p).annotations ≡ info.phase
  unfolding with_workspace
  with_workspace-phase info p =
      rw
        (Dict.get-put annotation_workspace_phase annotation_workspace_phase info.phase (
          Dict.put annotation_workspace_url info.url
            (Dict.put annotation_workspace_name info.name p.annotations)))
        (rw (eq_refl annotation_workspace_phase))

  pub update_workspace_status-Shows :
      (p : ProjectResource) (info : WorkspaceInfo) (w : W)
      → p.namespace ≡ namespace
      → p.name ≡ name
      → let step = update_workspace_status cluster p info w in
        (step.0 ≡ none) × Shows info (project step.1) × Still workspace remaining w step.1
  unfolding update_workspace_status after_fresh after_patch_project with_workspace
  update_workspace_status-Shows p info w ns n =
      let new = with_workspace info (project w) in
      let patch = cluster.patch_project (project w) new w in
      let stored = co.patches new w (co.names w).0 (co.names w).1 in
      let c = condition_for cluster info new.generation patch.1 in
      let updated = update_condition-Updated new c patch.1 (co.names w).0 (co.names w).1 in
      let c_is = condition_for-status info new.generation patch.1 in
      let (d, at, told) =
        Tells-Shows c
          (condition_of c.type
            (read_conditions (project (update_condition cluster new c patch.1).1).status))
          updated.1 in
      let conditions =
        read_conditions (project (update_condition cluster new c patch.1).1).status in
      rw (co.reads p.namespace p.name w ns n, stored.0)
        (
          updated.0,
          (
            d,
            subst (λ type. condition_of type conditions ≡ some d) c_is.1 at,
            told ∙ c_is.0,
            rw (updated.2, stored.1) (with_workspace-phase info (project w)),
          ),
          (updated.3.0 ∙ stored.2.0, updated.3.1 ∙ stored.2.1),
        )
