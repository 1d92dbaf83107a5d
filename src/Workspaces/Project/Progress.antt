-- ===== src/Workspaces/Project/Progress.antt =====
-- What one run of Reconcile of project_controller.go comes to, in a run in which no call fails.
use maintainer_d.Base.{
  ℕ, ◌≤◌, ◌<◌, Text, text, ◌==◌, eq_iff, to_lower, Bool, true, false, eqb, ◌≡◌, refl, sym, ◌∙◌,
  subst, inl, ◌⊎◌, inr, Option, none, some, [], ◌∷◌, arith, if-Splits,
}
use maintainer_d.Workspaces.{Config, WorkspaceInfo, Workspace, ProjectResource, MetaCondition}
use maintainer_d.Workspaces.Kcp.{
  info_of, info_found, phase_ready, workspace_for, after_create, create_workspace,
  wait_for_workspace_ready, get_workspace,
}
use maintainer_d.Workspaces.Events.{project_to_requests}
use maintainer_d.Workspaces.Staff.{workspace_trigger}
use maintainer_d.Workspaces.Conditions.{
  workspace_ready_condition, read_conditions, update_condition, update_workspace_status,
}
use maintainer_d.Workspaces.Project.{
  Ended, returned, false_condition, requeue_unless, status_written, after_wait,
  after_create_workspace, create_it, after_workspace, after_client, after_config, after_project,
  reconcile,
}
use maintainer_d.Workspaces.Project.Laws.{
  condition_of, Setting, Cooperates, Still, HasWorkspace, found_or, the_config,
}
use maintainer_d.Workspaces.Project.Writes.{
  Shows, update_workspace_status-Shows, update_condition-Updated,
}
use maintainer_d.Workspaces.Project.Waits.{
  config_loads, client_connects, workspace_found, wait-Waited, Waited, to_lower-filled,
}

-- The condition WorkspaceReady is true, and the annotations make the staff controller run.
abbrev pub IsReady : ProjectResource → Type 0
IsReady p =
    (c : MetaCondition) × (condition_of workspace_ready_condition (read_conditions p.status)
      ≡ some c)
    × (c.status ≡ text "True")
    × (project_to_requests p.annotations ≡ workspace_trigger ∷ [])

-- Whether the controller asks for no other run.
abbrev pub is_done : Ended → Bool
is_done (returned delay none) = eqb delay 0
is_done _ = false

module _ {W : Type 0} (workspace : W → Option Workspace) (remaining : W → ℕ)
    (project : W → ProjectResource) where
  -- A run is the last and leaves a ready project with its workspace, or time has brought the
  -- workspace closer.
  abbrev pub Progress : W → Ended × W → Type 0
  Progress w (end, w') =
      ((is_done end ≡ true) × IsReady (project w') × HasWorkspace workspace w')
      ⊎ ((is_done end ≡ false)
          × HasWorkspace workspace w'
          × (remaining w' ≤ remaining w)
          × ((workspace w ≡ none) ⊎ (0 < remaining w)))

module _ {W : Type 0} (setting : Setting W) (co : Cooperates setting) where
  open setting use {
    kcp, cluster, r, namespace, name, config_map, secret, kubeconfig, host, project, workspace,
    remaining, tick,
  }

  Shows-IsReady :
      (info : WorkspaceInfo) (p : ProjectResource)
      → info.ready ≡ true
      → info.phase ≡ phase_ready
      → Shows setting co info p
      → IsReady p
  unfolding project_to_requests
  Shows-IsReady info p ready phase (c, at, status, shown) =
      (c, at, rw ready at status, rw shown (rw phase refl))

  still-Has :
      (w w' : W)
      → Still workspace remaining w w'
      → HasWorkspace workspace w
      → HasWorkspace workspace w'
  still-Has w w' still (ws, at) = (ws, still.0 ∙ at)

  -- After a workspace was created.
  abbrev Created : W → W → Type 0
  Created w w' = HasWorkspace workspace w' × (remaining w' ≤ remaining w) × (workspace w ≡ none)

  status_shown :
      (p : ProjectResource) (info : WorkspaceInfo) (w : W)
      → p.namespace ≡ namespace
      → p.name ≡ name
      → let step = update_workspace_status cluster p info w in
        (step.0 ≡ none)
        × Shows setting co info (project step.1)
        × Still workspace remaining w step.1
  status_shown = update_workspace_status-Shows setting co

  written-Progress :
      (info : WorkspaceInfo) (w w' : W) (error : Option Text)
      → error ≡ none
      → info.ready ≡ true
      → (info.phase == phase_ready) ≡ true
      → Shows setting co info (project w')
      → HasWorkspace workspace w'
      → Progress workspace remaining project w (status_written 0 (error, w'))
  written-Progress info w w' none done ready phase shows has = inl (
    refl,
    Shows-IsReady info (project w') ready ((eq_iff info.phase phase_ready).0 phase) shows,
    has,
  )
  written-Progress info w w' (some e) done ready phase shows has = cc

  after_wait-Progress :
      (p : ProjectResource) (created : WorkspaceInfo) (last : Option WorkspaceInfo)
      (error : Option Text) (w w' : W)
      → p.namespace ≡ namespace
      → p.name ≡ name
      → Waited setting co last error
      → Created w w'
      → Progress workspace remaining project w (after_wait cluster p created (last, error, w'))
  unfolding after_wait
  after_wait-Progress p created last (some e) w w' ns n waited (has, closer, absent) =
      let (none_failed, shows, still) = status_shown p created w' ns n in
      inr (refl, still-Has w' _ still has, omega (arith, still.1, closer), inl absent)
  after_wait-Progress p created none none w w' ns n waited made = absurd waited
  after_wait-Progress p created (some info) none w w' ns n (ready, phase) (has, _, _) =
      let step = update_workspace_status cluster p info w' in
      let (done, shows, still) = status_shown p info w' ns n in
      written-Progress info w step.1 step.0 done ready phase shows (still-Has w' step.1 still has)

  -- The configuration of the operator.
  abbrev config : Config
  config = the_config config_map kubeconfig

  wait_made-Progress :
      (p : ProjectResource) (created : WorkspaceInfo) (w w' : W)
      → p.namespace ≡ namespace
      → p.name ≡ name
      → Created w w'
      → Progress workspace remaining project w
          (after_create_workspace kcp cluster p config (to_lower name) (inl created) w')
  unfolding after_create_workspace
  wait_made-Progress p created w w' ns n (has, closer, absent) =
      let end = wait_for_workspace_ready kcp config (to_lower name) w' in
      let (waited, elapsed) = wait-Waited setting co w' in
      after_wait-Progress p created end.0 end.1 w end.2 ns n waited
        (elapsed.0 has, omega (arith, elapsed.1, closer), absent)

  is_typed :
      (p : ProjectResource)
      → ((workspace_for config (to_lower name) p.namespace p.name).type_name == []) ≡ false
  unfolding ◌==◌
  is_typed p =
      if-Splits (λ (t : Text). (t == []) ≡ false) (config.workspace_type == []) _ _ (λ h. refl)
        (λ h. h)

  creates :
      (p : ProjectResource) (w : W)
      → workspace w ≡ none
      → let step = create_workspace kcp config (to_lower name) p.namespace p.name w in
        (info : WorkspaceInfo) × (step.0 ≡ inl info) × Created w step.1
  unfolding create_workspace after_create
  creates p w absent =
      let (made, answer, has, closer) =
        co.creates (workspace_for config (to_lower name) p.namespace p.name) w refl refl
          (is_typed p) absent in
      rw (to_lower-filled name co.is_named, answer) (info_of made, refl, (has, closer, absent))

  create_it-Progress :
      (p : ProjectResource) (w : W)
      → p.namespace ≡ namespace
      → p.name ≡ name
      → workspace w ≡ none
      → Progress workspace remaining project w (create_it kcp cluster p config (to_lower name) w)
  unfolding create_it
  create_it-Progress p w ns n absent =
      let c = false_condition (text "Creating") (text "Creating workspace in kcp") in
      let told = update_condition cluster p c w in
      let (_, _, _, still) = update_condition-Updated setting co p c w ns n in
      let (info, answer, (has, closer, _)) = creates p told.1 (still.0 ∙ absent) in
      let made = create_workspace kcp config (to_lower name) p.namespace p.name told.1 in
      rw answer
        (wait_made-Progress p info w made.1 ns n (has, omega (arith, closer, still.1), absent))

  retried-Progress :
      (w w' : W) (error : Option Text)
      → HasWorkspace workspace w'
      → remaining w' ≤ remaining w
      → 0 < remaining w
      → error ≡ none
      → Progress workspace remaining project w (status_written 5 (error, w'))
  retried-Progress w w' none has closer later done = inr (refl, has, closer, inr later)
  retried-Progress w w' (some e) has closer later done = cc

  there-Progress :
      (p : ProjectResource) (ws : Workspace) (w : W)
      → p.namespace ≡ namespace
      → p.name ≡ name
      → workspace w ≡ some ws
      → (b : Bool) → (info_of ws).ready ≡ b
      → Progress workspace remaining project w
          (status_written (requeue_unless b) (update_workspace_status cluster p (info_of ws) w))
  unfolding info_of
  there-Progress p ws w ns n there true ready =
      let step = update_workspace_status cluster p (info_of ws) w in
      let (done, shows, still) = status_shown p (info_of ws) w ns n in
      written-Progress (info_of ws) w step.1 step.0 done ready ready shows
        (still-Has w step.1 still (ws, there))
  there-Progress p ws w ns n there false not_ready =
      let step = update_workspace_status cluster p (info_of ws) w in
      let (done, shows, still) = status_shown p (info_of ws) w ns n in
      retried-Progress w step.1 step.0 (still-Has w step.1 still (ws, there))
        (omega (arith, still.1)) (ground (arith, co.is_ready ws w there)) done

  after_workspace-Progress :
      (p : ProjectResource) (o : Option Workspace) (w : W)
      → p.namespace ≡ namespace
      → p.name ≡ name
      → workspace w ≡ o
      → Progress workspace remaining project w (
          after_workspace kcp cluster p config
            (to_lower name)
            (info_found (to_lower name) (found_or o))
            w)
  unfolding after_workspace info_found
  after_workspace-Progress p none w ns n absent = create_it-Progress p w ns n absent
  after_workspace-Progress p (some ws) w ns n there =
      there-Progress p ws w ns n there (info_of ws).ready refl

  after_client-Progress :
      (p : ProjectResource) (w : W)
      → p.namespace ≡ namespace
      → p.name ≡ name
      → Progress workspace remaining project w (after_client kcp cluster p config none w)
  unfolding after_client
  after_client-Progress p w ns n =
      subst
        (λ m. Progress workspace remaining project w (
          after_workspace kcp cluster p config (to_lower m)
            (get_workspace kcp config (to_lower m) w).0
            (get_workspace kcp config (to_lower m) w).1))
        (sym n)
        (subst
          (λ got.
            Progress workspace remaining project w
              (after_workspace kcp cluster p config (to_lower name) got.0 got.1))
          (sym (workspace_found setting co w))
          (after_workspace-Progress p (workspace w) w ns n refl))

  -- One reconciliation.
  pub reconcile-Progress :
      (w : W) → Progress workspace remaining project w (reconcile kcp cluster r namespace name w)
  unfolding reconcile after_project after_config
  reconcile-Progress w =
      let p = project w in
      rw
        (co.reads namespace name w refl refl, config_loads setting co w, client_connects setting co)
        (after_client-Progress p w (co.names w).0 (co.names w).1)
