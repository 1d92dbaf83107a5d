-- ===== src/Workspaces/Project/Ready.antt =====
-- Runs of Reconcile of project_controller.go, repeated for as long as it asks to be, in which no call
-- fails.
use maintainer_d.Base.{ℕ, zero, suc, ◌+◌, Text, Option, none, some, if◌then◌else◌}
use maintainer_d.Workspaces.{Workspace, KcpServer, Cluster}
use maintainer_d.Workspaces.Project.{ProjectReconciler, reconcile}
use maintainer_d.Workspaces.Project.Progress.{is_done, Progress}

module _ {W : Type 0} (kcp : KcpServer W) (cluster : Cluster W) (r : ProjectReconciler)
    (namespace name : Text) (tick : W → W) where
  -- Runs until one asks for no other, with the state after it; `none` if the fuel does not last.
  unfoldable pub run_until_done : ℕ → W → Option W
  run_until_done zero w = none
  run_until_done (suc fuel) w =
      let (end, w') = reconcile kcp cluster r namespace name w in
      let rest = run_until_done fuel (tick w') in if is_done end then some w' else rest

-- The time until the workspace is ready, with the run that creates it.
abbrev left : Option Workspace → ℕ → ℕ
left none n = n + 1
left (some ws) n = n
