-- ===== src/Workspaces/Project/Waits.antt =====
-- WaitForWorkspaceReady of kdp-workspaces/internal/kcp/workspace.go, in a run in which no call fails.
use maintainer_d.Base.{
  Text, ◌==◌, to_lower, true, false, ◌≡◌, refl, sym, ◌∙◌, subst, inl, Option, none, some, [], ◌∷◌,
  arith,
}
use maintainer_d.Scanner.Kube.{Found, found, not_found, failed}
use maintainer_d.Workspaces.{Config, WorkspaceInfo, Workspace}
use maintainer_d.Workspaces.Kcp.{
  info_found, get_workspace, poll_answer, poll_once, after_poll, wait_for_workspace_ready,
  load_config_from_cluster, after_config_map, after_secret, new_client, phase_ready,
}
use maintainer_d.Workspaces.Project.Laws.{Setting, Cooperates, Elapsed, found_or, the_config}

pub to_lower-filled : (s : Text) → (s == []) ≡ false → (to_lower s == []) ≡ false
unfolding to_lower ◌==◌
to_lower-filled [] h = cc
to_lower-filled (c ∷ s) h = refl

-- `ready` is read off the phase.
abbrev IsHonest : Found WorkspaceInfo → Type 0
IsHonest (found info) = info.ready ≡ (info.phase == phase_ready)
IsHonest _ = Unit

info_found-IsHonest : (n : Text) (o : Option Workspace) → IsHonest (info_found n (found_or o))
unfolding info_found
info_found-IsHonest n none = tt
info_found-IsHonest n (some ws) = refl

module _ {W : Type 0} (setting : Setting W) (co : Cooperates setting) where
  open setting use {
    kcp, cluster, r, namespace, name, config_map, secret, kubeconfig, host, project, workspace,
    remaining, tick,
  }

  abbrev config : Config
  config = the_config config_map kubeconfig

  pub config_loads :
      (w : W)
      → load_config_from_cluster cluster r.kcp_config_map_name r.kcp_secret_name
          r.kcp_config_map_namespace w
        ≡ (inl config, w)
  unfolding load_config_from_cluster after_config_map after_secret
  config_loads w =
      rw (co.config_map_there w, co.secret_there w, after_secret) (rw co.has_kubeconfig)

  pub client_connects : new_client kcp config ≡ none
  unfolding new_client
  client_connects = ground (arith, co.parses, co.connects)

  pub workspace_found :
      (w : W)
      → get_workspace kcp config (to_lower name) w
        ≡ (info_found (to_lower name) (found_or (workspace w)), w)
  unfolding get_workspace
  workspace_found w = rw (to_lower-filled name co.is_named, co.looks_up w)

  poll_answer-still :
      (n : Text) (last : Option WorkspaceInfo) (a : Found WorkspaceInfo) (w : W)
      → (poll_answer n last a w).2 ≡ w
  unfolding poll_answer
  poll_answer-still n last (found info) w = refl
  poll_answer-still n last not_found w = refl
  poll_answer-still n last (failed e) w = refl

  poll_answer-ready :
      (n : Text) (last : Option WorkspaceInfo) (a : Found WorkspaceInfo) (w : W)
      → IsHonest a
      → (poll_answer n last a w).0 ≡ inl true
      → (info : WorkspaceInfo) × ((poll_answer n last a w).1 ≡ some info)
        × (info.ready ≡ true)
        × ((info.phase == phase_ready) ≡ true)
  unfolding poll_answer
  poll_answer-ready n last (found info) w honest h =
      (info, refl, ground arith, ground (arith, honest))
  poll_answer-ready n last not_found w honest h = cc
  poll_answer-ready n last (failed e) w honest h = cc

  poll_once-still :
      (last : Option WorkspaceInfo) (w : W) → (poll_once kcp config (to_lower name) last w).2 ≡ w
  unfolding poll_once
  poll_once-still last w = rw (workspace_found w) (
      poll_answer-still (to_lower name) last (info_found (to_lower name) (found_or (workspace w)))
        w)

  poll_once-ready :
      (last : Option WorkspaceInfo) (w : W)
      → (poll_once kcp config (to_lower name) last w).0 ≡ inl true
      → (info : WorkspaceInfo) × ((poll_once kcp config (to_lower name) last w).1 ≡ some info)
        × (info.ready ≡ true)
        × ((info.phase == phase_ready) ≡ true)
  unfolding poll_once
  poll_once-ready last w h =
      let n = to_lower name in
      let got = get_workspace kcp config n w in
      poll_answer-ready n last got.0 got.1
        (subst (λ a. IsHonest a.0) (sym (workspace_found w)) (info_found-IsHonest n (workspace w)))
        h

  -- The waiting ended with an error, or with a workspace that is ready.
  abbrev pub Waited : Option WorkspaceInfo → Option Text → Type 0
  Waited last (some e) = Unit
  Waited none none = ⊥
  Waited (some info) none = (info.ready ≡ true) × ((info.phase == phase_ready) ≡ true)

  after_poll-Waited :
      (n : Text) (error : Option Text) (last : Option WorkspaceInfo) (w : W)
      → (error ≡ none
          → (info : WorkspaceInfo) × (last ≡ some info)
            × (info.ready ≡ true)
            × ((info.phase == phase_ready) ≡ true))
      → Waited (after_poll n error last w).0 (after_poll n error last w).1
        × ((after_poll n error last w).2 ≡ w)
  unfolding after_poll
  after_poll-Waited n (some e) (some info) w h = (tt, refl)
  after_poll-Waited n (some e) none w h = (tt, refl)
  after_poll-Waited n none none w h = let (info, e, _, _) = h refl in cc
  after_poll-Waited n none (some last) w h =
      let (info, e, ready, phase) = h refl in ((ground arith, ground arith), refl)

  last-ready :
      (w : W)
      → (kcp.poll (poll_once kcp config (to_lower name)) none w).0 ≡ none
      → (info : WorkspaceInfo) × ((kcp.poll (poll_once kcp config (to_lower name)) none w).1
          ≡ some info)
        × (info.ready ≡ true)
        × ((info.phase == phase_ready) ≡ true)
  last-ready w done =
      let (before, at, stops, last) =
        co.polls_until (poll_once kcp config (to_lower name)) none w done in
      let (info, shown, ready, phase) = poll_once-ready before at stops in
      (info, last ∙ shown, ready, phase)

  pub wait-Waited :
      (w : W)
      → let end = wait_for_workspace_ready kcp config (to_lower name) w in
        Waited end.0 end.1 × Elapsed workspace remaining w end.2
  unfolding wait_for_workspace_ready
  wait-Waited w =
      let once = poll_once kcp config (to_lower name) in
      let end = kcp.poll once none w in
      let waited =
        after_poll-Waited (to_lower name) end.0 end.1 end.2 (λ done. last-ready w done) in
      rw (to_lower-filled name co.is_named) (
        waited.0,
        subst (Elapsed workspace remaining w) (sym waited.1) (co.polls once none w poll_once-still),
      )
