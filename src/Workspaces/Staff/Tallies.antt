-- ===== src/Workspaces/Staff/Tallies.antt =====
-- The loop of Reconcile in staffmember_controller.go over the managed workspaces.
use maintainer_d.Base.{
  suc, ◌+◌, Text, ◌==◌, eq_refl, Bool, true, ◌||◌, ◌≡◌, ◌⊎◌, refl, inl, inr, Option, none, some,
  List, [], ◌∷◌, ◌++◌, length, length-append, any, All, arith,
}
use maintainer_d.Workspaces.{Config, WorkspaceInfo, Subject, Binding, KcpServer, Cluster}
use maintainer_d.Workspaces.Rbac.{
  BindOutcome, bound, refused, panicked, create_or_update_staff_binding,
}
use maintainer_d.Workspaces.Staff.{Tally, tell_failure, after_bound, bind_all}
use maintainer_d.Workspaces.Staff.Access.{
  BindingLaws, KeepsGrants, HasAccess, Binds, staff_binding-Binds,
}

abbrev pub listed : Text → List Text → Bool
listed name names = any (λ (n : Text). n == name) names

listed-append :
    (name : Text) (names more : List Text)
    → listed name (names ++ more) ≡ (listed name names || listed name more)
listed-append name [] more = refl
listed-append name (n ∷ names) more = ground (arith, listed-append name names more)

module _ {W : Type 0} (kcp : KcpServer W) (bindings : W → Text → Option Binding) (config : Config)
    (subjects : List Subject) where
  -- The workspace has its binding, or is told as failed.
  abbrev pub IsAnswered : W → Tally → WorkspaceInfo → Type 0
  IsAnswered w t ws =
      HasAccess kcp bindings config subjects w ws ⊎ (listed ws.name t.failed_workspaces ≡ true)

  -- How the tally and the bindings end, from a tally and a state, after the workspaces.
  abbrev pub Tallied : List WorkspaceInfo → Tally → W → Option Tally → W → Type 0
  Tallied wss t before none after = Unit
  Tallied wss t before (some t') after =
      KeepsGrants kcp bindings subjects before after
      × All (IsAnswered after t') wss
      × ((name : Text)
          → listed name t.failed_workspaces ≡ true
          → listed name t'.failed_workspaces ≡ true)
      × (t'.success_count + length t'.workspace_errors
          ≡ t.success_count + length t.workspace_errors + length wss)
      × (length t.failed_workspaces ≡ length t.workspace_errors
          → length t'.failed_workspaces ≡ length t'.workspace_errors)

  access_kept :
      (ws : WorkspaceInfo) (before after : W)
      → KeepsGrants kcp bindings subjects before after
      → HasAccess kcp bindings config subjects before ws
      → HasAccess kcp bindings config subjects after ws
  access_kept ws before after keeps (base, e, at) = (base, e, keeps _ at)

  -- One workspace and then the others.
  Tallied-bound :
      (ws : WorkspaceInfo) (wss : List WorkspaceInfo) (t : Tally) (w w1 : W) (end : Option Tally)
      (w2 : W)
      → Binds kcp bindings config subjects ws bound w w1
      → Tallied wss (record t { success_count = suc t.success_count }) w1 end w2
      → Tallied (ws ∷ wss) t w end w2
  Tallied-bound ws wss t w w1 none w2 binds rest = tt
  Tallied-bound ws wss t w w1 (some t') w2 (keeps, at) (keeps', answered, grows, sum, even) = (
    (λ h g. keeps' h (keeps h g)),
    (inl (access_kept ws w1 w2 keeps' at), answered),
    grows,
    omega (arith, sum),
    even,
  )

  Tallied-refused :
      (ws : WorkspaceInfo) (wss : List WorkspaceInfo) (e : Text) (t : Tally) (w w1 : W)
      (end : Option Tally) (w2 : W)
      → Binds kcp bindings config subjects ws (refused e) w w1
      → Tallied wss (tell_failure ws.name e t) w1 end w2
      → Tallied (ws ∷ wss) t w end w2
  unfolding tell_failure
  Tallied-refused ws wss e t w w1 none w2 binds rest = tt
  Tallied-refused ws wss e t w w1 (some t') w2 keeps (keeps', answered, grows, sum, even) = (
    (λ h g. keeps' h (keeps h g)),
    (
      inr (
          grows ws.name (
            ground
              (arith, listed-append ws.name t.failed_workspaces (ws.name ∷ []), eq_refl ws.name))),
      answered,
    ),
    (λ name was.
        grows name (ground (arith, was, listed-append name t.failed_workspaces (ws.name ∷ [])))),
    omega (arith, sum, length-append {0}),
    (λ same. even (omega (arith, same, length-append {0}))),
  )

  module _ (cluster : Cluster W) (laws : BindingLaws kcp bindings) (namespace : Text) where
    after_bound-Tallies :
        (ws : WorkspaceInfo) (wss : List WorkspaceInfo) (t : Tally) (outcome : BindOutcome)
        (w w1 : W)
        → ((t : Tally) (w : W)
            → let end = bind_all kcp cluster config subjects namespace wss t w in
              Tallied wss t w end.0 end.1)
        → Binds kcp bindings config subjects ws outcome w w1
        → let end =
            after_bound (bind_all kcp cluster config subjects namespace wss) ws.name t outcome w1 in
          Tallied (ws ∷ wss) t w end.0 end.1
    unfolding after_bound
    after_bound-Tallies ws wss t bound w w1 rest binds =
        Tallied-bound ws wss t w w1 _ _ binds
          (rest (record t { success_count = suc t.success_count }) w1)
    after_bound-Tallies ws wss t (refused e) w w1 rest binds =
        Tallied-refused ws wss e t w w1 _ _ binds (rest (tell_failure ws.name e t) w1)
    after_bound-Tallies ws wss t panicked w w1 rest binds = tt

    pub bind_all-Tallies :
        (wss : List WorkspaceInfo) (t : Tally) (w : W)
        → let end = bind_all kcp cluster config subjects namespace wss t w in
          Tallied wss t w end.0 end.1
    unfolding bind_all
    bind_all-Tallies [] t w = ((λ h g. g), tt, (λ name was. was), omega arith, (λ same. same))
    bind_all-Tallies (ws ∷ wss) t w =
        let step = create_or_update_staff_binding kcp cluster config ws.name subjects namespace w in
        after_bound-Tallies ws wss t step.0 w step.1 (bind_all-Tallies wss)
          (staff_binding-Binds kcp bindings cluster laws config ws subjects namespace w)
