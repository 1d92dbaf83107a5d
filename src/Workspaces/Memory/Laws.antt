-- ===== src/Workspaces/Memory/Laws.antt =====
-- The laws of this component, for the servers in memory.
use maintainer_d.Base.{
  ℕ, zero, suc, ◌-◌, ◌≤◌, Text, text, ◌==◌, eq_refl, to_lower, Bool, true, false, Bool-cases, eqb,
  ◌≡◌, refl, sym, ◌∙◌, ap, inl, inr, ◌⊎◌, Option, none, some, List, [], ◌∷◌, arith,
}
use maintainer_d.Base.Dict
use maintainer_d.Base.Dict.{Dict}
use maintainer_d.Scanner.Kube.{Found}
use maintainer_d.Workspaces.{WorkspaceInfo, Workspace, ProjectResource, MetaCondition}
use maintainer_d.Workspaces.Kcp.{phase_ready}
use maintainer_d.Workspaces.Project.{ProjectReconciler}
use maintainer_d.Workspaces.Project.Laws.{
  condition_of, Says, Setting, Cooperates, Elapsed, found_or,
}
use maintainer_d.Workspaces.Staff.Access.{BindingLaws}
use maintainer_d.Workspaces.Staff.Synced.{ClusterLaws}
use maintainer_d.Workspaces.Memory.{
  Memory, foo, projects, project, the_workspace, workspace_if, workspace, remaining, tick, bindings,
  found_or_not, is_wanted, Asked, poll_on, poll_for, set_in, kcp, config_map, secret, cluster,
}

pub kcp-BindingLaws : BindingLaws kcp bindings
unfolding kcp ◌==◌ Dict.get
kcp-BindingLaws = record {
  reads = λ host name w h. refl;
  creates = λ host b w h. refl;
  updates = λ host b w h. refl;
}

pub cluster-ClusterLaws : ClusterLaws kcp cluster bindings
unfolding cluster
cluster-ClusterLaws = record { reads = λ namespace name w h. refl; patches = λ old new w h. refl }

set_in-Says :
    (c : MetaCondition) (cs : List MetaCondition) → Says c (condition_of c.type (set_in c cs))
unfolding set_in
set_in-Says c [] = rw (eq_refl c.type) (refl, refl, refl)
set_in-Says c (d ∷ cs) = elim (Bool-cases (d.type == c.type)) [
  | inl same ↦ rw same (rw (eq_refl c.type) (refl, refl, refl))
  | inr other ↦ rw other (rw other (set_in-Says c cs))
]

abbrev pub reconciler : ProjectReconciler
reconciler = record {
  kcp_config_map_name = text "kcp";
  kcp_config_map_namespace = text "kdp";
  kcp_secret_name = text "kcp";
  kcp_secret_namespace = text "kdp";
}

-- The workspace stays, and time only brings it closer.
abbrev Closer : Memory → Memory → Type 0
Closer w w' = (w'.is_there ≡ w.is_there) × (w'.remaining ≤ w.remaining)

has_if :
    (b : Bool) (n m : ℕ)
    → (ws : Workspace) × (workspace_if b n ≡ some ws)
    → (ws : Workspace) × (workspace_if b m ≡ some ws)
has_if true n m has = (the_workspace m, refl)
has_if false n m (ws, e) = cc

Closer-Elapsed : (w w' : Memory) → Closer w w' → Elapsed workspace remaining w w'
Closer-Elapsed w w' (same, le) =
    ((λ has. rw same (has_if w.is_there w.remaining w'.remaining has)), le)

abbrev Still : Asked → Type 0
Still f = (last : Option WorkspaceInfo) (w : Memory) → (f last w).2 ≡ w

abbrev Answer : Type 0
Answer = (Bool ⊎ Text) × Option WorkspaceInfo × Memory

abbrev Again : Type 0
Again = Option WorkspaceInfo → Memory → Option Text × Option WorkspaceInfo × Memory

poll_on-Closer :
    (again : Again) (a : Answer) (w : Memory)
    → a.2 ≡ w
    → ((last : Option WorkspaceInfo) (v : Memory) → Closer v (again last v).2)
    → Closer w (poll_on again a).2
poll_on-Closer again (inl true, last, v) w same rest = rw same (refl, omega arith)
poll_on-Closer again (inl false, last, v) w same rest =
    let (there, closer) = rest last (tick v) in
    (there ∙ ap (λ (m : Memory). m.is_there) same, omega (arith, closer, ap remaining same))
poll_on-Closer again (inr e, last, v) w same rest = rw same (refl, omega arith)

poll_for-Closer :
    (n : ℕ) (f : Asked)
    → Still f
    → (last : Option WorkspaceInfo) (w : Memory) → Closer w (poll_for n f last w).2
unfolding poll_for
poll_for-Closer zero f still last w = (refl, omega arith)
poll_for-Closer (suc n) f still last w =
    poll_on-Closer (poll_for n f) (f last w) w (still last w) (poll_for-Closer n f still)

-- The answer that ended the polling was yes.
abbrev Until : Asked → Option Text × Option WorkspaceInfo × Memory → Type 0
Until f (error, shown, w) =
    error ≡ none
    → (before : Option WorkspaceInfo) × (at : Memory) × ((f before at).0 ≡ inl true)
      × (shown ≡ (f before at).1)

poll_on-Until :
    (f : Asked) (again : Again) (before : Option WorkspaceInfo) (at : Memory) (a : Answer)
    → f before at ≡ a
    → ((last : Option WorkspaceInfo) (v : Memory) → Until f (again last v))
    → Until f (poll_on again a)
poll_on-Until f again before at (inl true, last, v) e rest =
    λ done. (before, at, ap (λ (x : Answer). x.0) e, sym (ap (λ (x : Answer). x.1) e))
poll_on-Until f again before at (inl false, last, v) e rest = rest last (tick v)
poll_on-Until f again before at (inr r, last, v) e rest = λ done. cc

poll_for-Until :
    (n : ℕ) (f : Asked) (last : Option WorkspaceInfo) (w : Memory) → Until f (poll_for n f last w)
unfolding poll_for
poll_for-Until zero f last w = λ done. cc
poll_for-Until (suc n) f last w =
    poll_on-Until f (poll_for n f) last w (f last w) refl (poll_for-Until n f)

stored-eq :
    (new : ProjectResource)
    → new.namespace ≡ projects
    → new.name ≡ foo
    → record new { namespace = projects; name = foo } ≡ new
stored-eq new ns n = ground (arith, ns, n)

looks :
    (b : Bool) (n : ℕ) (w : Memory)
    → ◌≡◌ {A = Found Workspace × Memory}
        (found_or_not (workspace_if b n), w)
        (found_or (workspace_if b n), w)
looks true n w = refl
looks false n w = refl

phase_iff :
    (b : Bool) (n : ℕ) (ws : Workspace)
    → workspace_if b n ≡ some ws
    → (ws.phase == phase_ready) ≡ eqb n 0
unfolding ◌==◌
phase_iff true zero ws e = ground (arith, e)
phase_iff true (suc n) ws e = ground (arith, e)
phase_iff false n ws e = cc

wanted :
    (ws : Workspace)
    → ws.name ≡ to_lower foo
    → ws.type_path ≡ text "root"
    → (ws.type_name == []) ≡ false
    → is_wanted ws ≡ true
unfolding ◌==◌ to_lower
wanted ws name path type = rw (name, path, type) refl

abbrev pub setting : Setting Memory
setting = record {
  kcp = kcp;
  cluster = cluster;
  r = reconciler;
  namespace = projects;
  name = foo;
  config_map = config_map;
  secret = secret;
  kubeconfig = text "kubeconfig";
  host = text "https://kcp";
  project = project;
  workspace = workspace;
  remaining = remaining;
  tick = tick;
}

pub cooperates : Cooperates setting
unfolding kcp cluster ◌==◌ Dict.get
cooperates = record {
  config_map_there = λ w. refl;
  secret_there = λ w. refl;
  has_kubeconfig = refl;
  parses = refl;
  connects = refl;
  is_named = refl;
  names = λ w. (refl, refl);
  reads = λ ns n w e e'. refl;
  patches = λ new w ns n. (refl, stored-eq new ns n, (refl, refl));
  patches_status = λ new w ns n. (refl, stored-eq new ns n, (refl, refl));
  sets_status = λ s p. refl;
  sets_condition = λ c cs. set_in-Says c cs;
  looks_up = λ w. looks w.is_there w.remaining w;
  creates = λ ws w name path type absent.
      rw (wanted ws name path type)
        (the_workspace w.remaining, refl, (the_workspace w.remaining, refl), omega arith);
  polls =
      λ f last w still. Closer-Elapsed w (poll_for 3 f last w).2 (poll_for-Closer 3 f still last w);
  polls_until = λ f last w done. poll_for-Until 3 f last w done;
  is_ready = λ ws w there. phase_iff w.is_there w.remaining ws there;
  passes = λ w has. (has_if w.is_there w.remaining (w.remaining - 1) has, omega arith);
}
