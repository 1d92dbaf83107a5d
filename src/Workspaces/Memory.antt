-- ===== src/Workspaces/Memory.antt =====
-- A cluster with one project, and a kcp server, in memory, that obey the laws of this component: those
-- of the examples. They model no code of the program.
pub mod Laws
use maintainer_d.Base.{
  ℕ, zero, suc, ◌-◌, ◌≤◌, Text, text, ◌==◌, eq_refl, Bool, true, false, Bool-cases, eqb, not, ◌&&◌,
  ◌≡◌, refl, sym, ◌∙◌, ap, inl, inr, ◌⊎◌, Option, none, some, List, [], ◌∷◌, ◌++◌, arith,
  if◌then◌else◌,
}
use maintainer_d.Base.Dict
use maintainer_d.Base.Dict.{Dict}
use maintainer_d.Scanner.Kube.{Found, found, not_found}
use maintainer_d.Workspaces.{
  WorkspaceInfo, Workspace, Binding, StatusMap, ProjectResource, StaffResource, MetaCondition,
  KcpServer, Cluster,
}
use maintainer_d.Workspaces.Kcp.{phase_ready, operator_name}
use maintainer_d.Workspaces.Project.{ProjectReconciler}
use maintainer_d.Workspaces.Project.Laws.{
  condition_of, Says, Setting, Cooperates, Elapsed, found_or,
}
use maintainer_d.Workspaces.Staff.Access.{BindingLaws}
use maintainer_d.Workspaces.Staff.Synced.{ClusterLaws}

-- The workspace is `remaining` steps of time away from being ready, if it is there.
pub record Memory : Type 0 where
  pub annotations : Dict Text
  pub generation : ℕ
  pub status : Option StatusMap
  pub is_there : Bool
  pub remaining : ℕ
  pub bindings : List (Text × Binding)
  pub staff : List StaffResource

abbrev pub foo : Text
foo = text "Foo"

abbrev pub projects : Text
projects = text "maintainer-d"

abbrev pub project : Memory → ProjectResource
project w = record {
  name = foo;
  namespace = projects;
  generation = w.generation;
  annotations = w.annotations;
  status = w.status;
}

abbrev pub phase : ℕ → Text
phase n = if eqb n 0 then phase_ready else text "Initializing"

abbrev pub the_workspace : ℕ → Workspace
the_workspace n = record {
  name = text "foo";
  annotations = (text "managed-by", operator_name) ∷ [];
  type_name = text "kdp-organization";
  type_path = text "root";
  url = text "https://kcp/foo";
  phase = phase n;
}

abbrev pub workspace_if : Bool → ℕ → Option Workspace
workspace_if true n = some (the_workspace n)
workspace_if false n = none

-- The server takes only this one.
abbrev pub is_wanted : Workspace → Bool
is_wanted ws = ws.name == text "foo" && ws.type_path == text "root" && not (ws.type_name == [])

abbrev pub created : Workspace → Memory → Bool → (Workspace ⊎ Text) × Memory
created ws w true = (inl (the_workspace w.remaining), record w { is_there = true })
created ws w false = (inr (text "forbidden"), w)

abbrev pub workspace : Memory → Option Workspace
workspace w = workspace_if w.is_there w.remaining

abbrev pub remaining : Memory → ℕ
remaining w = w.remaining

abbrev pub tick : Memory → Memory
tick w = record w { remaining = w.remaining - 1 }

abbrev pub bindings : Memory → Text → Option Binding
bindings w host = Dict.get host w.bindings

abbrev pub found_or_not : {A : Type 0} → Option A → Found A
found_or_not none = not_found
found_or_not (some a) = found a

abbrev pub Asked : Type 0
Asked = Option WorkspaceInfo → Memory → (Bool ⊎ Text) × Option WorkspaceInfo × Memory

-- Asks again until the answer is yes, an error, or out of time.
abbrev pub poll_on :
    (Option WorkspaceInfo → Memory → Option Text × Option WorkspaceInfo × Memory)
    → (Bool ⊎ Text) × Option WorkspaceInfo × Memory
    → Option Text × Option WorkspaceInfo × Memory
poll_on again (inl true, last, w) = (none, last, w)
poll_on again (inl false, last, w) = again last (tick w)
poll_on again (inr e, last, w) = (some e, last, w)

unfoldable pub poll_for :
    ℕ → Asked → Option WorkspaceInfo → Memory → Option Text × Option WorkspaceInfo × Memory
poll_for zero f last w = (some (text "context deadline exceeded"), last, w)
poll_for (suc n) f last w = poll_on (poll_for n f) (f last w)

-- meta.SetStatusCondition, but for the times.
unfoldable pub set_in : MetaCondition → List MetaCondition → List MetaCondition
set_in c [] = c ∷ []
set_in c (d ∷ cs) =
    let rest = set_in c cs in
    if d.type == c.type
    then record c { last_transition_time = d.last_transition_time } ∷ cs
    else d ∷ rest

unfoldable pub kcp : KcpServer Memory
unfolding poll_for
kcp = record {
  rest_config = λ s. inl (text "https://kcp");
  cluster_client = λ host. none;
  kubernetes_client = λ host. none;
  new_path = λ p. p;
  join = λ p n. p ++ text ":" ++ n;
  create_workspace = λ path ws w. created ws w (is_wanted ws);
  get_workspace = λ path name w. (found_or_not (workspace w), w);
  delete_workspace = λ path name w. (found [], record w { is_there = false });
  list_workspaces = λ path w. (inl (elim (workspace w) [ none ↦ [] | some ws ↦ ws ∷ [] ]), w);
  poll = poll_for 3;
  get_binding = λ host name w. (found_or_not (bindings w host), w);
  create_binding = λ host b w. (none, record w { bindings = (host, b) ∷ w.bindings });
  update_binding = λ host b w. (none, record w { bindings = (host, b) ∷ w.bindings });
}

abbrev pub config_map : Dict Text
config_map = (text "kcp-workspace-path", text "root") ∷ []

abbrev pub secret : Dict Text
secret = (text "kubeconfig", text "kubeconfig") ∷ []

abbrev pub store : ProjectResource → Memory → Memory
store p w = record w { annotations = p.annotations; generation = p.generation; status = p.status }

unfoldable pub cluster : Cluster Memory
unfolding set_in
cluster = record {
  get_config_map = λ namespace name w. (found config_map, w);
  get_secret = λ namespace name w. (found secret, w);
  get_project = λ namespace name w. (found (project w), w);
  patch_project = λ old new w. (inl new, store new w);
  patch_status = λ old new w. (none, store new w);
  list_staff = λ namespace w. (inl w.staff, w);
  get_staff = λ namespace name w. (not_found, w);
  patch_staff = λ old new w. (none, w);
  set_status = λ s p. inl (record p { status = some s });
  set_status_condition = set_in;
  now = λ w. 0;
  format = λ t. text "now";
  join_errors = λ es. text "failed";
}
