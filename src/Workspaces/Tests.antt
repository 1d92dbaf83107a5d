-- ===== src/Workspaces/Tests.antt =====
-- Runs of the controllers on the servers in memory.
use maintainer_d.Base.{List, map, text, ◌==◌, ◌≡◌, ◌↔◌, refl, true, false, none, some, [], ◌∷◌}
use maintainer_d.Base.Dict
use maintainer_d.Base.Decimal.{itoa}
use maintainer_d.Workspaces.{MetaCondition, StaffResource}
use maintainer_d.Workspaces.Conditions.{open_condition, read_list, write_condition}
use maintainer_d.Workspaces.Project.Writes.{forget_times, read_list-write}
use maintainer_d.Workspaces.Staff.{StaffMemberReconciler, ended, reconcile_staff, with_sync}
use maintainer_d.Workspaces.Staff.Synced.{IsSynced, reconcile_staff-Syncs}
use maintainer_d.Workspaces.Events.{Meta, passes_update}
use maintainer_d.Workspaces.Events.Filter.{
  SameGeneration, SameAnnotations, passes_update_iff, with_sync-IsIgnored,
}
use maintainer_d.Workspaces.Project.{reconcile}
use maintainer_d.Workspaces.Project.Ready.{run_until_done}
use maintainer_d.Workspaces.Memory.{Memory, foo, projects, tick, bindings, kcp, cluster}
use maintainer_d.Workspaces.Memory.Laws.{reconciler, kcp-BindingLaws, cluster-ClusterLaws}

abbrev at_start : Memory
at_start = record {
  annotations = [];
  generation = 1;
  status = none;
  is_there = false;
  remaining = 5;
  bindings = [];
  staff = [];
}

abbrev ann : StaffResource
ann = record { name = text "ann"; annotations = []; spec = some (some (text "ann@cncf.io")) }

abbrev at_end : Memory
at_end = record at_start {
  is_there = true;
  remaining = 0;
  staff = ann ∷ record ann { spec = none } ∷ [];
}

abbrev staff_reconciler : StaffMemberReconciler
staff_reconciler = record {
  kcp_config_map_name = text "kcp";
  kcp_config_map_namespace = text "kdp";
  kcp_secret_name = text "kcp";
  kcp_secret_namespace = text "kdp";
  staff_member_namespace = projects;
}

first_run : (reconcile kcp cluster reconciler projects foo at_start).1.is_there ≡ true
unfolding reconcile kcp cluster ◌==◌ Dict.get
first_run = refl

runs_end :
    run_until_done kcp cluster reconciler projects foo tick 1 at_end
    ≡ some (reconcile kcp cluster reconciler projects foo at_end).1
unfolding run_until_done reconcile kcp cluster ◌==◌ Dict.get
runs_end = refl

staff_ends : (reconcile_staff kcp cluster staff_reconciler (text "ann") at_end).0 ≡ ended none
unfolding reconcile_staff kcp cluster ◌==◌ Dict.get itoa
staff_ends = refl

reconcile_staff-Syncs_example :
    IsSynced kcp cluster bindings staff_reconciler at_end
      (reconcile_staff kcp cluster staff_reconciler (text "ann") at_end).1
reconcile_staff-Syncs_example =
    reconcile_staff-Syncs kcp cluster bindings kcp-BindingLaws cluster-ClusterLaws staff_reconciler
      (text "ann") at_end staff_ends

abbrev old_object : Meta
old_object = record { annotations = (text "a", text "1") ∷ []; generation = some 1 }

abbrev new_object : Meta
new_object = record old_object { annotations = (text "a", text "2") ∷ [] }

passes_update_iff_example : (passes_update old_object new_object ≡ false) ↔ (
    SameGeneration (some 1) (some 1)
    × SameAnnotations ((text "a", text "1") ∷ []) ((text "a", text "2") ∷ []))
unfolding Dict.get ◌==◌
passes_update_iff_example = passes_update_iff old_object new_object (refl, tt) (refl, tt) (refl, tt)

-- An annotation with an empty value that is replaced by another annotation.
replaced_empty :
    passes_update
      (record { annotations = (text "a", []) ∷ []; generation = some 1 })
      (record { annotations = (text "b", text "x") ∷ []; generation = some 1 })
    ≡ false
unfolding passes_update
replaced_empty = refl

with_sync-IsIgnored_example :
    passes_update
      (record { annotations = ann.annotations; generation = some 1 })
      (record {
        annotations = (with_sync (text "now") (text "success") (text "1") ann).annotations;
        generation = some 1;
      })
    ≡ false
with_sync-IsIgnored_example =
    with_sync-IsIgnored ann (text "now") (text "success") (text "1") (some 1) tt

abbrev two_conditions : List MetaCondition
two_conditions =
    open_condition 3 100
    ∷ record (open_condition 1 50) { type = text "Synced"; status = text "True" }
    ∷ []

read_list-write_example :
    read_list (map (write_condition cluster) two_conditions) ≡ map forget_times two_conditions
read_list-write_example = read_list-write cluster two_conditions
