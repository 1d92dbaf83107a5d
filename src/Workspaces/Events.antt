-- ===== src/Workspaces/Events.antt =====
-- The event filter and the mapping of projects in SetupWithManager of
-- kdp-workspaces/internal/controller/staffmember_controller.go.
pub mod Maps
pub mod Filter
use maintainer_d.Base.{
  ℕ, Text, text, ◌==◌, eqb, Bool, true, false, ◌&&◌, ◌||◌, not, Option, none, some, List, [], ◌∷◌,
  length, text_or, if◌then◌else◌,
}
use maintainer_d.Base.Dict
use maintainer_d.Base.Dict.{Dict}
use maintainer_d.Workspaces.Kcp.{phase_ready, value_or_empty}
use maintainer_d.Workspaces.Conditions.{annotation_workspace_phase}
use maintainer_d.Workspaces.Staff.{
  annotation_staff_last_synced, annotation_staff_sync_status, annotation_staff_workspace_count,
  workspace_trigger,
}

-- What the filter reads of an object: its generation, where it has partial metadata.
pub record Meta : Type 0 where
  pub annotations : Dict Text
  pub generation : Option ℕ

unfoldable pub is_sync_annotation : Text → Bool
unfolding ◌==◌
is_sync_annotation k =
    k == annotation_staff_last_synced
    || k == annotation_staff_sync_status
    || k == annotation_staff_workspace_count

-- The copy of the annotations without those of the operator.
unfoldable pub filtered : Dict Text → Dict Text
unfolding is_sync_annotation
filtered [] = []
filtered ((k, v) ∷ m) =
    let rest = filtered m in if is_sync_annotation k then rest else (k, v) ∷ rest

-- Whether some key of the first map has another value in the second, where a missing one is empty.
unfoldable pub some_differ : Dict Text → Dict Text → Bool
unfolding ◌==◌ Dict.get
some_differ [] new = false
some_differ ((k, v) ∷ m) new = not (value_or_empty k new == v) || some_differ m new

abbrev pub generation_changed : Option ℕ → Option ℕ → Bool
generation_changed (some old) (some new) = not (eqb old new)
generation_changed _ _ = false

-- `ignoreSyncAnnotations`: whether an update is passed on.
unfoldable pub passes_update : Meta → Meta → Bool
unfolding filtered some_differ
passes_update old new =
    not (eqb (length (filtered old.annotations)) (length (filtered new.annotations)))
    || some_differ (filtered old.annotations) (filtered new.annotations)
    || generation_changed old.generation new.generation

-- `projectToRequests`: the names of the requests, all in the configured namespace.
unfoldable pub project_to_requests : Dict Text → List Text
unfolding ◌==◌ Dict.get
project_to_requests annotations =
    if value_or_empty annotation_workspace_phase annotations == phase_ready
    then workspace_trigger ∷ []
    else []
