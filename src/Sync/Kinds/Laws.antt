-- ===== src/Sync/Kinds/Laws.antt =====
-- What `syncProjects` leaves in the cluster.
use maintainer_d.Base.{Text, text, ◌==◌, ◌≡◌, false, none, some, List, [], ◌∷◌, All, map}
use maintainer_d.Model.{Project}
use maintainer_d.Sync.Rows.{Objects}
use maintainer_d.Sync.Rows.Converges.{
  IsLawful, HasDistinctNames, Holds, look_up_rows, sync_rows-converges,
}
use maintainer_d.Sync.Specs.{ProjectSpec, project_spec_equal}
use maintainer_d.Sync.Specs.Laws.{
  IsDistinctNames, Agrees, project_spec_equal_refl, project_spec_equal-Agrees,
}
use maintainer_d.Sync.Kinds.{project_row, sync_projects}

-- The rows that `sync_projects` writes.
abbrev pub rows_of : List Project → List (Text × ProjectSpec)
rows_of projects = map (project_row projects) projects

module _ {W : Type 0} (c : Objects W ProjectSpec) (kind : Text) (law : IsLawful c) where
  -- The cluster holds, under the row's name, a specification that agrees with the row's.
  abbrev pub IsSynced : W → Text × ProjectSpec → Type 0
  IsSynced w (name, spec) = (s : ProjectSpec) × (law.held w name ≡ some s) × Agrees s spec

  Holds-IsSynced :
      (rows : List (Text × ProjectSpec)) (w : W)
      → All (λ (r : Text × ProjectSpec). IsDistinctNames r.1.maintainer_refs) rows
      → All (Holds c kind project_spec_equal project_spec_equal_refl law w) rows
      → All (IsSynced w) rows
  Holds-IsSynced [] w distinct h = tt
  Holds-IsSynced ((name, spec) ∷ rows) w (one, distinct) ((s, held, equals), h) =
      ((s, held, project_spec_equal-Agrees s spec one equals), Holds-IsSynced rows w distinct h)

-- If `sync_projects` succeeds on a lawful cluster, for projects whose sanitized names are distinct
-- and that name no maintainer twice: the cluster holds, for each project, a specification with its
-- texts, references and set of maintainers, and what is under another name is as before; a second
-- run does nothing but look the projects up.
pub sync_projects-converges :
    {W : Type 0} (c : Objects W ProjectSpec) (law : IsLawful c) (projects : List Project) (w : W)
    → HasDistinctNames (rows_of projects)
    → All (λ (r : Text × ProjectSpec). IsDistinctNames r.1.maintainer_refs) (rows_of projects)
    → (sync_projects c projects w).0 ≡ none
    → All (IsSynced c (text "project") law (sync_projects c projects w).1) (rows_of projects)
      × ((k : Text)
          → All (λ (r : Text × ProjectSpec). (r.0 == k) ≡ false) (rows_of projects)
          → law.held (sync_projects c projects w).1 k ≡ law.held w k)
      × (sync_projects c projects (sync_projects c projects w).1
          ≡ look_up_rows c
              (text "project")
              project_spec_equal
              (rows_of projects)
              (sync_projects c projects w).1)
unfolding sync_projects
sync_projects-converges c law projects w names refs h =
    let (held, others, again) =
      sync_rows-converges c (text "project") project_spec_equal project_spec_equal_refl law
        (rows_of projects) w names h in
    (Holds-IsSynced c (text "project") law (rows_of projects) _ refs held, others, again)
