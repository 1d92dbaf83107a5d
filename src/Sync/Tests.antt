-- ===== src/Sync/Tests.antt =====
-- Runs of the copy into a small cluster that stores a map.
use maintainer_d.Base.{
  ℕ, Text, text, ◌==◌, ◌≡◌, ◌↔◌, refl, true, false, Option, none, some, List, [], ◌∷◌, All, arith,
}
use maintainer_d.Base.Dict.{Dict, get, put, get-put}
use maintainer_d.Model.{Maintainer, Project}
use maintainer_d.Sync.Names.{sanitize_name}
use maintainer_d.Sync.Names.Laws.{IsName, sanitize_name-IsName_iff}
use maintainer_d.Sync.Rows.{Objects, Got, got, absent}
use maintainer_d.Sync.Rows.Converges.{IsLawful, HasDistinctNames, look_up_rows}
use maintainer_d.Sync.Specs.{ProjectSpec, has, project_spec_equal}
use maintainer_d.Sync.Specs.Laws.{IsDistinctNames, Agrees, project_spec_equal-Agrees}
use maintainer_d.Sync.Kinds.{project_row, sync_projects}
use maintainer_d.Sync.Kinds.Laws.{rows_of, IsSynced, sync_projects-converges}

sanitizes : sanitize_name (text " Ann.Lee@X.org-") ≡ text "ann.lee-x.org"
unfolding sanitize_name ◌==◌
sanitizes = refl

-- Kubernetes takes neither result as the name of an object.
keeps_dots : sanitize_name (text "ann.@x.org") ≡ text "ann.-x.org"
unfolding sanitize_name ◌==◌
keeps_dots = refl

keeps_double_dots : sanitize_name (text "a..b") ≡ text "a..b"
unfolding sanitize_name ◌==◌
keeps_double_dots = refl

sanitize_name-IsName_iff_example :
    IsName (sanitize_name (text "a@b"))
    × (IsName (text "a@b") ↔ (sanitize_name (text "a@b") ≡ text "a@b"))
sanitize_name-IsName_iff_example = sanitize_name-IsName_iff (text "a@b")

abbrev answer : Option ProjectSpec → Got ProjectSpec
answer none = absent
answer (some s) = got s

abbrev objects : Objects (Dict ProjectSpec) ProjectSpec
objects = record {
  get = λ name w. (answer (get name w), w);
  create = λ name s w. (none, put name s w);
  update = λ name s w. (none, put name s w);
}

answer-absent : (o : Option ProjectSpec) → answer o ≡ absent → o ≡ none
answer-absent none h = refl
answer-absent (some s) h = ground (arith, h)

answer_got : (o : Option ProjectSpec) (s : ProjectSpec) → answer o ≡ got s → o ≡ some s
answer_got none s h = ground (arith, h)
answer_got (some t) s h = ground (arith, h)

lawful : IsLawful objects
lawful = record {
  held = λ w k. get k w;
  get_absent = λ name w h. answer-absent (get name w) h;
  get_got = λ name w s h. answer_got (get name w) s h;
  get_keeps = λ name w k. refl;
  create_holds = λ name s w h k. get-put name k s w;
  update_holds = λ name s w h k. get-put name k s w;
}

abbrev ann : Maintainer
ann = record {
  id = 1;
  name = text "Ann";
  email = text "ann@x.org";
  git_hub_account = text "ann";
  git_hub_email = [];
  maintainer_status = text "Active";
  registered_at = none;
  company_id = none;
  company = [];
}

abbrev project : ℕ → Text → Option ℕ → Project
project id name parent = record {
  id = id;
  name = name;
  parent_project_id = parent;
  maturity = text "Sandbox";
  legacy_maintainer_ref = [];
  onboarding_issue = none;
  mailing_list = none;
  maintainers = ann ∷ [];
}

abbrev projects : List Project
projects = project 1 (text "Foo") none ∷ project 2 (text "Bar") (some 1) ∷ []

names_distinct : HasDistinctNames (rows_of projects)
unfolding project_row sanitize_name ◌==◌
names_distinct = ((refl, tt), (tt, tt))

refs_distinct :
    All (λ (r : Text × ProjectSpec). IsDistinctNames r.1.maintainer_refs) (rows_of projects)
unfolding project_row has
refs_distinct = ((refl, tt), ((refl, tt), tt))

succeeds : (sync_projects objects projects []).0 ≡ none
unfolding sync_projects get put ◌==◌ sanitize_name
succeeds = refl

sync_projects-converges_example :
    All
      (IsSynced objects (text "project") lawful (sync_projects objects projects []).1)
      (rows_of projects)
    × ((k : Text)
        → All (λ (r : Text × ProjectSpec). (r.0 == k) ≡ false) (rows_of projects)
        → lawful.held (sync_projects objects projects []).1 k ≡ lawful.held [] k)
    × (sync_projects objects projects (sync_projects objects projects []).1
        ≡ look_up_rows objects
            (text "project")
            project_spec_equal
            (rows_of projects)
            (sync_projects objects projects []).1)
sync_projects-converges_example =
    sync_projects-converges objects lawful projects [] names_distinct refs_distinct succeeds

abbrev spec_with : List Text → ProjectSpec
spec_with refs = record {
  display_name = text "Foo";
  maturity = text "Sandbox";
  parent_project_ref = none;
  maintainer_lead_ref = none;
  onboarding_issue = [];
  mailing_list = [];
  maintainer_refs = refs;
}

abbrev reordered : ProjectSpec
reordered = spec_with (text "bob" ∷ text "ann" ∷ [])

same_set : project_spec_equal reordered (spec_with (text "ann" ∷ text "bob" ∷ [])) ≡ true
unfolding project_spec_equal ◌==◌
same_set = refl

two_names : IsDistinctNames (text "ann" ∷ text "bob" ∷ [])
unfolding has ◌==◌
two_names = (refl, (refl, tt))

project_spec_equal-Agrees_example : Agrees reordered (spec_with (text "ann" ∷ text "bob" ∷ []))
project_spec_equal-Agrees_example =
    project_spec_equal-Agrees reordered (spec_with (text "ann" ∷ text "bob" ∷ [])) two_names
      same_set

-- With a maintainer named twice, a specification that has lost bob passes for equal.
stale_is_equal :
    project_spec_equal
      (spec_with (text "email-missing" ∷ text "bob" ∷ []))
      (spec_with (text "email-missing" ∷ text "email-missing" ∷ []))
    ≡ true
unfolding project_spec_equal ◌==◌
stale_is_equal = refl

-- Two memberships of one project whose names differ after the 63rd character share a name.
names_collide :
    sanitize_name (text "the-project-with-the-long-name-of-more-than-sixty-three-letters-ann@x.org")
    ≡ sanitize_name
        (text "the-project-with-the-long-name-of-more-than-sixty-three-letters-bob@x.org")
unfolding sanitize_name ◌==◌
names_collide = refl
