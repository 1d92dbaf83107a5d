-- ===== src/Onboarding/Tests.antt =====
-- Runs of the onboarding server against a small store and a small FOSSA.
use maintainer_d.Base.{ℕ, Text, text, ◌==◌, ◌≡◌, ◌↔◌, refl, false, none, List, [], ◌∷◌, ◌++◌}
use maintainer_d.Base.Dict.{Dict}
use maintainer_d.Model.{Maintainer, Project}
use maintainer_d.Fossa.{FossaClient, ok, err, ErrorKind, Error}
use maintainer_d.Fossa.Trace.{Call, Traced, traced}
use maintainer_d.Onboarding.Team.{
  Store, filter_eligible_maintainers, add_project_maintainers_to_fossa_team, added_as_admin,
}
use maintainer_d.Onboarding.Team.Calls.{AdmitsAll, beside, add_project_maintainers-AdmitsAll}
use maintainer_d.Onboarding.Label.{allowed, decide_label}
use maintainer_d.Onboarding.Label.Decision.{IsGranted, decide_label_iff}

abbrev person : ℕ → Text → Text → Maintainer
person id handle email = record {
  id = id;
  name = handle;
  email = email;
  git_hub_account = handle;
  git_hub_email = [];
  maintainer_status = text "Active";
  registered_at = none;
  company_id = none;
  company = [];
}

abbrev people : List Maintainer
people =
    person 1 (text "ann") (text "ann@x.org") ∷ person 2 (text "bob") (text "EMAIL_MISSING") ∷ []

abbrev project : Project
project = record {
  id = 4;
  name = text "Foo";
  parent_project_id = none;
  maturity = text "Sandbox";
  legacy_maintainer_ref = [];
  onboarding_issue = none;
  mailing_list = none;
  maintainers = people;
}

abbrev store : Store ℕ
store = record {
  get_maintainers_by_project = λ id w. (ok people, w);
  is_staff_git_hub_account = λ login w. (ok (login == text "carol"), w);
  log_audit_event = λ id m handle name w. w;
}

abbrev oops : Error
oops = record { kind = ErrorKind.other; message = text "oops" }

abbrev fossa : FossaClient ℕ
fossa = record {
  create_team = λ name w. (err oops, w);
  fetch_team = λ name w. (err oops, w);
  send_user_invitation = λ email w. (none, w);
  has_pending_invitation = λ email w. (ok false, w);
  fetch_users = λ w. (ok [], w);
  add_user_to_team_by_email = λ team email role w. (none, w);
  fetch_team_user_emails = λ team w. (ok [], w);
}

abbrev start : Traced ℕ
start = record { world = 0; calls = [] }

adds_ann :
    (add_project_maintainers_to_fossa_team fossa store project 5 0).0.0
    ≡ added_as_admin (text "ann") (text "Foo") ∷ []
unfolding add_project_maintainers_to_fossa_team ◌==◌
adds_ann = refl

add_project_maintainers-AdmitsAll_example :
    (calls : List Call) × AdmitsAll 5 [] (filter_eligible_maintainers people).0 calls
    × ((add_project_maintainers_to_fossa_team (traced fossa) (beside store) project 5 start).0.1
        ≡ none)
    × ((add_project_maintainers_to_fossa_team (traced fossa) (beside store) project 5 start).1.calls
        ≡ [] ++ calls)
add_project_maintainers-AdmitsAll_example =
    add_project_maintainers-AdmitsAll fossa store project 5 start people [] refl refl

abbrev projects : Dict Project
projects = (text "Foo", project) ∷ []

abbrev title : Text
title = text "[PROJECT ONBOARDING] Foo"

staff_labels :
    (decide_label store projects (text "carol") (text "/label  FOSSA") title 0).0
    ≡ allowed (text "fossa")
unfolding decide_label ◌==◌
staff_labels = refl

decide_label_iff_example :
    ((decide_label store projects (text "ann") (text "/label Snyk") title 0).0
      ≡ allowed (text "snyk"))
    ↔ IsGranted store projects (text "ann") (text "snyk") (text "/label Snyk") title 0
decide_label_iff_example =
    decide_label_iff store projects (text "ann") (text "/label Snyk") title 0 (text "snyk")
