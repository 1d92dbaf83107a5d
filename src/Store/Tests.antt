-- ===== src/Store/Tests.antt =====
-- Runs of the store's operations on a database in memory.
use maintainer_d.Base.{text, ◌≡◌, refl, none, some, [], ◌∷◌, trim_space}
use maintainer_d.Model.{Maintainer, StaffMember}
use maintainer_d.Store.Companies.{create_company, merge_companies}
use maintainer_d.Store.Maintainers.{update_maintainer_details}
use maintainer_d.Store.Tables.{Tables}
use maintainer_d.Store.Memory.{Memory, in_memory, now, before, queries, writes}
use maintainer_d.Store.Laws.Merge.{MergeOutcome, merge_companies-Merges}
use maintainer_d.Store.Laws.Creates.{CreateOutcome, create_company-Creates}
use maintainer_d.Store.Laws.Edits.{EditOutcome, trimmed_details, update_maintainer_details-Edits}

abbrev pub ann : Maintainer
ann = record {
  id = 7;
  name = text "Ann";
  email = text "ann@x.io";
  git_hub_account = text "ann";
  git_hub_email = text "GITHUB_MISSING";
  maintainer_status = text "Active";
  registered_at = none;
  company_id = some 1;
  company = [];
}

abbrev pub bob : Maintainer
bob = record ann {
  id = 8;
  name = text "Bob";
  email = text "bob@y.io";
  git_hub_account = text "Bob";
  company_id = some 2;
}

abbrev pub carol : StaffMember
carol = record {
  id = 3;
  name = text "Carol";
  email = text "carol@z.io";
  git_hub_account = text "Carol";
  git_hub_email = [];
  registered_at = none;
  foundation_id = none;
  foundation = [];
}

abbrev pub tables : Tables
tables = record {
  maintainers = ann ∷ bob ∷ [];
  companies = record { id = 1; name = text "Acme" } ∷ record { id = 2; name = text "Beta" } ∷ [];
  projects = [];
  events = [];
}

abbrev pub memory : Memory
memory = record { tables = tables; before = tables; staff = carol ∷ [] }

merges :
    (merge_companies in_memory 1 2 memory).1.tables.companies
    ≡ record { id = 2; name = text "Beta" } ∷ []
unfolding merge_companies
merges = refl

merge_companies-Merges_example :
    MergeOutcome
      (merge_companies in_memory 1 2 memory).0
      1
      2
      tables
      (merge_companies in_memory 1 2 memory).1.tables
merge_companies-Merges_example =
    merge_companies-Merges in_memory now before writes 1 2 memory queries

create_company-Creates_example :
    CreateOutcome
      (create_company in_memory (text " Gamma ") memory).0
      (trim_space (text " Gamma "))
      tables
      (create_company in_memory (text " Gamma ") memory).1.tables
create_company-Creates_example =
    create_company-Creates in_memory now before writes (text " Gamma ") memory queries

update_maintainer_details-Edits_example :
    EditOutcome
      (update_maintainer_details in_memory 7
        (text " Ann B ")
        []
        (text "ann")
        (text "Retired")
        (some 2)
        memory).0
      7
      (trimmed_details (text " Ann B ") [] (text "ann") (text "Retired") (some 2))
      tables
      (update_maintainer_details in_memory 7
        (text " Ann B ")
        []
        (text "ann")
        (text "Retired")
        (some 2)
        memory).1.tables
update_maintainer_details-Edits_example =
    update_maintainer_details-Edits in_memory now before writes 7 (text " Ann B ") [] (text "ann")
      (text "Retired") (some 2) memory queries
