-- ===== src/Refparse/Tests.antt =====
-- Runs on a small maintainer file.
use maintainer_d.Base.{Text, text, ◌==◌, to_lower, ◌≡◌, refl, [], ◌∷◌, ◌++◌, All}
use maintainer_d.Refparse.{parse_markdown_tables_for_handles}
use maintainer_d.Refparse.Handles.{IsPadded, tables-IsPadded}

abbrev file : Text
file =
    text "| Name | GitHub |"
    ++ 10 ∷ text "|---|:-:|"
    ++ 10 ∷ text "| Ann | @Ann-1 |"
    ++ 10 ∷ text "| Bob | repos |"
    ++ 10 ∷ text "| Eve | ` eve ` |"
    ++ []

-- The spaces within the quotes stay.
reads_table : parse_markdown_tables_for_handles file ≡ text "ann-1" ∷ text " eve " ∷ []
unfolding parse_markdown_tables_for_handles ◌==◌ to_lower
reads_table = refl

tables-IsPadded_example : All IsPadded (parse_markdown_tables_for_handles file)
tables-IsPadded_example = tables-IsPadded file
