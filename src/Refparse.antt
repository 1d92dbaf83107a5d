-- ===== src/Refparse.antt =====
-- refparse/maintainer_refs.go: the GitHub handles in the tables of a project's maintainer file. A set
-- of handles is a list of them.
pub mod Handles
mod Tests
use maintainer_d.Base.{
  ℕ, zero, suc, ◌+◌, Text, text, ◌==◌, to_lower, trim, trim_space, trim_prefix, trim_suffix,
  split_on, eqb, leb, ltb, length, Bool, true, false, ◌&&◌, ◌||◌, not, Option, none, some, List, [],
  ◌∷◌, ◌++◌, map, any, all, has_prefix, if◌then◌else◌,
}

unfoldable pub header_match : Text → Bool
unfolding to_lower trim_space ◌==◌
header_match header =
    let normalized = to_lower (trim_space header) in
    normalized == text "github"
    || normalized == text "github id"
    || normalized == text "github username"
    || normalized == text "github handle"
    || normalized == text "github account"

abbrev is_rule : ℕ → Bool
is_rule c = eqb c b'-' || eqb c b':'

unfoldable pub is_separator_row : List Text → Bool
unfolding trim_space
is_separator_row [] = false
is_separator_row (c ∷ cells) = all (λ (cell : Text). all is_rule (trim_space cell)) (c ∷ cells)

-- A line without a bar is no row.
unfoldable pub parse_row : Text → List Text
unfolding trim_space trim_prefix trim_suffix split_on ◌==◌
parse_row line =
    if not (any (λ c. eqb c b'|') line) || trim_space line == []
    then []
    else map trim_space
        (split_on b'|' (trim_suffix (trim_prefix (trim_space line) (text "|")) (text "|")))

unfoldable pub is_handle_char : ℕ → Bool
is_handle_char c = leb b'a' c && leb c b'z' || leb b'0' c && leb c b'9' || eqb c b'-'

unfoldable pub is_reserved : Text → Bool
unfolding ◌==◌
is_reserved handle =
    handle == text "organizations" || handle == text "orgs" || handle == text "repos"

unfoldable pub is_valid_lower : Text → Bool
unfolding is_reserved is_handle_char ◌==◌
is_valid_lower handle =
    not (handle == [] || is_reserved handle) && leb (length handle) 39 && all is_handle_char handle

unfoldable pub is_valid_handle : Text → Bool
unfolding is_valid_lower to_lower trim_space
is_valid_handle handle = is_valid_lower (to_lower (trim_space handle))

abbrev cell_at : ℕ → List Text → Option Text
cell_at n [] = none
cell_at zero (c ∷ cells) = some c
cell_at (suc n) (c ∷ cells) = cell_at n cells

abbrev after_first : Option ℕ → Option ℕ
after_first none = none
after_first (some n) = some (suc n)

-- The index of the first cell that passes.
abbrev index_of : (Text → Bool) → List Text → Option ℕ
index_of p [] = none
index_of p (c ∷ cells) = if p c then some zero else after_first (index_of p cells)

-- The handle of a cell, which may have quotes and an at sign.
unfoldable pub stripped : Text → Text
unfolding trim trim_prefix trim_space
stripped cell = trim_prefix (trim (eqb b'`') (trim_space cell)) (text "@")

unfoldable pub cell_handle : Option Text → List Text
unfolding stripped is_valid_handle to_lower
cell_handle none = []
cell_handle (some cell) =
    if is_valid_handle (stripped cell) then to_lower (stripped cell) ∷ [] else []

-- A line that is no row, or one that separates, ends the table.
unfoldable pub row_handles : ℕ → List Text → List Text → List Text
unfolding is_separator_row cell_handle
row_handles index [] more = []
row_handles index (c ∷ cells) more =
    if is_separator_row (c ∷ cells) then [] else cell_handle (cell_at index (c ∷ cells)) ++ more

unfoldable pub table_rows : ℕ → List Text → List Text
unfolding row_handles parse_row
table_rows index [] = []
table_rows index (line ∷ lines) =
    let more = table_rows index lines in row_handles index (parse_row line) more

-- The column of the handles, if the two lines begin a table that has one.
unfoldable pub table_column : List Text → List Text → Option ℕ
unfolding is_separator_row header_match
table_column header separator =
    if is_separator_row separator then index_of header_match header else none

unfoldable pub at_table : Option ℕ → List Text → List Text → List Text → List Text
unfolding table_rows
at_table none lines next after = next
at_table (some index) lines next after = table_rows index lines ++ after

-- The loop over the lines: after a table's head it goes on behind the separator.
unfoldable pub scan_lines : List Text → List Text
unfolding at_table table_column parse_row
scan_lines [] = []
scan_lines (header ∷ []) = []
scan_lines (header ∷ separator ∷ lines) =
    let next = scan_lines (separator ∷ lines) in
    let after = scan_lines lines in
    at_table (table_column (parse_row header) (parse_row separator)) lines next after

unfoldable pub parse_markdown_tables_for_handles : Text → List Text
unfolding scan_lines split_on
parse_markdown_tables_for_handles body = scan_lines (split_on 10 body)
