-- ===== src/Refparse/Handles.antt =====
-- What the handles are that refparse/maintainer_refs.go reads in tables.
use maintainer_d.Base.{
  ℕ, ◌≤◌, Text, ◌==◌, to_lower, trim_space, split_on, leb, length, true, false, ◌&&◌, ◌||◌, not,
  ◌≡◌, ◌≢◌, refl, Option, none, some, List, [], ◌∷◌, ◌++◌, all, All, All-append, arith, if-Has,
  if-Splits, leb→le, and-true, eq_iff,
}
use maintainer_d.Refparse.{
  is_reserved, is_handle_char, is_valid_lower, is_valid_handle, cell_at, stripped, cell_handle,
  row_handles, table_rows, table_column, at_table, scan_lines, parse_markdown_tables_for_handles,
  parse_row, is_separator_row,
}

-- A handle of GitHub: 1 to 39 small letters, digits and dashes, and not a reserved name.
pub record IsHandle (h : Text) : Type 0 where
  pub filled : h ≢ []
  pub short : length h ≤ 39
  pub chars : all is_handle_char h ≡ true
  pub free : is_reserved h ≡ false

-- The name is that of a text in small letters, and it is a handle but for spaces around it.
abbrev pub IsPadded : Text → Type 0
IsPadded h = (s : Text) × (h ≡ to_lower s) × IsHandle (to_lower (trim_space s))

is_valid_lower-IsHandle : (h : Text) → is_valid_lower h ≡ true → IsHandle h
unfolding is_valid_lower
is_valid_lower-IsHandle h valid =
    let (front, chars) =
      and-true (not (h == [] || is_reserved h) && leb (length h) 39) (all is_handle_char h) valid in
    let (free, short) = and-true (not (h == [] || is_reserved h)) (leb (length h) 39) front in
    record {
      filled = λ e. ground (arith, (eq_iff h []).1 e, free);
      short = leb→le (length h) 39 short;
      chars = chars;
      free = ground (arith, free);
    }

cell_handle-IsPadded : (cell : Option Text) → All IsPadded (cell_handle cell)
unfolding cell_handle is_valid_handle
cell_handle-IsPadded none = tt
cell_handle-IsPadded (some cell) =
    if-Splits (All IsPadded) (is_valid_handle (stripped cell)) (to_lower (stripped cell) ∷ []) []
      (λ valid. (
        (
          stripped cell,
          refl,
          is_valid_lower-IsHandle (to_lower (trim_space (stripped cell))) valid,
        ),
        tt,
      ))
      (λ other. tt)

row_handles-IsPadded :
    (index : ℕ) (cells more : List Text)
    → All IsPadded more
    → All IsPadded (row_handles index cells more)
unfolding row_handles
row_handles-IsPadded index [] more h = tt
row_handles-IsPadded index (c ∷ cells) more h =
    if-Has (All IsPadded) (is_separator_row (c ∷ cells)) []
      (cell_handle (cell_at index (c ∷ cells)) ++ more) tt
      (All-append IsPadded (cell_handle (cell_at index (c ∷ cells))) more
        (cell_handle-IsPadded (cell_at index (c ∷ cells))) h)

table_rows-IsPadded : (index : ℕ) (lines : List Text) → All IsPadded (table_rows index lines)
unfolding table_rows
table_rows-IsPadded index [] = tt
table_rows-IsPadded index (line ∷ lines) =
    row_handles-IsPadded index (parse_row line) (table_rows index lines)
      (table_rows-IsPadded index lines)

at_table-IsPadded :
    (column : Option ℕ) (lines next after : List Text)
    → All IsPadded next
    → All IsPadded after
    → All IsPadded (at_table column lines next after)
unfolding at_table
at_table-IsPadded none lines next after h k = h
at_table-IsPadded (some index) lines next after h k =
    All-append IsPadded (table_rows index lines) after (table_rows-IsPadded index lines) k

scan_lines-IsPadded : (lines : List Text) → All IsPadded (scan_lines lines)
unfolding scan_lines
scan_lines-IsPadded [] = tt
scan_lines-IsPadded (header ∷ []) = tt
scan_lines-IsPadded (header ∷ separator ∷ lines) =
    at_table-IsPadded (table_column (parse_row header) (parse_row separator)) lines
      (scan_lines (separator ∷ lines)) (scan_lines lines) (scan_lines-IsPadded (separator ∷ lines))
      (scan_lines-IsPadded lines)

-- Every name that parse_markdown_tables_for_handles extracts, from whatever text, is in small
-- letters, and without the spaces around it it has 1 to 39 small letters, digits and dashes and is
-- none of the three reserved names.
pub tables-IsPadded : (body : Text) → All IsPadded (parse_markdown_tables_for_handles body)
unfolding parse_markdown_tables_for_handles
tables-IsPadded body = scan_lines-IsPadded (split_on 10 body)
