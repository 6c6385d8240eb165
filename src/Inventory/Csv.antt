-- ===== src/Inventory/Csv.antt =====
-- The CSV file of an inventory, as `csv.DictWriter` writes it and `csv.DictReader` reads it: a
-- list of lines of cells, quoting aside. The first line is the header.
use stream_house_c360_demo.Prelude.{
  String, Bool, true, false, Option, none, some, List, [], ◌∷◌, map, str_eq, if◌then◌else◌, truthy,
}

abbrev pub Line : Type 0
Line = List String

-- A row that is read: a column whose cell is missing holds `None`.
abbrev pub Row : Type 0
Row = List (String × Option String)

-- `row[name]` for a row that is written; `DictWriter` fills a missing column with "".
unfoldable pub cell : String → List (String × String) → String
cell name [] = ""
cell name ((k, v) ∷ row) = if str_eq k name then v else cell name row

-- `writer.writerow(row)`
unfoldable pub write_row : List String → List (String × String) → Line
unfolding cell
write_row fieldnames row = map (λ name. cell name row) fieldnames

-- `dict(zip(header, cells))`, a short line padded with `None`; the cells past the header go.
unfoldable pub zip_row : List String → Line → Row
zip_row [] cells = []
zip_row (name ∷ names) [] = (name, none) ∷ zip_row names []
zip_row (name ∷ names) (text ∷ cells) = (name, some text) ∷ zip_row names cells

-- the rows under a header; a blank line is skipped
unfoldable pub read_lines : List String → List Line → List Row
read_lines header [] = []
read_lines header ([] ∷ lines) = read_lines header lines
read_lines header ((text ∷ cells) ∷ lines) = zip_row header (text ∷ cells) ∷ read_lines header lines

unfoldable pub read_rows : List Line → List Row
unfolding read_lines zip_row
read_rows [] = []
read_rows (header ∷ lines) = read_lines header lines

-- the last of two bindings of a column, as in a dict
abbrev later : Option (Option String) → Bool → Option String → Option (Option String)
later (some v) _ _ = some v
later none true v = some v
later none false v = none

-- `row.get(name)` in two layers: `none` is a missing column, `some none` a column with no cell.
unfoldable pub column : String → Row → Option (Option String)
column name [] = none
column name ((k, v) ∷ row) = later (column name row) (str_eq k name) v

-- `v if v != "" else None`
abbrev pub clean : Option String → Option String
clean none = none
clean (some v) = if truthy v then some v else none
