-- ===== src/Inventory/Sync.antt =====
-- Cache and file of an inventory: the operations keep them in step, and a reload of a file that is
-- in step restores the cache.
use stream_house_c360_demo.Prelude.{
  String, ◌≡◌, refl, ◌∙◌, ap, none, some, List, [], ◌∷◌, map, arith, All,
}
use stream_house_c360_demo.Prelude.Effect.{ok, err, invalid}
use stream_house_c360_demo.Inventory.Csv.{Line, Row, write_row, zip_row, read_lines, read_rows}
use stream_house_c360_demo.Inventory.{Codec, Store, line, load, parse_rows}

-- A file that was written under a header of one column or more reads back line by line.
read_lines-map :
    {A : Type 0} (header : List String) {name : String} {names : List String}
    → header ≡ name ∷ names
    → (row_of : A → List (String × String)) (xs : List A)
    → read_lines header (map (λ a. write_row header (row_of a)) xs)
      ≡ map (λ a. zip_row header (write_row header (row_of a))) xs
unfolding read_lines write_row
read_lines-map header e row_of [] = refl
read_lines-map {A} header {name} {names} e row_of (x ∷ xs) =
    nonblank-read (row_of x) _
    ∙ ap (◌∷◌ (zip_row header (write_row header (row_of x)))) (read_lines-map header e row_of xs)
  where
    nonblank-read :
        (row : List (String × String)) (rest : List Line)
        → read_lines header (write_row header row ∷ rest)
          ≡ zip_row header (write_row header row) ∷ read_lines header rest
    nonblank-read row rest = rw e

module _ {A : Type 0} (c : Codec A) where
  open c use {id_of, fieldnames, to_row, of_row}

  -- the file holds the header and one line for each entity of the cache, in order
  abbrev pub IsSynced : Store A → Type 0
  IsSynced s = s.file ≡ fieldnames ∷ map (line c) s.cache

  parse_rows-map :
      (row_of : A → Row) (reload : A → A) (xs : List A)
      → All (λ a. of_row (row_of a) ≡ some (reload a)) xs
      → parse_rows c (map row_of xs) ≡ some (map reload xs)
  unfolding parse_rows
  parse_rows-map row_of reload [] h = refl
  parse_rows-map row_of reload (x ∷ xs) h = ground (arith, parse_rows-map row_of reload xs h.1)

  load_of_parse_rows :
      (s : Store A) (rows : List A)
      → parse_rows c (read_rows s.file) ≡ some rows
      → load c s ≡ (ok rows, record s { cache = rows })
  unfolding load
  load_of_parse_rows s rows h = rw (h, load)

  -- A reload of a file that is in step yields, for each entity of the cache, what its row reads
  -- back as, and leaves the file alone.
  pub load-IsSynced :
      (reload : A → A) (s : Store A) {name : String} {names : List String}
      → fieldnames ≡ name ∷ names
      → IsSynced s
      → All (λ a. of_row (zip_row fieldnames (line c a)) ≡ some (reload a)) s.cache
      → load c s ≡ (ok (map reload s.cache), record s { cache = map reload s.cache })
  unfolding read_rows
  load-IsSynced reload s e h rows = load_of_parse_rows s (map reload s.cache) (
      ap (λ lines. parse_rows c (read_rows lines)) h
      ∙ ap (parse_rows c) (read_lines-map fieldnames e to_row s.cache)
      ∙ parse_rows-map (λ a. zip_row fieldnames (line c a)) reload s.cache rows)

  -- A file with a row that does not validate leaves cache and file as they were.
  pub load_fails :
      (s : Store A) → parse_rows c (read_rows s.file) ≡ none → load c s ≡ (err invalid, s)
  unfolding load
  load_fails s h = rw (h, load)
