-- ===== src/Analytics/Providers/Quoting.antt =====
-- A text in a SQL statement stays inside its literal.
use Prim.Native.Char.{Char}
use Prim.Native.String.append
use Prim.Native.String.{◌++◌ as str_append}
use text.Mathlib.TextEquality.{Char-path}
use stream_house_c360_demo.Prelude.{
  String, ◌≡◌, refl, ap, ◌∙◌, Bool, true, false, Option, none, some, if◌then◌else◌, arith,
  Bool-cases, inl, inr,
}
use stream_house_c360_demo.Analytics.Providers.{is_quote, doubled, sql_str}

-- How SQL reads a literal from its first quote on: two quotes stand for one, and one ends it. The
-- text and what follows the literal, or nothing if it does not end.
abbrev pub with_char : Char → Option (String × String) → Option (String × String)
with_char c none = none
with_char c (some (text, rest)) = some (String.◌∷◌ c text, rest)

-- by whether the character before was a quote that may end the literal
unfoldable pub read_literal : Bool → String → Option (String × String)
read_literal false String.[] = none
read_literal true String.[] = some ("", "")
read_literal false (String.◌∷◌ c s) = elim (is_quote c) [
  | true ↦ read_literal true s
  | false ↦ with_char c (read_literal false s)
]
read_literal true (String.◌∷◌ c s) = elim (is_quote c) [
  | true ↦ with_char "'" (read_literal false s)
  | false ↦ some ("", String.◌∷◌ c s)
]

-- a literal at the start of a text
unfoldable pub read_sql : String → Option (String × String)
read_sql String.[] = none
read_sql (String.◌∷◌ c s) = if is_quote c then read_literal false s else none

quote_path : (c : Char) → is_quote c ≡ true → "'" ≡ c
quote_path c e = Char-path "'" c (ground arith)

read_literal-plain :
    (c : Char) (s : String)
    → is_quote c ≡ false
    → read_literal false (String.◌∷◌ c s) ≡ with_char c (read_literal false s)
unfolding read_literal
read_literal-plain c s e = rw (read_literal, e) refl

read_literal-doubled : (s : String) → read_literal false (str_append (doubled s) "'") ≡ some (s, "")
unfolding read_literal doubled
read_literal-doubled String.[] = refl
read_literal-doubled (String.◌∷◌ c s) = elim (Bool-cases (is_quote c)) [
  | inl e ↦ rw e (
      ap (read_literal false) (
        append.cons "'" (String.◌∷◌ "'" (doubled s)) "'"
        ∙ ap (String.◌∷◌ "'") (append.cons "'" (doubled s) "'"))
      ∙ ap (with_char "'") (read_literal-doubled s)
      ∙ ap (λ d. some (String.◌∷◌ d s, "")) (quote_path c e))
  | inr e ↦ rw e (
      ap (read_literal false) (append.cons c (doubled s) "'")
      ∙ read_literal-plain c (str_append (doubled s) "'") e
      ∙ ap (with_char c) (read_literal-doubled s))
]

-- SQL reads the literal of any text as that text, and nothing of the text stands outside of it.
pub sql_str-read_sql : (value : String) → read_sql (sql_str value) ≡ some (value, "")
unfolding sql_str read_sql
sql_str-read_sql value = read_literal-doubled value
