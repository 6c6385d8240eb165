-- ===== src/Analytics/Providers.antt =====
-- analytics/providers.py: the snapshot queries of the dashboard and of one customer. A row `R` of an
-- answer and the clients are arguments; a query that raises yields `none`.
pub mod Quoting
use Prim.Native.Char.{Char, code}
use Prim.Native.String.{◌++◌ as str_append}
use stream_house_c360_demo.Prelude.{
  ℕ, suc, String, Bool, true, false, ◌&&◌, ◌||◌, Option, none, some, List, [], ◌∷◌, str_eq,
  if◌then◌else◌, ◌==◌, leb, truthy,
}
use stream_house_c360_demo.Prelude.Effect.{Error, Result, ok, err, value_error, other_fault, sql}
use stream_house_c360_demo.DbSink.{join, concat}

-- the five `fct_crm_*` tables
abbrev pub summary_table : String
summary_table = "fct_crm_summary"

abbrev pub by_segment_table : String
by_segment_table = "fct_crm_by_segment"

abbrev pub by_generation_table : String
by_generation_table = "fct_crm_by_generation"

abbrev pub by_gender_table : String
by_gender_table = "fct_crm_by_gender"

abbrev pub by_country_table : String
by_country_table = "fct_crm_by_country"

abbrev pub profile_table : String
profile_table = "fct_c360_profile"

abbrev pub profile_columns : List String
profile_columns =
    "customer_id" ∷ "first_name" ∷ "last_name" ∷ "customer_segment" ∷ "generation_segment"
    ∷ "gender" ∷ "age_years" ∷ "city" ∷ "state" ∷ "country" ∷ "customer_since"
    ∷ "days_since_registration" ∷ "missing_email_flag" ∷ "missing_phone_flag" ∷ "account_count"
    ∷ "total_balance" ∷ "txn_count" ∷ "txn_total" ∷ []

abbrev pub is_quote : Char → Bool
is_quote c = code c == code "'"

-- `value.replace("'", "''")`
unfoldable pub doubled : String → String
doubled String.[] = ""
doubled (String.◌∷◌ c s) =
    let rest = doubled s in
    if is_quote c then String.◌∷◌ "'" (String.◌∷◌ "'" rest) else String.◌∷◌ c rest

-- `_sql_str`
unfoldable pub sql_str : String → String
sql_str value = String.◌∷◌ "'" (str_append (doubled value) "'")

-- `[A-Za-z0-9._:\-]`
abbrev pub between : ℕ → ℕ → ℕ → Bool
between a b n = leb a n && leb n b

abbrev pub is_id_char : Char → Bool
is_id_char c =
    let n = code c in
    between b'A' b'Z' n
    || between b'a' b'z' n
    || between b'0' b'9' n
    || n == b'.'
    || n == b'_'
    || n == b':'
    || n == b'-'

abbrev pub all_id_chars : String → Bool
all_id_chars String.[] = true
all_id_chars (String.◌∷◌ c s) = is_id_char c && all_id_chars s

abbrev pub char_count : String → ℕ
char_count String.[] = 0
char_count (String.◌∷◌ c s) = suc (char_count s)

-- `_CUSTOMER_ID_RE`, on a text that ends in no newline
unfoldable pub is_customer_id : String → Bool
is_customer_id s = all_id_chars s && between 1 128 (char_count s)

-- `_mode`
unfoldable pub mode_of : String → Result String
mode_of mode = if str_eq mode "mock" || str_eq mode "live" then ok mode else err value_error

-- `_profile_sql`
unfoldable pub profile_sql : String → String
profile_sql customer_id = concat (
    "SELECT "
    ∷ join profile_columns
    ∷ " FROM "
    ∷ profile_table
    ∷ " WHERE customer_id = "
    ∷ sql_str customer_id
    ∷ [])

module _ {R : Type 0} (query : String → Option (List R)) where
  -- `_query_one`
  unfoldable pub query_one : String → List R
  query_one table = elim (query (str_append "SELECT * FROM " table)) [
    | none ↦ []
    | some rows ↦ rows
  ]

  abbrev pub first : List R → Option R
  first [] = none
  first (row ∷ more) = some row

  -- `fetch_crm_result_sets`: the five queries at once, each with its own slot
  unfoldable pub fetch_crm_result_sets : Option R × List R × List R × List R × List R
  fetch_crm_result_sets = (
    first (query_one summary_table),
    query_one by_segment_table,
    query_one by_generation_table,
    query_one by_gender_table,
    query_one by_country_table,
  )

  -- `PROFILE_SNAPSHOT` with the customer ids of its rows, `str.strip`, and what a failed query raises
  module _ (snapshot : List (String × R)) (strip : String → String) (fault : Error) where
    -- `_mock_profile`
    abbrev pub mock_profile : List (String × R) → String → Option R
    mock_profile [] cid = none
    mock_profile ((id, row) ∷ more) cid = if str_eq id cid then some row else mock_profile more cid

    abbrev pub first_row : String → Option (List R) → Result (Option R × String)
    first_row mode none = err fault
    first_row mode (some rows) = ok (first rows, mode)

    abbrev pub profile_in : String → String → Result (Option R × String)
    profile_in mode cid =
        if is_customer_id cid
        then if str_eq mode "mock"
          then ok (mock_profile snapshot cid, mode)
          else first_row mode (query (profile_sql cid))
        else ok (none, mode)

    -- `get_customer_profile` and, with the client of the Lightning API, `get_customer_profile_rtce`
    unfoldable pub get_customer_profile : String → String → Result (Option R × String)
    get_customer_profile data_mode customer_id = elim (mode_of data_mode) [
      | err e ↦ err e
      | ok mode ↦ profile_in mode (strip customer_id)
    ]
