-- ===== src/Accounts/Inventory.antt =====
-- accounts/inventory.py: the account rows of the CSV file, and the inventory of accounts.
pub mod Reload
use stream_house_c360_demo.Prelude.{false, ℕ, String, Bool, Option, none, some, List, [], ◌∷◌}
use stream_house_c360_demo.Prelude.Effect.{Action}
use stream_house_c360_demo.Scalars.{Float, Date, Datetime, Formats}
use stream_house_c360_demo.Inventory
use stream_house_c360_demo.Inventory.{Codec, Store}
use stream_house_c360_demo.Inventory.Csv.{Row}
use stream_house_c360_demo.Inventory.Fields.{◌>>=◌, required, defaulted, nullable, optional_text}
use stream_house_c360_demo.Accounts.Models.{Account}

abbrev pub fieldnames : List String
fieldnames =
    "customer_id" ∷ "account_number" ∷ "account_type" ∷ "currency" ∷ "balance" ∷ "credit_limit"
    ∷ "opened_date" ∷ "closed_date" ∷ "status" ∷ []

-- The formats, and what `datetime.now` and `date.today` return while the rows are read.
module _ (f : Formats) (now : Datetime) (today : Date) where
  -- `_account_to_row`
  unfoldable pub account_to_row : Account → List (String × String)
  account_to_row a =
      ("customer_id", f.uuid_text a.customer_id)
      ∷ ("account_number", a.account_number)
      ∷ ("account_type", a.account_type)
      ∷ ("currency", a.currency)
      ∷ ("balance", f.float_text a.balance)
      ∷ ("credit_limit", optional_text f.float_text a.credit_limit)
      ∷ ("opened_date", f.date_text a.opened_date)
      ∷ ("closed_date", optional_text f.date_text a.closed_date)
      ∷ ("status", a.status)
      ∷ []

  -- `_row_to_account`; an account number that is missing or empty does not validate either
  unfoldable pub row_to_account : Row → Option Account
  row_to_account row = do
    customer_id ← required f.uuid_of "customer_id" row
    account_number ← required some "account_number" row
    account_type ← required some "account_type" row
    currency ← defaulted some "USD" "currency" row
    balance ←
        defaulted f.float_of (record { negative = false; digits = 0; places = 1 }) "balance" row
    credit_limit ← nullable f.float_of "credit_limit" row
    opened_date ← defaulted f.date_of today "opened_date" row
    closed_date ← nullable f.date_of "closed_date" row
    status ← defaulted some "ACTIVE" "status" row
    some (record {
      customer_id = customer_id;
      account_number = account_number;
      account_type = account_type;
      currency = currency;
      balance = balance;
      credit_limit = credit_limit;
      opened_date = opened_date;
      closed_date = closed_date;
      status = status;
      account_id = f.uuid5 account_number;
      created_at = now;
      updated_at = now;
    })

  abbrev pub codec : Codec Account
  codec = record {
    id_of = λ a. a.account_id;
    fieldnames = fieldnames;
    to_row = account_to_row;
    of_row = row_to_account;
  }
