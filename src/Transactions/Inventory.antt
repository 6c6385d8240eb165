-- ===== src/Transactions/Inventory.antt =====
-- transactions/inventory.py: the transaction rows of the CSV file, and the inventory of transactions.
-- A seed file has an account number in place of the account's id, and no transaction ids.
pub mod Reload
use Prim.Native.String.{◌++◌ as str_append}
use stream_house_c360_demo.Prelude.{
  ℕ, String, Bool, Option, none, some, List, [], ◌∷◌, text_or_empty,
}
use stream_house_c360_demo.Prelude.Effect.{Action}
use stream_house_c360_demo.Scalars.{Datetime, Formats}
use stream_house_c360_demo.Inventory
use stream_house_c360_demo.Inventory.{Codec, Store}
use stream_house_c360_demo.Inventory.Csv.{Row, column, clean}
use stream_house_c360_demo.Inventory.Fields.{
  ◌>>=◌, not_null, required, defaulted, nullable, optional_text,
}
use stream_house_c360_demo.Transactions.Models.{Transaction}

abbrev pub fieldnames : List String
fieldnames =
    "transaction_id" ∷ "account_id" ∷ "customer_id" ∷ "transaction_type" ∷ "amount" ∷ "currency"
    ∷ "description" ∷ "merchant_name" ∷ "merchant_category" ∷ "channel" ∷ "status" ∷ "transacted_at"
    ∷ "posted_at" ∷ "created_at" ∷ []

-- `cleaned.get(name)`
unfoldable pub cleaned : String → Row → Option String
cleaned name row = elim (column name row) [ none ↦ none | some v ↦ clean v ]

-- a value in an f-string
abbrev pub shown : Option String → String
shown none = "None"
shown (some text) = text

abbrev joined : List String → String
joined [] = ""
joined (text ∷ []) = text
joined (text ∷ more) = str_append text (str_append "|" (joined more))

-- the text that a missing transaction id is derived from
unfoldable pub id_key : Row → String
id_key row = joined (
    shown (cleaned "account_number" row)
    ∷ shown (cleaned "transacted_at" row)
    ∷ shown (cleaned "transaction_type" row)
    ∷ shown (cleaned "amount" row)
    ∷ shown (cleaned "merchant_name" row)
    ∷ [])

-- The formats, and what `datetime.now` returns while the rows are read.
module _ (f : Formats) (now : Datetime) where
  -- `_transaction_to_row`
  unfoldable pub transaction_to_row : Transaction → List (String × String)
  transaction_to_row t =
      ("transaction_id", f.uuid_text t.transaction_id)
      ∷ ("account_id", f.uuid_text t.account_id)
      ∷ ("customer_id", f.uuid_text t.customer_id)
      ∷ ("transaction_type", t.transaction_type)
      ∷ ("amount", f.float_text t.amount)
      ∷ ("currency", t.currency)
      ∷ ("description", text_or_empty t.description)
      ∷ ("merchant_name", text_or_empty t.merchant_name)
      ∷ ("merchant_category", text_or_empty t.merchant_category)
      ∷ ("channel", text_or_empty t.channel)
      ∷ ("status", t.status)
      ∷ ("transacted_at", f.datetime_text t.transacted_at)
      ∷ ("posted_at", optional_text f.datetime_text t.posted_at)
      ∷ ("created_at", f.datetime_text t.created_at)
      ∷ []

  -- The account's id, by its column if there is one, and else by the account number.
  unfoldable pub account_id_of : Row → Option ℕ
  account_id_of row = elim (column "account_id" row) [
    | some v ↦ not_null f.uuid_of v
    | none ↦ elim (cleaned "account_number" row) [
      | none ↦ none
      | some number ↦ some (f.uuid5 number)
    ]
  ]

  unfoldable pub transaction_id_of : Row → Option ℕ
  transaction_id_of row = elim (cleaned "transaction_id" row) [
    | some text ↦ f.uuid_of text
    | none ↦ some (f.uuid5 (id_key row))
  ]

  unfoldable pub created_at_of : Row → Option Datetime
  created_at_of row = elim (cleaned "created_at" row) [
    | some text ↦ f.datetime_of text
    | none ↦ some now
  ]

  -- `_row_to_transaction`
  unfoldable pub row_to_transaction : Row → Option Transaction
  row_to_transaction row = do
    account_id ← account_id_of row
    customer_id ← required f.uuid_of "customer_id" row
    transaction_type ← required some "transaction_type" row
    amount ← required f.float_of "amount" row
    currency ← defaulted some "USD" "currency" row
    description ← nullable some "description" row
    merchant_name ← nullable some "merchant_name" row
    merchant_category ← nullable some "merchant_category" row
    channel ← nullable some "channel" row
    status ← defaulted some "COMPLETED" "status" row
    transacted_at ← defaulted f.datetime_of now "transacted_at" row
    posted_at ← nullable f.datetime_of "posted_at" row
    transaction_id ← transaction_id_of row
    created_at ← created_at_of row
    some (record {
      account_id = account_id;
      customer_id = customer_id;
      transaction_type = transaction_type;
      amount = amount;
      currency = currency;
      description = description;
      merchant_name = merchant_name;
      merchant_category = merchant_category;
      channel = channel;
      status = status;
      transacted_at = transacted_at;
      posted_at = posted_at;
      transaction_id = transaction_id;
      created_at = created_at;
    })

  abbrev pub codec : Codec Transaction
  codec = record {
    id_of = λ t. t.transaction_id;
    fieldnames = fieldnames;
    to_row = transaction_to_row;
    of_row = row_to_transaction;
  }

  -- the operations of the module, on its cache and its file
  abbrev pub load : Action (Store Transaction) (List Transaction)
  load = Inventory.load codec

  abbrev pub get_by_id : ℕ → Store Transaction → Option Transaction
  get_by_id = Inventory.get_by_id codec

  abbrev pub create : Transaction → Store Transaction → Transaction × Store Transaction
  create = Inventory.create codec

  abbrev pub update : Transaction → Store Transaction → Transaction × Store Transaction
  update = Inventory.update codec

  abbrev pub delete_by_id : ℕ → Store Transaction → Bool × Store Transaction
  delete_by_id = Inventory.delete_by_id codec

  abbrev pub rewrite_csv : Store Transaction → Store Transaction
  rewrite_csv = Inventory.rewrite_csv codec
