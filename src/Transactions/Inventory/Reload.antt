-- ===== src/Transactions/Inventory/Reload.antt =====
-- What a reload of the CSV file makes of a transaction.
use stream_house_c360_demo.Prelude.{
  ℕ, String, ◌≡◌, ◌≢◌, refl, some, [], ◌∷◌, text_or_empty, str_eq_ne, arith,
}
use stream_house_c360_demo.Scalars.{Datetime, Formats, RoundTrips}
use stream_house_c360_demo.Inventory.{line}
use stream_house_c360_demo.Inventory.Csv.{Row, write_row, zip_row, cell, column, clean}
use stream_house_c360_demo.Inventory.Fields.{
  required_lem, defaulted_lem, nullable_lem, nullable_text_lem, optional_text,
}
use stream_house_c360_demo.Transactions.Models.{Transaction}
use stream_house_c360_demo.Transactions.Inventory.{
  fieldnames, cleaned, transaction_to_row, row_to_transaction, account_id_of, transaction_id_of,
  created_at_of, codec,
}

-- the texts that may not be empty
pub record HasTexts (t : Transaction) : Type 0 where
  pub transaction_type : t.transaction_type ≢ ""
  pub currency : t.currency ≢ ""
  pub status : t.status ≢ ""

-- An optional text that is empty comes back as `None`; all else is unchanged.
abbrev pub reloaded : Transaction → Transaction
reloaded t = record t {
  description = clean t.description;
  merchant_name = clean t.merchant_name;
  merchant_category = clean t.merchant_category;
  channel = clean t.channel;
}

-- a cell with a text, by `cleaned.get`
cleaned_lem :
    (name : String) (row : Row) {text : String}
    → column name row ≡ some (some text)
    → text ≢ ""
    → cleaned name row ≡ some text
unfolding cleaned
cleaned_lem name row {text} e h = ground (arith, str_eq_ne text "" h)

module _ (f : Formats) (now : Datetime) where
  -- the row that the line of a transaction is read as
  abbrev columns : Transaction → Row
  columns t =
      ("transaction_id", some (f.uuid_text t.transaction_id))
      ∷ ("account_id", some (f.uuid_text t.account_id))
      ∷ ("customer_id", some (f.uuid_text t.customer_id))
      ∷ ("transaction_type", some t.transaction_type)
      ∷ ("amount", some (f.float_text t.amount))
      ∷ ("currency", some t.currency)
      ∷ ("description", some (text_or_empty t.description))
      ∷ ("merchant_name", some (text_or_empty t.merchant_name))
      ∷ ("merchant_category", some (text_or_empty t.merchant_category))
      ∷ ("channel", some (text_or_empty t.channel))
      ∷ ("status", some t.status)
      ∷ ("transacted_at", some (f.datetime_text t.transacted_at))
      ∷ ("posted_at", some (optional_text f.datetime_text t.posted_at))
      ∷ ("created_at", some (f.datetime_text t.created_at))
      ∷ []

  line-columns : (t : Transaction) → zip_row fieldnames (line (codec f now) t) ≡ columns t
  unfolding zip_row write_row cell transaction_to_row
  line-columns t = refl

  account_id_of_lem :
      (row : Row) {text : String} {id : ℕ}
      → column "account_id" row ≡ some (some text)
      → text ≢ ""
      → f.uuid_of text ≡ some id
      → account_id_of f now row ≡ some id
  unfolding account_id_of
  account_id_of_lem row {text} e h p = ground (arith, str_eq_ne text "" h)

  transaction_id_of_lem :
      (row : Row) {text : String} {id : ℕ}
      → column "transaction_id" row ≡ some (some text)
      → text ≢ ""
      → f.uuid_of text ≡ some id
      → transaction_id_of f now row ≡ some id
  unfolding transaction_id_of
  transaction_id_of_lem row e h p = ground (arith, cleaned_lem "transaction_id" row e h)

  created_at_of_lem :
      (row : Row) {text : String} {t : Datetime}
      → column "created_at" row ≡ some (some text)
      → text ≢ ""
      → f.datetime_of text ≡ some t
      → created_at_of f now row ≡ some t
  unfolding created_at_of
  created_at_of_lem row e h p = ground (arith, cleaned_lem "created_at" row e h)

  pub row_to_transaction-line :
      (laws : RoundTrips f) (t : Transaction)
      → HasTexts t
      → row_to_transaction f now (zip_row fieldnames (line (codec f now) t)) ≡ some (reloaded t)
  unfolding row_to_transaction column
  row_to_transaction-line laws t h =
      let row = columns t in
      rw (line-columns t, row_to_transaction)
        (rw (
          account_id_of_lem row refl (laws.uuid_nonempty _) (laws.uuid _),
          required_lem f.uuid_of "customer_id" row refl (laws.uuid_nonempty _) (laws.uuid _),
          required_lem some "transaction_type" row refl h.transaction_type refl,
          required_lem f.float_of "amount" row refl (laws.float_nonempty _) (laws.float _),
          defaulted_lem some "currency" row "USD" refl h.currency refl,
          nullable_text_lem "description" row t.description refl,
          nullable_text_lem "merchant_name" row t.merchant_name refl,
          nullable_text_lem "merchant_category" row t.merchant_category refl,
          nullable_text_lem "channel" row t.channel refl,
          defaulted_lem some "status" row "COMPLETED" refl h.status refl,
          defaulted_lem f.datetime_of "transacted_at" row now refl (laws.datetime_nonempty _)
              (laws.datetime _),
          nullable_lem f.datetime_of "posted_at" row f.datetime_text t.posted_at refl
              laws.datetime_nonempty laws.datetime,
          transaction_id_of_lem row refl (laws.uuid_nonempty _) (laws.uuid _),
          created_at_of_lem row refl (laws.datetime_nonempty _) (laws.datetime _),
        ))
