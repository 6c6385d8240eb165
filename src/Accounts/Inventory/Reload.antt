-- ===== src/Accounts/Inventory/Reload.antt =====
-- What a reload of the CSV file makes of an account.
use stream_house_c360_demo.Prelude.{[], ◌∷◌, ◌≡◌, ◌≢◌, refl, some}
use stream_house_c360_demo.Scalars.{Date, Datetime, Formats, RoundTrips}
use stream_house_c360_demo.Inventory.Csv.{write_row, zip_row, cell, column}
use stream_house_c360_demo.Inventory.Fields.{nullable_lem, defaulted_lem, required_lem}
use stream_house_c360_demo.Inventory.{line}
use stream_house_c360_demo.Accounts.Models.{Account}
use stream_house_c360_demo.Accounts.Inventory.{
  optional_text, Row, fieldnames, account_to_row, row_to_account, codec,
}

-- the texts that may not be empty
pub record HasTexts (a : Account) : Type 0 where
  pub account_number : a.account_number ≢ ""
  pub account_type : a.account_type ≢ ""
  pub currency : a.currency ≢ ""
  pub status : a.status ≢ ""

module _ (f : Formats) (now : Datetime) (today : Date) where
  -- The account comes back with the id that belongs to its number and with new timestamps.
  abbrev pub reloaded : Account → Account
  reloaded a = record a {
    account_id = f.uuid5 a.account_number;
    created_at = now;
    updated_at = now;
  }

  -- the row that the line of an account is read as
  abbrev columns : Account → Row
  columns a =
      ("customer_id", some (f.uuid_text a.customer_id))
      ∷ ("account_number", some a.account_number)
      ∷ ("account_type", some a.account_type)
      ∷ ("currency", some a.currency)
      ∷ ("balance", some (f.float_text a.balance))
      ∷ ("credit_limit", some (optional_text f.float_text a.credit_limit))
      ∷ ("opened_date", some (f.date_text a.opened_date))
      ∷ ("closed_date", some (optional_text f.date_text a.closed_date))
      ∷ ("status", some a.status)
      ∷ []

  line-columns : (a : Account) → zip_row fieldnames (line (codec f now today) a) ≡ columns a
  unfolding zip_row write_row cell account_to_row
  line-columns a = refl

  pub row_to_account-line :
      (laws : RoundTrips f) (a : Account)
      → HasTexts a
      → row_to_account f now today (zip_row fieldnames (line (codec f now today) a))
        ≡ some (reloaded a)
  unfolding row_to_account column
  row_to_account-line laws a h =
      let row = columns a in
      rw (line-columns a, row_to_account)
        (rw (
          required_lem f.uuid_of "customer_id" row refl (laws.uuid_nonempty _) (laws.uuid _),
          required_lem some "account_number" row refl h.account_number refl,
          required_lem some "account_type" row refl h.account_type refl,
          defaulted_lem some "currency" row "USD" refl h.currency refl,
          defaulted_lem f.float_of "balance" row _ refl (laws.float_nonempty _) (laws.float _),
          nullable_lem f.float_of "credit_limit" row f.float_text a.credit_limit refl
              laws.float_nonempty laws.float,
          defaulted_lem f.date_of "opened_date" row today refl (laws.date_nonempty _) (laws.date _),
          nullable_lem f.date_of "closed_date" row f.date_text a.closed_date refl laws.date_nonempty
              laws.date,
          defaulted_lem some "status" row "ACTIVE" refl h.status refl,
        ))
