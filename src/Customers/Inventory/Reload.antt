-- ===== src/Customers/Inventory/Reload.antt =====
-- What a reload of the CSV file makes of a customer.
use stream_house_c360_demo.Prelude.{text_or_empty, ◌≡◌, ◌≢◌, refl, some, [], ◌∷◌}
use stream_house_c360_demo.Scalars.{Datetime, Formats, RoundTrips}
use stream_house_c360_demo.Inventory.{line}
use stream_house_c360_demo.Inventory.Csv.{Row, write_row, zip_row, cell, column, clean}
use stream_house_c360_demo.Inventory.Fields.{
  required_lem, defaulted_lem, nullable_lem, nullable_text_lem, optional_text,
}
use stream_house_c360_demo.Customers.Models.{Customer}
use stream_house_c360_demo.Customers.Inventory.{fieldnames, customer_to_row, row_to_customer, codec}

-- the texts that may not be empty
pub record HasTexts (c : Customer) : Type 0 where
  pub first_name : c.first_name ≢ ""
  pub last_name : c.last_name ≢ ""
  pub email : c.email ≢ ""
  pub country : c.country ≢ ""
  pub status : c.status ≢ ""

-- An optional text that is empty comes back as `None`; all else is unchanged.
abbrev pub reloaded : Customer → Customer
reloaded c = record c {
  phone = clean c.phone;
  gender = clean c.gender;
  address_line1 = clean c.address_line1;
  address_line2 = clean c.address_line2;
  city = clean c.city;
  state = clean c.state;
  postal_code = clean c.postal_code;
  segment = clean c.segment;
}

module _ (f : Formats) (now : Datetime) where
  -- the row that the line of a customer is read as
  abbrev columns : Customer → Row
  columns c =
      ("customer_id", some (f.uuid_text c.customer_id))
      ∷ ("first_name", some (c.first_name))
      ∷ ("last_name", some (c.last_name))
      ∷ ("email", some (c.email))
      ∷ ("phone", some (text_or_empty c.phone))
      ∷ ("date_of_birth", some (optional_text f.datetime_text c.date_of_birth))
      ∷ ("gender", some (text_or_empty c.gender))
      ∷ ("address_line1", some (text_or_empty c.address_line1))
      ∷ ("address_line2", some (text_or_empty c.address_line2))
      ∷ ("city", some (text_or_empty c.city))
      ∷ ("state", some (text_or_empty c.state))
      ∷ ("postal_code", some (text_or_empty c.postal_code))
      ∷ ("country", some (c.country))
      ∷ ("customer_since", some (f.datetime_text c.customer_since))
      ∷ ("segment", some (text_or_empty c.segment))
      ∷ ("status", some (c.status))
      ∷ ("created_at", some (f.datetime_text c.created_at))
      ∷ ("updated_at", some (f.datetime_text c.updated_at))
      ∷ []

  line-columns : (c : Customer) → zip_row fieldnames (line (codec f now) c) ≡ columns c
  unfolding zip_row write_row cell customer_to_row
  line-columns c = refl

  pub row_to_customer-line :
      (laws : RoundTrips f) (c : Customer)
      → HasTexts c
      → row_to_customer f now (zip_row fieldnames (line (codec f now) c)) ≡ some (reloaded c)
  unfolding row_to_customer column
  row_to_customer-line laws c h =
      let row = columns c in
      rw (line-columns c, row_to_customer)
        (rw (
          required_lem f.uuid_of "customer_id" row refl (laws.uuid_nonempty _) (laws.uuid _),
          required_lem some "first_name" row refl h.first_name refl,
          required_lem some "last_name" row refl h.last_name refl,
          required_lem some "email" row refl h.email refl,
          nullable_text_lem "phone" row c.phone refl,
          nullable_lem f.datetime_of "date_of_birth" row f.datetime_text c.date_of_birth refl
              laws.datetime_nonempty laws.datetime,
          nullable_text_lem "gender" row c.gender refl,
          nullable_text_lem "address_line1" row c.address_line1 refl,
          nullable_text_lem "address_line2" row c.address_line2 refl,
          nullable_text_lem "city" row c.city refl,
          nullable_text_lem "state" row c.state refl,
          nullable_text_lem "postal_code" row c.postal_code refl,
          defaulted_lem some "country" row "US" refl h.country refl,
          defaulted_lem f.datetime_of "customer_since" row now refl (laws.datetime_nonempty _)
              (laws.datetime _),
          nullable_text_lem "segment" row c.segment refl,
          defaulted_lem some "status" row "ACTIVE" refl h.status refl,
          required_lem f.datetime_of "created_at" row refl (laws.datetime_nonempty _)
              (laws.datetime _),
          required_lem f.datetime_of "updated_at" row refl (laws.datetime_nonempty _)
              (laws.datetime _),
        ))
