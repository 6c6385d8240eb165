-- ===== src/Customers/Inventory.antt =====
-- customers/inventory.py: the customer rows of the CSV file, and the inventory of customers.
pub mod Reload
use Prim.Native.String.{◌++◌ as str_append}
use stream_house_c360_demo.Prelude.{
  text_or_empty, ℕ, String, Bool, Option, none, some, List, [], ◌∷◌, truthy, keep, if◌then◌else◌,
}
use stream_house_c360_demo.Scalars.{Datetime, Formats}
use stream_house_c360_demo.Prelude.Effect.{Action}
use stream_house_c360_demo.Inventory
use stream_house_c360_demo.Inventory.{Codec, Store}
use stream_house_c360_demo.Inventory.Csv.{Row}
use stream_house_c360_demo.Inventory.Fields.{◌>>=◌, required, defaulted, nullable, optional_text}
use stream_house_c360_demo.Customers.Models.{Customer}

abbrev pub fieldnames : List String
fieldnames =
    "customer_id" ∷ "first_name" ∷ "last_name" ∷ "email" ∷ "phone" ∷ "date_of_birth" ∷ "gender"
    ∷ "address_line1" ∷ "address_line2" ∷ "city" ∷ "state" ∷ "postal_code" ∷ "country"
    ∷ "customer_since" ∷ "segment" ∷ "status" ∷ "created_at" ∷ "updated_at" ∷ []

-- The formats, and what `datetime.now` returns for a column that is missing.
module _ (f : Formats) (now : Datetime) where
  -- `_customer_to_row`
  unfoldable pub customer_to_row : Customer → List (String × String)
  customer_to_row c =
      ("customer_id", f.uuid_text c.customer_id)
      ∷ ("first_name", c.first_name)
      ∷ ("last_name", c.last_name)
      ∷ ("email", c.email)
      ∷ ("phone", text_or_empty c.phone)
      ∷ ("date_of_birth", optional_text f.datetime_text c.date_of_birth)
      ∷ ("gender", text_or_empty c.gender)
      ∷ ("address_line1", text_or_empty c.address_line1)
      ∷ ("address_line2", text_or_empty c.address_line2)
      ∷ ("city", text_or_empty c.city)
      ∷ ("state", text_or_empty c.state)
      ∷ ("postal_code", text_or_empty c.postal_code)
      ∷ ("country", c.country)
      ∷ ("customer_since", f.datetime_text c.customer_since)
      ∷ ("segment", text_or_empty c.segment)
      ∷ ("status", c.status)
      ∷ ("created_at", f.datetime_text c.created_at)
      ∷ ("updated_at", f.datetime_text c.updated_at)
      ∷ []

  -- `_row_to_customer`
  unfoldable pub row_to_customer : Row → Option Customer
  row_to_customer row = do
    customer_id ← required f.uuid_of "customer_id" row
    first_name ← required some "first_name" row
    last_name ← required some "last_name" row
    email ← required some "email" row
    phone ← nullable some "phone" row
    date_of_birth ← nullable f.datetime_of "date_of_birth" row
    gender ← nullable some "gender" row
    address_line1 ← nullable some "address_line1" row
    address_line2 ← nullable some "address_line2" row
    city ← nullable some "city" row
    state ← nullable some "state" row
    postal_code ← nullable some "postal_code" row
    country ← defaulted some "US" "country" row
    customer_since ← defaulted f.datetime_of now "customer_since" row
    segment ← nullable some "segment" row
    status ← defaulted some "ACTIVE" "status" row
    created_at ← required f.datetime_of "created_at" row
    updated_at ← required f.datetime_of "updated_at" row
    some (record {
      first_name = first_name;
      last_name = last_name;
      email = email;
      phone = phone;
      date_of_birth = date_of_birth;
      gender = gender;
      address_line1 = address_line1;
      address_line2 = address_line2;
      city = city;
      state = state;
      postal_code = postal_code;
      country = country;
      customer_since = customer_since;
      segment = segment;
      status = status;
      customer_id = customer_id;
      created_at = created_at;
      updated_at = updated_at;
    })

  abbrev pub codec : Codec Customer
  codec = record {
    id_of = λ c. c.customer_id;
    fieldnames = fieldnames;
    to_row = customer_to_row;
    of_row = row_to_customer;
  }

  -- the operations of the module, on its cache and its file
  abbrev pub load : Action (Store Customer) (List Customer)
  load = Inventory.load codec

  abbrev pub get_by_id : ℕ → Store Customer → Option Customer
  get_by_id = Inventory.get_by_id codec

  abbrev pub create : Customer → Store Customer → Customer × Store Customer
  create = Inventory.create codec

  abbrev pub update : Customer → Store Customer → Customer × Store Customer
  update = Inventory.update codec

  abbrev pub delete_by_id : ℕ → Store Customer → Bool × Store Customer
  delete_by_id = Inventory.delete_by_id codec

  abbrev pub rewrite_csv : Store Customer → Store Customer
  rewrite_csv = Inventory.rewrite_csv codec

-- `str.strip`, `str.lower` and `a in b` of the standard library
pub record TextSearch : Type 0 where
  pub strip : String → String
  pub lower : String → String
  pub occurs_in : String → String → Bool

module _ (t : TextSearch) where
  -- `f"{c.first_name} {c.last_name}".lower()`
  abbrev pub full_name : Customer → String
  full_name c = t.lower (str_append c.first_name (str_append " " c.last_name))

  unfoldable pub get_by_name : String → Store Customer → List Customer
  get_by_name name s =
      let needle = t.lower (t.strip name) in
      if truthy needle then keep (λ c. t.occurs_in needle (full_name c)) s.cache else []
