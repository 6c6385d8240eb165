-- ===== src/Customers/Service.antt =====
-- customers/service.py: an instance of Dispatch.antt, with the search by name added.
pub mod Keys
use stream_house_c360_demo.Prelude.{ℕ, Bool, String, Option, List, str_eq, if◌then◌else◌}
use stream_house_c360_demo.Prelude.Effect.{ok, Action}
use stream_house_c360_demo.Config.{Settings}
use stream_house_c360_demo.Scalars.{Datetime, Formats}
use stream_house_c360_demo.Kafka.{Client}
use stream_house_c360_demo.Dispatch
use stream_house_c360_demo.Dispatch.{Change, Entity, Sink, World, on_db, given, given_opt}
use stream_house_c360_demo.Customers.Models.{Customer, CustomerCreate, CustomerUpdate}
use stream_house_c360_demo.Customers.Inventory.{codec, TextSearch, get_by_name}
use stream_house_c360_demo.Customers.Producer.{CustomerValue, customer_events}

-- `Customer(customer_id=…, created_at=now, updated_at=now, **data.model_dump())`
unfoldable pub make : CustomerCreate → ℕ → Datetime → Customer
make fields id now = record {
  first_name = fields.first_name;
  last_name = fields.last_name;
  email = fields.email;
  phone = fields.phone;
  date_of_birth = fields.date_of_birth;
  gender = fields.gender;
  address_line1 = fields.address_line1;
  address_line2 = fields.address_line2;
  city = fields.city;
  state = fields.state;
  postal_code = fields.postal_code;
  country = fields.country;
  customer_since = fields.customer_since;
  segment = fields.segment;
  status = fields.status;
  customer_id = id;
  created_at = now;
  updated_at = now;
}

-- `existing.model_copy(update={fields that are not None, "updated_at": now})`
unfoldable pub merge : Customer → CustomerUpdate → Datetime → Customer
merge c fields now = record c {
  first_name = given fields.first_name c.first_name;
  last_name = given fields.last_name c.last_name;
  email = given fields.email c.email;
  phone = given_opt fields.phone c.phone;
  date_of_birth = given_opt fields.date_of_birth c.date_of_birth;
  gender = given_opt fields.gender c.gender;
  address_line1 = given_opt fields.address_line1 c.address_line1;
  address_line2 = given_opt fields.address_line2 c.address_line2;
  city = given_opt fields.city c.city;
  state = given_opt fields.state c.state;
  postal_code = given_opt fields.postal_code c.postal_code;
  country = given fields.country c.country;
  customer_since = given fields.customer_since c.customer_since;
  segment = given_opt fields.segment c.segment;
  status = given fields.status c.status;
  updated_at = now;
}

module _ (f : Formats) (now : Datetime) where
  abbrev pub customer_entity : Entity Customer CustomerValue CustomerCreate CustomerUpdate
  customer_entity = record {
    codec = codec f now;
    events = customer_events f;
    make = make;
    merge = merge;
  }

  module _ {D : Type 0} (sink : Sink D Customer CustomerCreate CustomerUpdate)
      (client : Client CustomerValue) (settings : Settings) where
    abbrev pub create : CustomerCreate → ℕ → Action (World D Customer CustomerValue) Customer
    create fields id = Dispatch.create customer_entity sink client settings fields id now

    abbrev pub update :
        ℕ → CustomerUpdate → Action (World D Customer CustomerValue) (Option Customer)
    update id fields = Dispatch.update customer_entity sink client settings id fields now

    abbrev pub get_by_id : ℕ → Action (World D Customer CustomerValue) (Option Customer)
    get_by_id = Dispatch.get_by_id customer_entity sink client settings

    abbrev pub list_all : Action (World D Customer CustomerValue) (List Customer)
    list_all = Dispatch.list_all customer_entity sink client settings

    abbrev pub maybe_emit : Change → Customer → Action (World D Customer CustomerValue) (Unit {0})
    maybe_emit = Dispatch.maybe_emit customer_entity sink client settings

    abbrev pub delete_by_id : ℕ → Action (World D Customer CustomerValue) Bool
    delete_by_id id = Dispatch.delete_by_id customer_entity sink client settings id

-- `get_by_name`, over `db_sink.get_by_name`
unfoldable pub find_by_name :
    {D : Type 0} (t : TextSearch) (in_db : String → Action D (List Customer)) (settings : Settings)
    (name : String)
    → Action (World D Customer CustomerValue) (List Customer)
find_by_name t in_db settings name =
    if str_eq settings.sink "postgres" then on_db (in_db name) else λ w.
    (ok (get_by_name t name w.inventory), w)
