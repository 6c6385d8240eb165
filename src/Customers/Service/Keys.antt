-- ===== src/Customers/Service/Keys.antt =====
-- The events of customers are keyed by the customer's id.
use stream_house_c360_demo.Prelude.{ℕ, refl}
use stream_house_c360_demo.Scalars.{Datetime, Formats, RoundTrips}
use stream_house_c360_demo.Scalars.Uuids.{uuid_text-same}
use stream_house_c360_demo.Kafka.{Key}
use stream_house_c360_demo.Dispatch.Replica.{IsKeyed}
use stream_house_c360_demo.Customers.Service.{customer_entity, make, merge}

abbrev pub customer_key : Formats → ℕ → Key
customer_key f id = ("customer_id", f.uuid_text id)

pub customer_entity-IsKeyed :
    (f : Formats) (now : Datetime) → RoundTrips f → IsKeyed (customer_entity f now) (customer_key f)
unfolding make merge
customer_entity-IsKeyed f now laws = record {
  key_of_id = λ a. refl;
  key_injective = uuid_text-same f laws;
  make_id = λ fields id at. refl;
  merge_id = λ a fields at. refl;
}
