-- ===== src/Accounts/Service/Keys.antt =====
-- The events of accounts are keyed by the account's id.
use stream_house_c360_demo.Prelude.{ℕ, refl}
use stream_house_c360_demo.Scalars.{Date, Datetime, Formats, RoundTrips}
use stream_house_c360_demo.Scalars.Uuids.{uuid_text-same}
use stream_house_c360_demo.Kafka.{Key}
use stream_house_c360_demo.Dispatch.Replica.{IsKeyed}
use stream_house_c360_demo.Accounts.Service.{account_entity, make, merge}

abbrev pub account_key : Formats → ℕ → Key
account_key f id = ("account_id", f.uuid_text id)

pub account_entity-IsKeyed :
    (f : Formats) (now : Datetime) (today : Date)
    → RoundTrips f
    → IsKeyed (account_entity f now today) (account_key f)
unfolding make merge
account_entity-IsKeyed f now today laws = record {
  key_of_id = λ a. refl;
  key_injective = uuid_text-same f laws;
  make_id = λ fields id at. refl;
  merge_id = λ a fields at. refl;
}
