-- ===== src/Accounts/Service.antt =====
-- accounts/service.py: an instance of Dispatch.antt, with the close date and the accounts of a
-- customer added.
pub mod Updates
pub mod Keys
use stream_house_c360_demo.Prelude.{
  ℕ, String, Bool, true, false, not, ◌&&◌, Option, none, some, List, str_eq, ◌==◌, keep, is_some,
  if◌then◌else◌,
}
use stream_house_c360_demo.Prelude.Effect.{Result, ok, Action}
use stream_house_c360_demo.Config.{Settings}
use stream_house_c360_demo.Scalars.{Date, Datetime, Formats}
use stream_house_c360_demo.Kafka.{Client}
use stream_house_c360_demo.Dispatch
use stream_house_c360_demo.Dispatch.{Entity, Sink, World, on_db, given, given_opt}
use stream_house_c360_demo.Accounts.Models.{Account, AccountCreate, AccountUpdate}
use stream_house_c360_demo.Accounts.Inventory.{codec}
use stream_house_c360_demo.Accounts.Producer.{AccountValue, account_events}

-- `Account(account_id=…, created_at=now, updated_at=now, **data.model_dump())`
unfoldable pub make : AccountCreate → ℕ → Datetime → Account
make fields id now = record {
  customer_id = fields.customer_id;
  account_number = fields.account_number;
  account_type = fields.account_type;
  currency = fields.currency;
  balance = fields.balance;
  credit_limit = fields.credit_limit;
  opened_date = fields.opened_date;
  closed_date = fields.closed_date;
  status = fields.status;
  account_id = id;
  created_at = now;
  updated_at = now;
}

-- `existing.model_copy(update={fields that are not None, "updated_at": now})`
unfoldable pub merge : Account → AccountUpdate → Datetime → Account
merge a fields now = record a {
  customer_id = given fields.customer_id a.customer_id;
  account_number = given fields.account_number a.account_number;
  account_type = given fields.account_type a.account_type;
  currency = given fields.currency a.currency;
  balance = given fields.balance a.balance;
  credit_limit = given_opt fields.credit_limit a.credit_limit;
  opened_date = given fields.opened_date a.opened_date;
  closed_date = given_opt fields.closed_date a.closed_date;
  status = given fields.status a.status;
  updated_at = now;
}

-- `data.status == "CLOSED"`
abbrev pub closes : Option String → Bool
closes none = false
closes (some status) = str_eq status "CLOSED"

-- the close date that `update` stamps
unfoldable pub stamp_close : Date → AccountUpdate → AccountUpdate
stamp_close today fields =
    if closes fields.status && not (is_some fields.closed_date)
    then record fields { closed_date = some today }
    else fields

module _ (f : Formats) (now : Datetime) (today : Date) where
  abbrev pub account_entity : Entity Account AccountValue AccountCreate AccountUpdate
  account_entity = record {
    codec = codec f now today;
    events = account_events f;
    make = make;
    merge = merge;
  }

  module _ {D : Type 0} (sink : Sink D Account AccountCreate AccountUpdate)
      (client : Client AccountValue) (settings : Settings) where
    abbrev pub create : AccountCreate → ℕ → Action (World D Account AccountValue) Account
    create fields id = Dispatch.create account_entity sink client settings fields id now

    unfoldable pub update :
        ℕ → AccountUpdate → Action (World D Account AccountValue) (Option Account)
    update id fields =
        Dispatch.update account_entity sink client settings id (stamp_close today fields) now

    abbrev pub get_by_id : ℕ → Action (World D Account AccountValue) (Option Account)
    get_by_id = Dispatch.get_by_id account_entity sink client settings

    abbrev pub list_all : Action (World D Account AccountValue) (List Account)
    list_all = Dispatch.list_all account_entity sink client settings

    abbrev pub delete_by_id : ℕ → Action (World D Account AccountValue) Bool
    delete_by_id id = Dispatch.delete_by_id account_entity sink client settings id

-- `list_by_customer`, over `db_sink.get_by_customer`
unfoldable pub list_by_customer :
    {D : Type 0} (get_by_customer : ℕ → Action D (List Account)) (settings : Settings)
    (customer_id : ℕ)
    → Action (World D Account AccountValue) (List Account)
list_by_customer get_by_customer settings customer_id =
    if str_eq settings.sink "postgres" then on_db (get_by_customer customer_id) else λ w.
    (ok (keep (λ a. a.customer_id == customer_id) w.inventory.cache), w)
