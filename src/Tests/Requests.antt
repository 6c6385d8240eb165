-- ===== src/Tests/Requests.antt =====
-- Requests for sample accounts, through both sinks, and their events.
use stream_house_c360_demo.Prelude.{
  ℕ, ◌≡◌, refl, Bool, true, Option, none, some, List, [], ◌∷◌, All,
}
use stream_house_c360_demo.Prelude.Effect.{pure, ◌>>◌, Action, ok}
use stream_house_c360_demo.Config.{Settings}
use stream_house_c360_demo.Scalars.{naive}
use stream_house_c360_demo.Kafka.{
  get_producer, ready_producer, init_producer, ensure_kafka_resources, ensure_topic, ensure_schema,
  submit, send, produce_event, Bus,
}
use stream_house_c360_demo.Inventory
use stream_house_c360_demo.Inventory.{Store}
use stream_house_c360_demo.Dispatch.{
  Change, created, updated, deleted, emit, delete_in_inventory, update_in_inventory,
  create_in_inventory, Entity, Sink, World, create, update, delete_by_id,
}
use stream_house_c360_demo.Dispatch.Replica.{
  deleting, creating, respond, Request, InStep, inventory-InStep,
}
use stream_house_c360_demo.Dispatch.Emission.{
  Decides, deletion, deliver, postgres-Decides, postgres_emits,
}
use stream_house_c360_demo.Accounts.Service
use stream_house_c360_demo.Accounts.Service.Updates.{HasCloseDate, update-HasCloseDate}
use stream_house_c360_demo.Accounts.Models.{Account, AccountCreate, AccountUpdate}
use stream_house_c360_demo.Accounts.Producer.{AccountValue}
use stream_house_c360_demo.Accounts.Service.{merge, make, account_entity}
use stream_house_c360_demo.Accounts.Service.Keys.{account_key, account_entity-IsKeyed}
use stream_house_c360_demo.Tests.Samples.{
  account_codec, formats, round_trips, settings_of, client, idle, account, account_create,
  account_close, one_account,
}

abbrev entity : Entity Account AccountValue AccountCreate AccountUpdate
entity = account_entity formats (naive 20) 740000

abbrev AccountWorld : Type 0
AccountWorld = World (List Account) Account AccountValue

-- a database that creates rows and finds the one account
abbrev sink : Sink (List Account) Account AccountCreate AccountUpdate
sink = record {
  create = λ fields id now rows. (ok (account "aaa" id), account "aaa" id ∷ rows);
  update = λ id fields rows. (ok (some (account "aa" id)), rows);
  get_by_id = λ id rows. (ok (some (account "aa" id)), rows);
  list_all = λ rows. (ok rows, rows);
  delete_by_id = λ id rows. (ok true, []);
}

abbrev empty_world : AccountWorld
empty_world = record { db = []; inventory = record { cache = []; file = [] }; bus = idle }

abbrev create_in : Settings → ℕ → Action AccountWorld Account
create_in settings id = create entity sink client settings account_create id (naive 30)

abbrev update_in : Settings → ℕ → Action AccountWorld (Option Account)
update_in settings id = update entity sink client settings id account_close (naive 30)

abbrev delete_in : Settings → ℕ → Action AccountWorld Bool
delete_in settings id = delete_by_id entity sink client settings id

abbrev StepIn : AccountWorld → Type 0
StepIn =
    InStep entity sink client (settings_of "kafka") (account_key formats)
      (account_entity-IsKeyed formats (naive 20) 740000 round_trips) refl

unused : (id : ℕ) → Inventory.get_by_id account_codec id empty_world.inventory ≡ none
unfolding Inventory.get_by_id Inventory.find
unused id = refl

empty_in_step : StepIn empty_world
unfolding Inventory.get_by_id Inventory.find
empty_in_step = record { once = refl; rows = λ id. refl }

abbrev kafka : Settings
kafka = settings_of "kafka"

-- what `create` leaves
abbrev next_world : AccountWorld
next_world = ((create_in kafka 7 >> pure tt) empty_world).1

created_first : ((create_in kafka 7 >> pure tt) empty_world).0 ≡ ok tt
unfolding create create_in_inventory update update_in_inventory delete_by_id delete_in_inventory
    emit make merge Inventory.create Inventory.update Inventory.replace Inventory.rewrite_csv
    Inventory.get_by_id Inventory.find Inventory.delete_by_id produce_event get_producer
    ready_producer init_producer ensure_kafka_resources ensure_topic ensure_schema submit send
created_first = refl

-- the deletion of the first account
deleted_next : ((delete_in kafka 7 >> pure tt) next_world).0 ≡ ok tt
unfolding create create_in_inventory update update_in_inventory delete_by_id delete_in_inventory
    emit make merge Inventory.create Inventory.update Inventory.replace Inventory.rewrite_csv
    Inventory.get_by_id Inventory.find Inventory.delete_by_id produce_event get_producer
    ready_producer init_producer ensure_kafka_resources ensure_topic ensure_schema submit send
deleted_next = refl

abbrev RequestIn : Type 0
RequestIn =
    Request entity sink client kafka (account_key formats)
      (account_entity-IsKeyed formats (naive 20) 740000 round_trips) refl

abbrev next_request : RequestIn
next_request = deleting 7

next_in_step : StepIn next_world
next_in_step =
    inventory-InStep entity sink client kafka (account_key formats)
      (account_entity-IsKeyed formats (naive 20) 740000 round_trips) refl
      (creating account_create 7) (naive 30) empty_world empty_in_step (unused 7) created_first

inventory-InStep_example :
    StepIn
      (respond entity sink client kafka
        (account_key formats)
        (account_entity-IsKeyed formats (naive 20) 740000 round_trips)
        refl
        next_request
        (naive 30)
        next_world).1
inventory-InStep_example =
    inventory-InStep entity sink client kafka (account_key formats)
      (account_entity-IsKeyed formats (naive 20) 740000 round_trips) refl next_request (naive 30)
      next_world next_in_step tt deleted_next

abbrev postgres : Settings
postgres = settings_of "postgres"

abbrev one_row : AccountWorld
one_row = record empty_world { db = account "aa" 7 ∷ [] }

abbrev DecidesIn : {B : Type 0} → Action (List Account) B → Action AccountWorld B → Type 0
DecidesIn on_sink operation = Decides entity sink client postgres refl on_sink operation one_row

postgres-Decides_example :
    DecidesIn (sink.create account_create 7 (naive 30)) (create_in postgres 7)
    × DecidesIn (sink.update 7 account_close) (update_in postgres 7)
    × DecidesIn (deletion entity sink client postgres refl 7) (delete_in postgres 7)
postgres-Decides_example =
    postgres-Decides entity sink client postgres refl account_create account_close 7 (naive 30)
      one_row

abbrev delivered : Option (Change × Account) → Bus AccountValue
delivered change = deliver entity sink client postgres refl change idle

postgres_emits_example :
    ((create_in postgres 7 one_row).1.bus ≡ delivered (some (created, account "aaa" 7)))
    × ((update_in postgres 7 one_row).1.bus ≡ delivered (some (updated, account "aa" 7)))
    × ((delete_in postgres 7 one_row).1.bus ≡ delivered (some (deleted, account "aa" 7)))
postgres_emits_example =
    postgres_emits entity sink client postgres refl account_create account_close 7 (naive 30)
      one_row

abbrev close_in : AccountWorld → AccountWorld
close_in w = (Service.update formats (naive 20) 740000 sink client kafka 7 account_close w).1

update-HasCloseDate_example :
    All HasCloseDate (close_in (record empty_world { inventory = one_account })).inventory.cache
update-HasCloseDate_example =
    update-HasCloseDate formats (naive 20) 740000 sink client kafka 7 account_close
      (record empty_world { inventory = one_account }) refl (refl, tt)
