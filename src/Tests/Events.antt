-- ===== src/Tests/Events.antt =====
-- The events of sample accounts, and how amounts and dates are encoded in them.
use Prim.Native.Nat.{◌^◌}
use stream_house_c360_demo.Prelude.{◌+◌, ◌≤◌, ◌*◌, ◌≡◌, refl, true, some, [], ◌∷◌, if◌then◌else◌}
use stream_house_c360_demo.Prelude.Effect.{Action, ok}
use stream_house_c360_demo.Config.{Settings}
use stream_house_c360_demo.Kafka.{
  Bus, Events, Key, get_producer, ready_producer, init_producer, ensure_kafka_resources,
  ensure_topic, ensure_schema, submit, send, produce_event, produce_create_many,
}
use stream_house_c360_demo.Kafka.Producing.{same_key, published, row_after, produce_event-published}
use stream_house_c360_demo.Kafka.Opening.{Opens, producing-Opens}
use stream_house_c360_demo.Kafka.Setup.{RegistersOnlyMissing, produce_event-RegistersOnlyMissing}
use stream_house_c360_demo.Scalars.{Float, money}
use stream_house_c360_demo.Scalars.Money.{money_nearest}
use stream_house_c360_demo.Accounts.Models.{Account}
use stream_house_c360_demo.Accounts.Producer.{AccountValue, account_events}
use stream_house_c360_demo.Tests.Samples.{formats, settings_of, client, idle, account}

abbrev events : Events Account AccountValue
events = account_events formats

abbrev kafka : Settings
kafka = settings_of "kafka"

abbrev delete_event : Action (Bus AccountValue) (Unit {0})
delete_event = produce_event events client kafka (account "aa" 7) "d" (some 5000)

abbrev key : Key
key = ("account_id", "aaaaaaa.")

sent : (delete_event idle).0 ≡ ok tt
unfolding produce_event get_producer ready_producer init_producer ensure_kafka_resources
    ensure_topic ensure_schema submit send
sent = refl

produce_event-published_example : published client key (delete_event idle).1.calls ≡ (
    if same_key (events.key_of (account "aa" 7)) key
    then row_after client events kafka (account "aa" 7) "d"
    else published {V = AccountValue} client key [])
produce_event-published_example =
    produce_event-published client events kafka key (account "aa" 7) "d" (some 5000) idle refl sent

abbrev create_events : Action (Bus AccountValue) (Unit {0})
create_events = produce_create_many events client kafka (account "aa" 7 ∷ []) (some 5000)

producing-Opens_example : Opens client delete_event idle × Opens client create_events idle
producing-Opens_example =
    producing-Opens client events kafka (account "aa" 7) "d" (account "aa" 7 ∷ []) (some 5000) idle
      refl

produce_event-RegistersOnlyMissing_example : RegistersOnlyMissing client (delete_event idle).1.calls
produce_event-RegistersOnlyMissing_example =
    produce_event-RegistersOnlyMissing client events kafka (account "aa" 7) "d" (some 5000) idle tt

-- 12.345, a tie
abbrev amount : Float
amount = record { negative = true; digits = 12345; places = 3 }

money_nearest_example :
    ((money amount).negative ≡ true)
    × (2 * (12345 * 100) ≤ 2 * ((money amount).cents * 10 ^ 3) + 10 ^ 3)
    × (2 * ((money amount).cents * 10 ^ 3) ≤ 2 * (12345 * 100) + 10 ^ 3)
money_nearest_example = money_nearest amount
