-- ===== src/Chat/Conversations.antt =====
-- chat/conversation_producer.py: the turns of live conversations as events on Kafka.
pub mod Turns
use Prim.Native.String.{◌++◌ as str_append}
use stream_house_c360_demo.Prelude.{
  ℕ, String, Bool, true, false, Option, none, some, List, [], ◌∷◌, if◌then◌else◌, ◌==◌,
}
use stream_house_c360_demo.Prelude.Effect.{
  Fault, registry_status, Error, kafka, Result, ok, err, Action, pure, raise, catch, ◌>>=◌, ◌>>◌,
}
use stream_house_c360_demo.Config.{Settings}
use stream_house_c360_demo.Kafka.{ClientConf, client_conf, Reply, done, failed}

-- `_build_event`
pub record ConversationEvent : Type 0 where
  pub event_id : String
  pub turn_id : String
  pub session_id : Option String
  pub type : String
  pub content : String
  pub ts_ms : ℕ
  pub model : Option String
  pub source_mode : Option String

-- the calls of the clients
pub data Call : Type 0 where
  open_registry : Option String → Call
  lookup_schema register_schema : String → Call
  open_producer : ClientConf → Call
  produce : String → Option String → ConversationEvent → Call
  flush : ℕ → Call

-- The calls before it, the latest first, decide how a call is answered and what time it is.
pub record Client : Type 0 where
  pub answer : List Call → Call → Reply
  pub time_ms : List Call → ℕ

-- `_producer is not None`, and the calls so far, the latest first.
pub record Bus : Type 0 where
  pub ready : Bool
  pub calls : List Call

-- the draws of `uuid4` for one turn
pub record Draws : Type 0 where
  pub turn_id : String
  pub request_id : String
  pub response_id : String

abbrev pub type_request : String
type_request = "request"

abbrev pub type_response : String
type_response = "response"

-- `_FLUSH_TIMEOUT_S`, in milliseconds
abbrev pub flush_timeout : ℕ
flush_timeout = 5000

module _ (client : Client) (settings : Settings) where
  unfoldable pub send : Call → Action Bus (Unit {0})
  send call b = elim (client.answer b.calls call) [
    | done ↦ (ok tt, record b { calls = call ∷ b.calls })
    | failed fault ↦ (err (kafka fault), record b { calls = call ∷ b.calls })
  ]

  -- `ensure_schema` of kafka_setup.py
  abbrev pub register_missing : String → Error → Action Bus (Unit {0})
  register_missing subject (kafka (registry_status status)) =
      if status == 404
      then send (register_schema subject)
      else raise (kafka (registry_status status))
  register_missing subject e = raise e

  unfoldable pub ensure_schema : String → Action Bus (Unit {0})
  ensure_schema subject = catch (send (lookup_schema subject)) (register_missing subject)

  -- `init_producer`: the topic is not created here
  unfoldable pub init_producer : Action Bus (Unit {0})
  init_producer = do
    send (open_registry settings.schema_registry_url)
    ensure_schema (str_append settings.kafka_topic_agent_conversations "-value")
    send (open_producer (client_conf settings))

  abbrev pub mark_ready : Action Bus (Unit {0})
  mark_ready b = (ok tt, record b { ready = true })

  unfoldable pub ready_producer : Bool → Action Bus (Unit {0})
  ready_producer true = pure tt
  ready_producer false = init_producer >> mark_ready

  unfoldable pub get_producer : Action Bus (Unit {0})
  get_producer b = ready_producer b.ready b

  -- `_produce_event`
  unfoldable pub produce_event :
      Option String
      → String
      → String
      → String
      → String
      → Option String
      → Option String
      → Action Bus (Unit {0})
  produce_event session_id event_id turn_id type content model source_mode b =
      send
        (produce settings.kafka_topic_agent_conversations session_id (record {
          event_id = event_id;
          turn_id = turn_id;
          session_id = session_id;
          type = type;
          content = content;
          ts_ms = client.time_ms b.calls;
          model = model;
          source_mode = source_mode;
        }))
        b

  unfoldable pub emit_turn :
      Draws → Option String → String → String → Option String → String → Action Bus (Unit {0})
  emit_turn draws session_id request_text response_text model source_mode = do
    get_producer
    produce_event session_id draws.request_id draws.turn_id type_request request_text none none
    produce_event session_id draws.response_id draws.turn_id type_response response_text model
        (some source_mode)
    send (flush flush_timeout)

  -- `produce_turn`; an exception is logged and dropped
  unfoldable pub produce_turn :
      Draws → Option String → String → String → Option String → String → Action Bus (Unit {0})
  produce_turn draws session_id request_text response_text model source_mode =
      if settings.chat_produce_conversations
      then catch (emit_turn draws session_id request_text response_text model source_mode)
          (λ e. pure tt)
      else pure tt
