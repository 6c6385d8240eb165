-- ===== src/Chat/Conversations/Turns.antt =====
-- What a turn sends.
use stream_house_c360_demo.Prelude.{ℕ, String, ◌≡◌, true, Option, none, some, List, ◌∷◌, arith}
use stream_house_c360_demo.Prelude.Effect.{ok}
use stream_house_c360_demo.Config.{Settings}
use stream_house_c360_demo.Kafka.{done}
use stream_house_c360_demo.Chat.Conversations.{
  ConversationEvent, Call, produce, flush, Client, Bus, Draws, send, produce_event, get_producer,
  ready_producer, emit_turn, produce_turn, type_request, type_response, flush_timeout,
}

module _ (client : Client) (settings : Settings) (draws : Draws) (session_id : Option String)
    (request_text response_text : String) (model : Option String) (mode : String) where
  abbrev topic : String
  topic = settings.kafka_topic_agent_conversations

  abbrev request_event : ℕ → ConversationEvent
  request_event ts = record {
    event_id = draws.request_id;
    turn_id = draws.turn_id;
    session_id = session_id;
    type = type_request;
    content = request_text;
    ts_ms = ts;
    model = none;
    source_mode = none;
  }

  abbrev response_event : ℕ → ConversationEvent
  response_event ts = record {
    event_id = draws.response_id;
    turn_id = draws.turn_id;
    session_id = session_id;
    type = type_response;
    content = response_text;
    ts_ms = ts;
    model = model;
    source_mode = some mode;
  }

  abbrev with_request : List Call → List Call
  with_request calls = produce topic session_id (request_event (client.time_ms calls)) ∷ calls

  abbrev with_response : List Call → List Call
  with_response calls = produce topic session_id (response_event (client.time_ms calls)) ∷ calls

  -- `produce_turn` returns, whatever the Kafka clients answer.
  pub produce_turn_ok :
      (b : Bus)
      → (produce_turn client settings draws session_id request_text response_text model mode b).0
        ≡ ok tt
  unfolding produce_turn
  produce_turn_ok b = ground arith

  -- With a producer and clients that fail no call, a turn sends its request, then its response under
  -- the same turn and key, and then flushes for five seconds at most.
  pub produce_turn-calls :
      (b : Bus)
      → settings.chat_produce_conversations ≡ true
      → b.ready ≡ true
      → ((calls : List Call) (call : Call) → client.answer calls call ≡ done)
      → (produce_turn client settings draws session_id request_text response_text model mode
          b).1.calls
        ≡ flush flush_timeout ∷ with_response (with_request b.calls)
  unfolding produce_turn emit_turn produce_event get_producer ready_producer send
  produce_turn-calls b on r h = ground (
    arith,
    h b.calls (produce topic session_id (request_event (client.time_ms b.calls))),
    h (with_request b.calls)
        (produce topic session_id (response_event (client.time_ms (with_request b.calls)))),
    h (with_response (with_request b.calls)) (flush flush_timeout),
  )
