-- ===== src/Tests/Turns.antt =====
-- A live turn of the assistant over a cache with one session.
use stream_house_c360_demo.Prelude.{String, ◌≡◌, true, some, [], ◌∷◌}
use stream_house_c360_demo.Config.{Settings, rtce_mcp_url}
use stream_house_c360_demo.Kafka.{done}
use stream_house_c360_demo.Chat.Models.{ChatRequest}
use stream_house_c360_demo.Chat.Agent.{
  Env, run_agent, attempts, attempt, get_or_create, lookup, close_all, collect_evictable,
  split_expired, trim,
}
use stream_house_c360_demo.Chat.Conversations.{
  Client, Draws, produce_turn, emit_turn, get_producer, ready_producer,
}
use stream_house_c360_demo.Chat.Service.{World, get_reply, live_ready}
use stream_house_c360_demo.Chat.Service.Answers.{turn, get_reply-Answers}
use stream_house_c360_demo.Tests.Samples.{settings_of}

abbrev settings : Settings
settings = record (settings_of "postgres") {
  chat_data_mode = "live";
  chat_produce_conversations = true;
  llm_base_url = some "http://localhost";
  llm_model = some "model";
  cloud_region = some "us-east-1";
  cloud_provider = some "aws";
  flink_org_id = some "org";
  flink_env_id = some "env";
  kafka_cluster_id = some "lkc";
  confluent_global_key = some "key";
  confluent_global_secret = some "secret";
}

abbrev strip : String → String
strip s = s

abbrev env : Env
env = record { now = λ t. t; interfere = λ s. s; connects = λ t. true; answers = λ t. some "42" }

abbrev client : Client
client = record { answer = λ calls call. done; time_ms = λ calls. 7 }

abbrev world : World
world = record {
  cache = record {
    sessions = ("s1", record { conn = 3; last_used = 0 }) ∷ [];
    open_conns = 3 ∷ [];
    next_conn = 4;
    in_hand = [];
    ticks = 0;
  };
  bus = record { ready = true; calls = [] };
}

abbrev draws : Draws
draws = record { turn_id = "t"; request_id = "q"; response_id = "a" }

abbrev request : ChatRequest
request = record { message = "How many?"; history = []; session_id = some "s1" }

live_turn : get_reply settings strip env client draws request world ≡ (
  record { reply = "42"; source_mode = "live"; session_id = some "s1" },
  record {
    cache = (run_agent env (some "s1") world.cache).1;
    bus = turn settings strip env client draws request (some "42") world.bus;
  },
)
unfolding live_ready run_agent produce_turn rtce_mcp_url attempts emit_turn attempt get_producer
    get_or_create ready_producer lookup close_all collect_evictable split_expired trim
live_turn = get_reply-Answers settings strip env client draws request world
