-- ===== src/Chat/Service.antt =====
-- chat/service.py and api/chat_resource.py. `strip` is `str.strip`.
pub mod Answers
use Prim.Native.String.{◌++◌ as str_append}
use stream_house_c360_demo.Prelude.{
  String, Bool, true, false, ◌&&◌, Option, none, some, str_eq, if◌then◌else◌,
}
use stream_house_c360_demo.Config.{Settings, is_set, rtce_mcp_url}
use stream_house_c360_demo.Chat.Agent.{Env, Cache, run_agent, evict}
use stream_house_c360_demo.Chat.Models.{ChatRequest, ChatResponse, WelcomeResponse}
use stream_house_c360_demo.Chat.Conversations.{Client, Bus, Draws, produce_turn}

-- the session cache and the conversation producer
pub record World : Type 0 where
  pub cache : Cache
  pub bus : Bus

abbrev pub no_answer : String
no_answer = "(no answer)"

abbrev pub error_reply : String
error_reply = "Sorry — I couldn't reach the assistant backend just now. Please try again."

-- `reply or "(no answer)"`
abbrev pub or_no_answer : String → String
or_no_answer reply = if str_eq reply "" then no_answer else reply

module _ (settings : Settings) (strip : String → String) where
  unfoldable pub get_welcome : WelcomeResponse
  get_welcome = record { prompt = settings.chat_first_prompt; source_mode = "stub" }

  -- `_live_ready`
  unfoldable pub live_ready : Bool
  live_ready =
      str_eq settings.chat_data_mode "live"
      && is_set settings.llm_base_url
      && is_set settings.llm_model
      && is_set (rtce_mcp_url settings)
      && is_set settings.confluent_global_key
      && is_set settings.confluent_global_secret

  -- `_stub_reply`
  unfoldable pub stub_reply : String → String
  stub_reply message = str_append "You asked: \"" (
      str_append message
        "\". The assistant is not connected yet — the real-time context engine over fct_c360_profile is wired up in the next step.")

  module _ (env : Env) (client : Client) where
    abbrev pub finish : Draws → ChatRequest → Option String × Cache → Bus → ChatResponse × World
    finish draws request (none, cache) bus = (
      record { reply = error_reply; source_mode = "error"; session_id = request.session_id },
      record { cache = cache; bus = bus },
    )
    finish draws request (some reply, cache) bus =
        let answer = or_no_answer reply in
        (
          record { reply = answer; source_mode = "live"; session_id = request.session_id },
          record {
            cache = cache;
            bus =
                (produce_turn client settings draws request.session_id (strip request.message)
                  answer settings.llm_model "live" bus).1;
          },
        )

    -- `get_reply`, which `post_chat` returns
    unfoldable pub get_reply : Draws → ChatRequest → World → ChatResponse × World
    get_reply draws request w =
        if live_ready
        then finish draws request (run_agent env request.session_id w.cache) w.bus
        else (
          record {
            reply = stub_reply (strip request.message);
            source_mode = "stub";
            session_id = request.session_id;
          },
          w,
        )

    unfoldable pub reset_session : String → World → Bool × World
    reset_session session_id w =
        let (there, cache) = evict env session_id w.cache in (there, record w { cache = cache })
