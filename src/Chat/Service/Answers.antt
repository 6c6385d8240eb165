-- ===== src/Chat/Service/Answers.antt =====
-- What the assistant answers: always something, and by which path.
use stream_house_c360_demo.Prelude.{
  String, ◌≡◌, refl, Option, none, some, if◌then◌else◌, Bool-cases, inl, inr,
}
use stream_house_c360_demo.Config.{Settings}
use stream_house_c360_demo.Chat.Agent.{Env, Cache, run_agent}
use stream_house_c360_demo.Chat.Models.{ChatRequest}
use stream_house_c360_demo.Chat.Conversations.{produce_turn, Client, Bus, Draws}
use stream_house_c360_demo.Chat.Service.{
  World, live_ready, finish, get_reply, or_no_answer, error_reply, stub_reply,
}

-- the path of an answer, by what the agent did
abbrev pub mode_of : Option String → String
mode_of none = "error"
mode_of (some reply) = "live"

abbrev pub shown : Option String → String
shown none = error_reply
shown (some reply) = or_no_answer reply

module _ (settings : Settings) (strip : String → String) (env : Env) (client : Client) where
  -- what a turn leaves on Kafka
  abbrev pub turn : Draws → ChatRequest → Option String → Bus → Bus
  turn draws request none bus = bus
  turn draws request (some reply) bus =
      (produce_turn client settings draws request.session_id (strip request.message)
        (or_no_answer reply) settings.llm_model "live" bus).1

  finish_lem :
      (draws : Draws) (request : ChatRequest) (reply : Option String) (cache : Cache) (bus : Bus)
      → finish settings strip env client draws request (reply, cache) bus ≡ (
        record {
          reply = shown reply;
          source_mode = mode_of reply;
          session_id = request.session_id;
        },
        record { cache = cache; bus = turn draws request reply bus },
      )
  finish_lem draws request none cache bus = refl
  finish_lem draws request (some reply) cache bus = refl

  -- Every question is answered, under its own session: by the stub, which touches neither the
  -- sessions nor Kafka, unless the live mode has all its settings; else with the agent's answer,
  -- whose turn is sent to Kafka, or with an apology and nothing sent if the agent failed.
  pub get_reply-Answers :
      (draws : Draws) (request : ChatRequest) (w : World)
      → let run = run_agent env request.session_id w.cache in
        let live = live_ready settings strip in
        get_reply settings strip env client draws request w ≡ (
          record {
            reply = if live then shown run.0 else stub_reply settings strip (strip request.message);
            source_mode = if live then mode_of run.0 else "stub";
            session_id = request.session_id;
          },
          record {
            cache = if live then run.1 else w.cache;
            bus = if live then turn draws request run.0 w.bus else w.bus;
          },
        )
  unfolding get_reply
  get_reply-Answers draws request w = elim (Bool-cases (live_ready settings strip)) [
    | inl live ↦ rw live (
        finish_lem draws request (run_agent env request.session_id w.cache).0
          (run_agent env request.session_id w.cache).1 w.bus)
    | inr stub ↦ rw stub refl
  ]
