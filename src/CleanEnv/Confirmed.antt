-- ===== src/CleanEnv/Confirmed.antt =====
-- Nothing is deleted without a confirmation, and nothing on Kafka that is to be skipped.
use stream_house_c360_demo.Prelude.{ℕ, String, ◌≡◌, true, false, Option, arith, ◌⊎◌}
use stream_house_c360_demo.Prelude.Effect.{Error, ok, Action}
use stream_house_c360_demo.Config.{Settings}
use stream_house_c360_demo.Database.{Pool}
use stream_house_c360_demo.DbSink.{Server}
use stream_house_c360_demo.CleanEnv.{Args, Client, World, confirm, main, clean, clean_database}

module _ {T R : Type 0} (server : Server T R) (client : Client) (settings : Settings)
    (fault_of_connect : Pool T → Option Error) (fault_of_commit : T → Option Error) where
  abbrev run : (String → String) → Args → String → Action (World T) ℕ
  run = main server client settings fault_of_connect fault_of_commit

  -- Without `--yes` and without the answer "yes" neither the database nor a topic or schema is
  -- touched, and the exit status is 1 or 2.
  pub main_unconfirmed :
      (normal : String → String) (args : Args) (answer : String) (w : World T)
      → confirm normal args answer ≡ false
      → ((run normal args answer w).1 ≡ w)
        × (((run normal args answer w).0 ≡ ok 1) ⊎ ((run normal args answer w).0 ≡ ok 2))
  unfolding main
  main_unconfirmed normal args answer w c = ground arith

  -- With `--skip-kafka` no call reaches Kafka or the Schema Registry.
  pub main-skip_kafka :
      (normal : String → String) (args : Args) (answer : String) (w : World T)
      → args.skip_kafka ≡ true
      → (run normal args answer w).1.calls ≡ w.calls
  unfolding main clean clean_database
  main-skip_kafka normal args answer w s = ground arith
