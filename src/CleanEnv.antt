-- ===== src/CleanEnv.antt =====
-- clean_env.py: the reset of the demo environment. The Kafka admin client and the Schema Registry
-- client answer each call given the calls before it.
pub mod Confirmed
use Prim.Native.String.{◌++◌ as str_append}
use stream_house_c360_demo.Prelude.{
  ℕ, String, Bool, true, false, not, ◌&&◌, ◌||◌, Option, none, some, List, [], ◌∷◌, str_eq,
  if◌then◌else◌, ◌==◌, truthy,
}
use stream_house_c360_demo.Prelude.Effect.{
  Error, Result, ok, err, Action, pure, raise, ◌>>=◌, ◌>>◌, runtime_error,
}
use stream_house_c360_demo.Config.{Settings, is_set}
use stream_house_c360_demo.Database.{Pool, cursor}
use stream_house_c360_demo.DbSink.{Server, join, concat}
use stream_house_c360_demo.Kafka.{ClientConf, client_conf}

-- `_TABLES`
abbrev pub tables : List String
tables = "transactions" ∷ "accounts" ∷ "customers" ∷ []

-- `_topics`
abbrev pub topics : Settings → List String
topics s = s.kafka_topic_customers ∷ s.kafka_topic_accounts ∷ s.kafka_topic_transactions ∷ []

pub data Call : Type 0 where
  delete_topics_call : ClientConf → List String → Call
  soft_delete hard_delete : String → Call

-- how the deletion of a topic ends
pub data Deletion : Type 0 where
  deleted unknown_topic : Deletion
  kafka_error : Error → Deletion

-- The status of a `SchemaRegistryError`, or `none` if a call succeeds.
pub record Client : Type 0 where
  pub topic_result : List Call → String → Deletion
  pub subject_error : List Call → Call → Option ℕ
  pub registry_error : ℕ → Error

pub record World (T : Type 0) : Type 0 where
  pub db : Pool T
  pub calls : List Call

pub record Args : Type 0 where
  pub skip_db : Bool
  pub skip_kafka : Bool
  pub drop_tables : Bool
  pub delete_schemas : Bool
  pub yes : Bool

-- `_confirm`, with the answer to the prompt; `normal` strips and lowers it.
unfoldable pub confirm : (String → String) → Args → String → Bool
confirm normal args answer = args.yes || str_eq (normal answer) "yes"

module _ {T R : Type 0} (server : Server T R) (client : Client) (settings : Settings)
    (fault_of_connect : Pool T → Option Error) (fault_of_commit : T → Option Error) where
  unfoldable pub drop_all : List String → Action T (Unit {0})
  drop_all [] = pure tt
  drop_all (table ∷ more) = do
    server.execute (concat ("DROP TABLE IF EXISTS " ∷ table ∷ " CASCADE" ∷ [])) []
    drop_all more

  abbrev pub truncate_all : Action T (Unit {0})
  truncate_all =
      server.execute (concat ("TRUNCATE TABLE " ∷ join tables ∷ " RESTART IDENTITY CASCADE" ∷ []))
        []
      >> pure tt

  abbrev pub on_db : {A : Type 0} → Action (Pool T) A → Action (World T) A
  on_db m w = let (r, d) = m w.db in (r, record w { db = d })

  unfoldable pub clean_database : Bool → Action (World T) (Unit {0})
  clean_database drop = on_db (
      cursor settings.database_url fault_of_connect fault_of_commit true
        (if drop then drop_all tables else truncate_all))

  abbrev pub unless_unknown : Deletion → Action (World T) (Unit {0})
  unless_unknown deleted = pure tt
  unless_unknown unknown_topic = pure tt
  unless_unknown (kafka_error e) = raise e

  -- the loop over the futures; an unknown topic is skipped
  unfoldable pub await_all : List String → Action (World T) (Unit {0})
  await_all [] = pure tt
  await_all (topic ∷ more) = do
    (λ w. unless_unknown (client.topic_result w.calls topic) w)
    await_all more

  abbrev pub record_call : Call → Action (World T) (Unit {0})
  record_call call w = (ok tt, record w { calls = call ∷ w.calls })

  unfoldable pub delete_topics : Action (World T) (Unit {0})
  delete_topics =
      if is_set settings.kafka_bootstrap_servers
      then record_call (delete_topics_call (client_conf settings) (topics settings))
        >> await_all (topics settings)
      else raise runtime_error

  -- the call's `SchemaRegistryError`, or what follows
  abbrev pub unless_error : Option ℕ → Action (World T) (Option ℕ) → Action (World T) (Option ℕ)
  unless_error none next = next
  unless_error (some status) next = pure (some status)

  abbrev pub delete_call : Call → Action (World T) (Option ℕ)
  delete_call call w = (ok (client.subject_error w.calls call), record w { calls = call ∷ w.calls })

  abbrev pub unless_404 : Option ℕ → Action (World T) (Unit {0})
  unless_404 none = pure tt
  unless_404 (some status) = if status == 404 then pure tt else raise (client.registry_error status)

  -- soft, then hard; a missing subject is skipped
  unfoldable pub delete_subject : String → Action (World T) (Unit {0})
  delete_subject subject = do
    soft ← delete_call (soft_delete subject)
    status ← unless_error soft (delete_call (hard_delete subject))
    unless_404 status

  unfoldable pub delete_subjects : List String → Action (World T) (Unit {0})
  delete_subjects [] = pure tt
  delete_subjects (topic ∷ more) = do
    delete_subject (str_append topic "-key")
    delete_subject (str_append topic "-value")
    delete_subjects more

  unfoldable pub delete_schemas : Action (World T) (Unit {0})
  delete_schemas =
      if is_set settings.schema_registry_url
      then delete_subjects (topics settings)
      else raise runtime_error

  abbrev pub when : Bool → Action (World T) (Unit {0}) → Action (World T) (Unit {0})
  when true m = m
  when false m = pure tt

  unfoldable pub clean : Args → Action (World T) ℕ
  clean args = do
    when (not args.skip_db) (clean_database args.drop_tables)
    when (not args.skip_kafka) (delete_topics >> when args.delete_schemas delete_schemas)
    pure 0

  -- `main` with its exit status; `parser.error` exits with 2
  unfoldable pub main : (String → String) → Args → String → Action (World T) ℕ
  main normal args answer =
      if args.skip_db && args.skip_kafka
      then pure 2
      else if not args.skip_db && not (is_set settings.database_url)
      then pure 2
      else if confirm normal args answer
      then clean args
      else pure 1
