-- ===== src/Kafka/Setup.antt =====
-- What provisioning does to the Schema Registry: a schema is registered only if it is missing.
use stream_house_c360_demo.Prelude.{refl, String, ◌≡◌, List, [], ◌∷◌, arith}
use stream_house_c360_demo.Prelude.Effect.{Keeps, registry_status}
use stream_house_c360_demo.Kafka.{
  client_conf, open_producer, flush, produce, true, ready_producer, false, Bool, submit,
  open_registry, ℕ, Option, get_producer, send, produce_event, init_producer, Settings, Events,
  Call, lookup_schema, register_schema, failed, Client, Bus, ensure_topic, ensure_schema,
  ensure_kafka_resources,
}

module _ {V : Type 0} (client : Client V) where
  -- The call before a registration is a lookup of the same subject, answered by status 404.
  abbrev IsAnsweredMissing : String → List (Call V) → Type 0
  IsAnsweredMissing subject [] = ⊥
  IsAnsweredMissing subject (call ∷ calls) =
      (call ≡ lookup_schema subject)
      × (client.answer calls (lookup_schema subject) ≡ failed (registry_status 404))

  -- Every registration of a schema comes right after the registry said that it is missing.
  abbrev pub RegistersOnlyMissing : List (Call V) → Type 0
  RegistersOnlyMissing [] = Unit
  RegistersOnlyMissing (register_schema subject ∷ calls) =
      IsAnsweredMissing subject calls × RegistersOnlyMissing calls
  RegistersOnlyMissing (_ ∷ calls) = RegistersOnlyMissing calls

  abbrev Registers : Bus V → Type 0
  Registers b = RegistersOnlyMissing b.calls

  ensure_topic-Registers :
      (topic : String) (b : Bus V) → Registers b → Registers (ensure_topic client topic b).1
  unfolding ensure_topic send
  ensure_topic-Registers topic b h = ground arith

  ensure_schema-Registers :
      (subject : String) (b : Bus V) → Registers b → Registers (ensure_schema client subject b).1
  unfolding ensure_schema send
  ensure_schema-Registers subject b h = ground arith

  ensure_kafka_resources-Registers :
      (topic : String) (b : Bus V)
      → Registers b
      → Registers (ensure_kafka_resources client topic b).1
  unfolding ensure_kafka_resources
  ensure_kafka_resources-Registers topic b h =
      grind (arith, ensure_topic-Registers, ensure_schema-Registers)

  module _ {A : Type 0} (events : Events A V) (settings : Settings) where
    abbrev registers : Call V → Bool
    registers (register_schema subject) = true
    registers _ = false

    send-Registers : (call : Call V) → registers call ≡ false → Keeps Registers (send client call)
    unfolding send
    send-Registers (register_schema subject) e b h = cc
    send-Registers _ e b h = ground arith

    init_producer-Registers : Keeps Registers (init_producer events client settings)
    unfolding init_producer
    init_producer-Registers b h = grind (
      arith,
      send-Registers (open_registry settings.schema_registry_url) refl b h,
      ensure_kafka_resources-Registers (events.topic settings),
      send-Registers (open_producer (client_conf settings)) refl,
    )

    ready_producer-Registers :
        (ready : Bool) → Keeps Registers (ready_producer events client settings ready)
    unfolding ready_producer
    ready_producer-Registers true b h = h
    ready_producer-Registers false b h = ground (arith, init_producer-Registers b h)

    submit-Registers : (a : A) (op : String) → Keeps Registers (submit events client settings a op)
    unfolding submit
    submit-Registers a op b = send-Registers (produce _ _ _) refl b

    -- Whatever the clients answer, a producer that is made on the way included: if every schema
    -- registered so far was reported missing just before, that still holds after an event.
    pub produce_event-RegistersOnlyMissing :
        (a : A) (op : String) (timeout : Option ℕ) (b : Bus V)
        → RegistersOnlyMissing b.calls
        → RegistersOnlyMissing (produce_event events client settings a op timeout b).1.calls
    unfolding produce_event get_producer
    produce_event-RegistersOnlyMissing a op timeout b h = grind (
      arith,
      ready_producer-Registers b.ready b h,
      submit-Registers a op,
      send-Registers (flush timeout) refl,
    )
