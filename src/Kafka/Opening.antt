-- ===== src/Kafka/Opening.antt =====
-- When a producer module opens its producer, and that it keeps it.
use stream_house_c360_demo.Prelude.{
  ℕ, suc, ◌+◌, String, ◌≡◌, refl, Bool, true, false, not, ◌&&◌, ◌||◌, Option, List, [], ◌∷◌, arith,
  if◌then◌else◌,
}
use stream_house_c360_demo.Prelude.Effect.{Action, Result, ok, err}
use stream_house_c360_demo.Config.{Settings}
use stream_house_c360_demo.Kafka.{
  Call, open_registry, create_topics, lookup_schema, register_schema, open_producer, produce, poll,
  flush, Client, Bus, Events, send, ensure_topic, ensure_schema, ensure_kafka_resources,
  init_producer, ready_producer, get_producer, client_conf, submit, submit_all, produce_event,
  produce_create_many,
}
use stream_house_c360_demo.Kafka.Producing.{
  IsOnce, produce_event-IsOnce, produce_create_many-IsOnce,
}

-- how often a producer module went about opening a producer
abbrev pub tried : {V : Type 0} → List (Call V) → ℕ
tried [] = 0
tried (open_registry url ∷ calls) = suc (tried calls)
tried (_ ∷ calls) = tried calls

abbrev pub is_ok : Result (Unit {0}) → Bool
is_ok (ok _) = true
is_ok (err _) = false

module _ {V : Type 0} (client : Client V) where
  -- An action of a module that holds a producer goes about opening none, and of one that holds none
  -- goes about it once. A producer is held after it if one was held before or the action returned;
  -- and one was opened for the module if it holds one, and none otherwise.
  abbrev pub Opens : Action (Bus V) (Unit {0}) → Bus V → Type 0
  Opens m b =
      (tried (m b).1.calls ≡ tried b.calls + (if b.ready then 0 else 1))
      × (((b.ready || is_ok (m b).0) && not (m b).1.ready) ≡ false)
      × IsOnce client (m b).1

  abbrev Same : Bus V → Bus V → Type 0
  Same b b' = (tried b'.calls ≡ tried b.calls) × (b'.ready ≡ b.ready)

  send-Same :
      (call : Call V) (b : Bus V)
      → ((calls : List (Call V)) → tried (call ∷ calls) ≡ tried calls)
      → Same b (send client call b).1
  unfolding send
  send-Same call b h = ground (arith, h b.calls)

  ensure_topic-Same : (topic : String) (b : Bus V) → Same b (ensure_topic client topic b).1
  unfolding ensure_topic
  ensure_topic-Same topic b = ground (arith, send-Same (create_topics topic) b (λ calls. refl))

  ensure_schema-Same : (subject : String) (b : Bus V) → Same b (ensure_schema client subject b).1
  unfolding ensure_schema
  ensure_schema-Same subject b = ground (
    arith,
    send-Same (lookup_schema subject) b (λ calls. refl),
    send-Same (register_schema subject) (send client (lookup_schema subject) b).1 (λ calls. refl),
  )

  ensure_kafka_resources-Same :
      (topic : String) (b : Bus V) → Same b (ensure_kafka_resources client topic b).1
  unfolding ensure_kafka_resources
  ensure_kafka_resources-Same topic b = grind (arith, ensure_topic-Same, ensure_schema-Same)

  send-registry :
      (url : Option String) (b : Bus V)
      → (tried (send client (open_registry url) b).1.calls ≡ suc (tried b.calls))
        × ((send client (open_registry url) b).1.ready ≡ b.ready)
  unfolding send
  send-registry url b = ground arith

  module _ {A : Type 0} (events : Events A V) (settings : Settings) where
    init_producer-tried :
        (b : Bus V)
        → (tried (init_producer events client settings b).1.calls ≡ suc (tried b.calls))
          × ((init_producer events client settings b).1.ready ≡ b.ready)
    unfolding init_producer
    init_producer-tried b = grind (
      arith,
      send-registry settings.schema_registry_url b,
      ensure_kafka_resources-Same (events.topic settings),
      λ (b' : Bus V). send-Same (open_producer (client_conf settings)) b' (λ calls. refl),
    )

    -- what a module has once `get_producer` has run
    abbrev Holds : Action (Bus V) (Unit {0}) → Bus V → Type 0
    Holds m b =
        (tried (m b).1.calls ≡ tried b.calls + (if b.ready then 0 else 1))
        × (((b.ready || is_ok (m b).0) && not (m b).1.ready) ≡ false)

    ready_producer-Holds :
        (ready : Bool) (b : Bus V)
        → b.ready ≡ ready
        → Holds (ready_producer events client settings ready) b
    unfolding ready_producer
    ready_producer-Holds true b e = ground arith
    ready_producer-Holds false b e = ground (arith, init_producer-tried b)

    submit-Same :
        (a : A) (op : String) (b : Bus V) → Same b (submit events client settings a op b).1
    unfolding submit
    submit-Same a op b = send-Same (produce _ _ _) b (λ calls. refl)

    submit_all-Same :
        (entities : List A) (b : Bus V) → Same b (submit_all events client settings entities b).1
    unfolding submit_all
    submit_all-Same [] b = (refl, refl)
    submit_all-Same (a ∷ more) b =
        let b1 = (submit events client settings a "c" b).1 in
        let b2 = (send client poll b1).1 in
        ground
          (arith, submit-Same a "c" b, send-Same poll b1 (λ calls. refl), submit_all-Same more b2)

    produce_event-Holds :
        (a : A) (op : String) (timeout : Option ℕ) (b : Bus V)
        → Holds (produce_event events client settings a op timeout) b
    unfolding produce_event get_producer
    produce_event-Holds a op timeout b = grind (
      arith,
      ready_producer-Holds b.ready b refl,
      submit-Same a op,
      λ (b' : Bus V). send-Same (flush timeout) b' (λ calls. refl),
    )

    produce_create_many-Holds :
        (entities : List A) (timeout : Option ℕ) (b : Bus V)
        → Holds (produce_create_many events client settings entities timeout) b
    unfolding produce_create_many get_producer
    produce_create_many-Holds entities timeout b = grind (
      arith,
      ready_producer-Holds b.ready b refl,
      submit_all-Same entities,
      λ (b' : Bus V). send-Same (flush timeout) b' (λ calls. refl),
    )

    -- However the clients answer, both an event and a batch of events open a producer if the module
    -- holds none, and only then: each goes about it once, also after one that failed at it. Over all
    -- of them one producer is opened with success at most, and the module holds it from then on. After
    -- an event or a batch that returns it holds one.
    pub producing-Opens :
        (a : A) (op : String) (entities : List A) (timeout : Option ℕ) (b : Bus V)
        → IsOnce client b
        → Opens (produce_event events client settings a op timeout) b
          × Opens (produce_create_many events client settings entities timeout) b
    producing-Opens a op entities timeout b h =
        let (tried_one, held_one) = produce_event-Holds a op timeout b in
        let (tried_many, held_many) = produce_create_many-Holds entities timeout b in
        (
          (tried_one, held_one, produce_event-IsOnce client events settings a op timeout b h),
          (
            tried_many,
            held_many,
            produce_create_many-IsOnce client events settings entities timeout b h,
          ),
        )
