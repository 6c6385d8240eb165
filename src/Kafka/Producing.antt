-- ===== src/Kafka/Producing.antt =====
-- What an event does to the trace of calls: a producer is opened once, and what a consumer of the
-- topic holds under a key follows the events.
use stream_house_c360_demo.Prelude.{
  refl, ℕ, suc, String, ◌≡◌, Bool, true, false, Option, none, some, List, [], ◌∷◌, arith, str_eq,
  if◌then◌else◌,
}
use stream_house_c360_demo.Prelude.Effect.{Result, ok, err}
use stream_house_c360_demo.Config.{Settings}
use stream_house_c360_demo.Kafka.{
  Key, Call, open_registry, create_topics, lookup_schema, register_schema, open_producer, produce,
  flush, poll, Reply, done, failed, Client, Bus, Events, send, ensure_topic, ensure_schema,
  ensure_kafka_resources, init_producer, ready_producer, get_producer, client_conf, submit,
  submit_all, produce_create_many, produce_event, build_envelope,
}

abbrev pub same_key : Key → Key → Bool
same_key j k = str_eq j.1 k.1

module _ {V : Type 0} (client : Client V) where
  abbrev one_more : Reply → ℕ → ℕ
  one_more done n = suc n
  one_more (failed _) n = n

  -- how many producers were opened with success
  abbrev pub opened : List (Call V) → ℕ
  opened [] = 0
  opened (open_producer conf ∷ calls) =
      one_more (client.answer calls (open_producer conf)) (opened calls)
  opened (_ ∷ calls) = opened calls

  -- what an accepted change event leaves of a row
  abbrev latest : Reply → Bool → Option V → Option V → Option V
  latest done true after before = after
  latest _ _ after before = before

  -- The row that a consumer holds under a key, which takes `after` from each event that the client
  -- accepted: nothing after a delete. An event that the client accepts and then fails to deliver,
  -- which the delivery callback only logs, counts as one that the consumer got.
  abbrev pub published : Key → List (Call V) → Option V
  published key [] = none
  published key (produce topic k e ∷ calls) =
      latest (client.answer calls (produce topic k e)) (same_key k key) e.after
        (published key calls)
  published key (_ ∷ calls) = published key calls

  -- One producer has been opened if the module holds one, and none otherwise.
  abbrev pub IsOnce : Bus V → Type 0
  IsOnce b = opened b.calls ≡ (if b.ready then 1 else 0)

  -- neither a producer nor a row
  abbrev provisions : Call V → Bool
  provisions (open_producer conf) = false
  provisions (produce topic k e) = false
  provisions _ = true

  abbrev Same : Key → Bus V → Bus V → Type 0
  Same key b b' =
      (opened b'.calls ≡ opened b.calls)
      × (b'.ready ≡ b.ready)
      × (published key b'.calls ≡ published key b.calls)

  send-Same :
      (key : Key) (call : Call V) (b : Bus V)
      → provisions call ≡ true
      → Same key b (send client call b).1
  unfolding send
  send-Same key (open_producer conf) b h = cc
  send-Same key (produce topic k e) b h = cc
  send-Same key _ b h = ground arith

  ensure_topic-Same :
      (key : Key) (topic : String) (b : Bus V) → Same key b (ensure_topic client topic b).1
  unfolding ensure_topic
  ensure_topic-Same key topic b = ground (arith, send-Same key (create_topics topic) b refl)

  ensure_schema-Same :
      (key : Key) (subject : String) (b : Bus V) → Same key b (ensure_schema client subject b).1
  unfolding ensure_schema
  ensure_schema-Same key subject b = ground (
    arith,
    send-Same key (lookup_schema subject) b refl,
    send-Same key (register_schema subject) (send client (lookup_schema subject) b).1 refl,
  )

  ensure_kafka_resources-Same :
      (key : Key) (topic : String) (b : Bus V)
      → Same key b (ensure_kafka_resources client topic b).1
  unfolding ensure_kafka_resources
  ensure_kafka_resources-Same key topic b =
      grind (arith, ensure_topic-Same key, ensure_schema-Same key)

  module _ {A : Type 0} (events : Events A V) (settings : Settings) where
    abbrev succeeded : Result (Unit {0}) → ℕ
    succeeded (ok _) = 1
    succeeded (err _) = 0

    send-open_producer :
        (key : Key) (b : Bus V)
        → opened b.calls ≡ 0
        → let (r, b') = send client (open_producer (client_conf settings)) b in
          (opened b'.calls ≡ succeeded r)
          × (b'.ready ≡ b.ready)
          × (published key b'.calls ≡ published key b.calls)
    unfolding send
    send-open_producer key b h = ground arith

    init_producer_lem :
        (key : Key) (b : Bus V)
        → opened b.calls ≡ 0
        → let (r, b') = init_producer events client settings b in
          (opened b'.calls ≡ succeeded r)
          × (b'.ready ≡ b.ready)
          × (published key b'.calls ≡ published key b.calls)
    unfolding init_producer
    init_producer_lem key b h = grind (
      arith,
      send-Same key (open_registry settings.schema_registry_url) b refl,
      ensure_kafka_resources-Same key (events.topic settings),
      send-open_producer key,
    )

    ready_producer-IsOnce :
        (key : Key) (ready : Bool) (b : Bus V)
        → b.ready ≡ ready
        → IsOnce b
        → let (r, b') = ready_producer events client settings ready b in
          IsOnce b' × (published key b'.calls ≡ published key b.calls)
    unfolding ready_producer
    ready_producer-IsOnce key true b e h = (h, refl)
    ready_producer-IsOnce key false b e h = ground (arith, init_producer_lem key b)

    -- `produce` and `flush` open nothing
    send-IsOnce :
        (call : Call V) (b : Bus V)
        → ((calls : List (Call V)) → opened (call ∷ calls) ≡ opened calls)
        → IsOnce b
        → IsOnce (send client call b).1
    unfolding send
    send-IsOnce call b same h = ground (arith, same b.calls)

    submit-IsOnce :
        (a : A) (op : String) (b : Bus V)
        → IsOnce b
        → IsOnce (submit events client settings a op b).1
    unfolding submit
    submit-IsOnce a op b h = send-IsOnce (produce _ _ _) b (λ calls. refl) h

    submit_all-IsOnce :
        (entities : List A) (b : Bus V)
        → IsOnce b
        → IsOnce (submit_all events client settings entities b).1
    unfolding submit_all
    submit_all-IsOnce [] b h = h
    submit_all-IsOnce (a ∷ more) b h = grind (
      arith,
      submit-IsOnce a "c" b h,
      λ (b' : Bus V). send-IsOnce poll b' (λ calls. refl),
      submit_all-IsOnce more,
    )

    pub produce_event-IsOnce :
        (a : A) (op : String) (timeout : Option ℕ) (b : Bus V)
        → IsOnce b
        → IsOnce (produce_event events client settings a op timeout b).1
    unfolding produce_event get_producer
    produce_event-IsOnce a op timeout b h = grind (
      arith,
      ready_producer-IsOnce ("", "") b.ready b refl h,
      submit-IsOnce a op,
      λ (b' : Bus V). send-IsOnce (flush timeout) b' (λ calls. refl),
    )

    pub produce_create_many-IsOnce :
        (entities : List A) (timeout : Option ℕ) (b : Bus V)
        → IsOnce b
        → IsOnce (produce_create_many events client settings entities timeout b).1
    unfolding produce_create_many get_producer
    produce_create_many-IsOnce entities timeout b h = grind (
      arith,
      ready_producer-IsOnce ("", "") b.ready b refl h,
      submit_all-IsOnce entities,
      λ (b' : Bus V). send-IsOnce (flush timeout) b' (λ calls. refl),
    )

    -- the row that an event leaves under its key
    abbrev pub row_after : A → String → Option V
    row_after a op = if str_eq op "d" then none else some (events.value_of a)

    submit-published :
        (key : Key) (a : A) (op : String) (b : Bus V)
        → (submit events client settings a op b).0 ≡ ok tt
        → published key (submit events client settings a op b).1.calls
          ≡ (if same_key (events.key_of a) key then row_after a op else published key b.calls)
    unfolding submit send build_envelope
    submit-published key a op b h = ground arith

    flush-published :
        (key : Key) (timeout : Option ℕ) (b : Bus V)
        → published key (send client (flush timeout) b).1.calls ≡ published key b.calls
    unfolding send
    flush-published key timeout b = ground arith

    -- After an event that was sent without an exception, the row under its key is the entity's
    -- value, or nothing if it is a delete; the row under any other key is what it was. The rows are
    -- those of a consumer that gets each event that the client accepted.
    pub produce_event-published :
        (key : Key) (a : A) (op : String) (timeout : Option ℕ) (b : Bus V)
        → IsOnce b
        → (produce_event events client settings a op timeout b).0 ≡ ok tt
        → published key (produce_event events client settings a op timeout b).1.calls
          ≡ (if same_key (events.key_of a) key then row_after a op else published key b.calls)
    unfolding produce_event get_producer
    produce_event-published key a op timeout b once sent =
        let b1 = (ready_producer events client settings b.ready b).1 in
        let b2 = (submit events client settings a op b1).1 in
        ground (
          arith,
          ready_producer-IsOnce key b.ready b refl once,
          submit-published key a op b1,
          flush-published key timeout b2,
        )
