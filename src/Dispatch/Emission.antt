-- ===== src/Dispatch/Emission.antt =====
-- The PostgreSQL path: the database alone decides the outcome, and events follow it.
use stream_house_c360_demo.Prelude.{
  if◌then◌else◌, ℕ, ◌≡◌, refl, Bool, true, false, Option, none, some, arith, str_eq,
}
use stream_house_c360_demo.Prelude.Effect.{Result, ok, err, Action, ◌>>=◌}
use stream_house_c360_demo.Config.{Settings, owns_cdc}
use stream_house_c360_demo.Scalars.{Datetime}
use stream_house_c360_demo.Kafka.{Bus, Client, produce_event}
use stream_house_c360_demo.Dispatch.{
  emit_if_found, emit_if_deleted, Entity, Sink, World, Change, created, updated, deleted, op_of,
  emit_flush_timeout, maybe_emit, create, create_in_postgres, update, update_in_postgres,
  delete_by_id, delete_in_postgres,
}

module _ {D A V C U : Type 0} (entity : Entity A V C U) (sink : Sink D A C U) (client : Client V)
    (settings : Settings) (uses_postgres : str_eq settings.sink "postgres" ≡ true) where
  -- the action returns, and touches the producer's state at most
  abbrev IsQuiet : Action (World D A V) (Unit {0}) → Type 0
  IsQuiet m =
      (w : World D A V)
      → ((m w).0 ≡ ok tt) × ((m w).1.db ≡ w.db) × ((m w).1.inventory ≡ w.inventory)

  maybe_emit-IsQuiet :
      (change : Change) (a : A) → IsQuiet (maybe_emit entity sink client settings change a)
  unfolding maybe_emit
  maybe_emit-IsQuiet change a w = ground arith

  emit_if_found-IsQuiet : (a : Option A) → IsQuiet (emit_if_found entity sink client settings a)
  emit_if_found-IsQuiet none w = (refl, refl, refl)
  emit_if_found-IsQuiet (some a) w = maybe_emit-IsQuiet updated a w

  emit_if_deleted-IsQuiet :
      (gone : Bool) (a : Option A) → IsQuiet (emit_if_deleted entity sink client settings gone a)
  emit_if_deleted-IsQuiet true (some a) w = maybe_emit-IsQuiet deleted a w
  emit_if_deleted-IsQuiet true none w = (refl, refl, refl)
  emit_if_deleted-IsQuiet false a w = (refl, refl, refl)

  -- the reads and the deletion of a delete request, on the database alone
  abbrev pub deletion : ℕ → Action D Bool
  deletion id = sink.get_by_id id >>= λ a. sink.delete_by_id id

  -- the operation agrees with the sink on the result and the database, and leaves the inventory
  abbrev pub Decides : {B : Type 0} → Action D B → Action (World D A V) B → World D A V → Type 0
  Decides on_sink operation w =
      ((operation w).0 ≡ (on_sink w.db).0)
      × ((operation w).1.db ≡ (on_sink w.db).1)
      × ((operation w).1.inventory ≡ w.inventory)

  create-Decides :
      (fresh : C) (id : ℕ) (now : Datetime) (w : World D A V)
      → Decides (sink.create fresh id now) (create entity sink client settings fresh id now) w
  unfolding create create_in_postgres
  create-Decides fresh id now w = rw uses_postgres (grind (arith, maybe_emit-IsQuiet created))

  update-Decides :
      (fields : U) (id : ℕ) (now : Datetime) (w : World D A V)
      → Decides (sink.update id fields) (update entity sink client settings id fields now) w
  unfolding update update_in_postgres
  update-Decides fields id now w = rw uses_postgres (grind (arith, emit_if_found-IsQuiet))

  delete_by_id-Decides :
      (id : ℕ) (w : World D A V)
      → Decides (deletion id) (delete_by_id entity sink client settings id) w
  unfolding delete_by_id delete_in_postgres
  delete_by_id-Decides id w = rw uses_postgres (grind (arith, emit_if_deleted-IsQuiet))

  -- With SINK=postgres each operation returns what the sink returns and leaves the database as the
  -- sink leaves it, whatever the Kafka clients answer, and does not touch the inventory.
  pub postgres-Decides :
      (fresh : C) (fields : U) (id : ℕ) (now : Datetime) (w : World D A V)
      → Decides (sink.create fresh id now) (create entity sink client settings fresh id now) w
        × Decides (sink.update id fields) (update entity sink client settings id fields now) w
        × Decides (deletion id) (delete_by_id entity sink client settings id) w
  postgres-Decides fresh fields id now w =
      (create-Decides fresh id now w, update-Decides fields id now w, delete_by_id-Decides id w)

  -- the change that a request made in the database, by what the sink returned
  abbrev pub change_of_create : Result A → Option (Change × A)
  change_of_create (ok a) = some (created, a)
  change_of_create (err e) = none

  abbrev pub change_of_update : Result (Option A) → Option (Change × A)
  change_of_update (ok (some a)) = some (updated, a)
  change_of_update _ = none

  abbrev pub change_of_delete : Result (Option A) → Result Bool → Option (Change × A)
  change_of_delete (ok (some a)) (ok true) = some (deleted, a)
  change_of_delete _ _ = none

  -- The producer's state after a change: no call at all if a CDC connector owns the topics or if
  -- production is off, and else one event with a bounded flush.
  abbrev pub deliver : Option (Change × A) → Bus V → Bus V
  deliver none b = b
  deliver (some (change, a)) b =
      if owns_cdc settings
      then b
      else if settings.kafka_produce_enabled
      then (produce_event entity.events client settings a (op_of change) (some emit_flush_timeout)
          b).1
      else b

  maybe_emit-deliver :
      (change : Change) (a : A) (w : World D A V)
      → (maybe_emit entity sink client settings change a w).1.bus ≡ deliver (some (change, a)) w.bus
  unfolding maybe_emit
  maybe_emit-deliver change a w = ground arith

  create-deliver :
      (fresh : C) (id : ℕ) (now : Datetime) (w : World D A V)
      → (create entity sink client settings fresh id now w).1.bus
        ≡ deliver (change_of_create (sink.create fresh id now w.db).0) w.bus
  unfolding create create_in_postgres
  create-deliver fresh id now w =
      rw uses_postgres (grind (arith, maybe_emit-IsQuiet created, maybe_emit-deliver created))

  emit_if_found-deliver :
      (a : Option A) (w : World D A V)
      → (emit_if_found entity sink client settings a w).1.bus
        ≡ deliver (change_of_update (ok a)) w.bus
  emit_if_found-deliver none w = refl
  emit_if_found-deliver (some a) w = maybe_emit-deliver updated a w

  update-deliver :
      (fields : U) (id : ℕ) (now : Datetime) (w : World D A V)
      → (update entity sink client settings id fields now w).1.bus
        ≡ deliver (change_of_update (sink.update id fields w.db).0) w.bus
  unfolding update update_in_postgres
  update-deliver fields id now w =
      rw uses_postgres (grind (arith, emit_if_found-IsQuiet, emit_if_found-deliver))

  emit_if_deleted-deliver :
      (gone : Bool) (a : Option A) (w : World D A V)
      → (emit_if_deleted entity sink client settings gone a w).1.bus
        ≡ deliver (change_of_delete (ok a) (ok gone)) w.bus
  emit_if_deleted-deliver true (some a) w = maybe_emit-deliver deleted a w
  emit_if_deleted-deliver true none w = refl
  emit_if_deleted-deliver false none w = refl
  emit_if_deleted-deliver false (some a) w = refl

  delete_by_id-deliver :
      (id : ℕ) (w : World D A V)
      → let (found, d) = sink.get_by_id id w.db in
        (delete_by_id entity sink client settings id w).1.bus
        ≡ deliver (change_of_delete found (sink.delete_by_id id d).0) w.bus
  unfolding delete_by_id delete_in_postgres
  delete_by_id-deliver id w =
      rw uses_postgres (grind (arith, emit_if_deleted-IsQuiet, emit_if_deleted-deliver))

  -- With SINK=postgres a request sends at most one event, about the row that the sink returned: a
  -- create event if the sink created it, an update event if the sink found it, a delete event with
  -- the row read before if the sink deleted it. Nothing is sent if the sink fails or finds
  -- nothing, if a CDC connector owns the topics, or if production is off.
  pub postgres_emits :
      (fresh : C) (fields : U) (id : ℕ) (now : Datetime) (w : World D A V)
      → let (found, d) = sink.get_by_id id w.db in
        ((create entity sink client settings fresh id now w).1.bus
          ≡ deliver (change_of_create (sink.create fresh id now w.db).0) w.bus)
        × ((update entity sink client settings id fields now w).1.bus
            ≡ deliver (change_of_update (sink.update id fields w.db).0) w.bus)
        × ((delete_by_id entity sink client settings id w).1.bus
            ≡ deliver (change_of_delete found (sink.delete_by_id id d).0) w.bus)
  postgres_emits fresh fields id now w =
      (create-deliver fresh id now w, update-deliver fields id now w, delete_by_id-deliver id w)
