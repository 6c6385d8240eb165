-- ===== src/Dispatch.antt =====
-- What accounts/service.py and customers/service.py have in common: each operation goes to the
-- PostgreSQL sink or to the CSV inventory, by `settings.SINK`, and sends a change event. The two
-- modules are instances, given by an `Entity`.
pub mod Emission
pub mod Replica
use stream_house_c360_demo.Prelude.{
  ℕ, String, Bool, true, false, not, Option, none, some, List, str_eq, is_some, if◌then◌else◌,
}
use stream_house_c360_demo.Prelude.Effect.{Error, Result, ok, err, Action, pure, catch, ◌>>=◌, ◌>>◌}
use stream_house_c360_demo.Config.{Settings, owns_cdc}
use stream_house_c360_demo.Scalars.{Datetime}
use stream_house_c360_demo.Kafka.{
  Bus, Client, Events, produce_event, op_create, op_update, op_delete,
}
use stream_house_c360_demo.Inventory
use stream_house_c360_demo.Inventory.{Codec, Store}

-- A field of an update that is not `None`, and else the old one.
abbrev pub given {ℓ} : {A : Type ℓ} → Option A → A → A
given none old = old
given (some a) old = a

abbrev pub given_opt {ℓ} : {A : Type ℓ} → Option A → Option A → Option A
given_opt none old = old
given_opt (some a) old = some a

-- An entity `A` with its event values `V`, its data on creation `C` and its update `U`.
pub record Entity (A V C U : Type 0) : Type 0 where
  pub codec : Codec A
  pub events : Events A V
  -- `Account(account_id=…, created_at=now, updated_at=now, **data.model_dump())`
  pub make : C → ℕ → Datetime → A
  -- `existing.model_copy(update={fields that are not None, "updated_at": now})`
  pub merge : A → U → Datetime → A

-- The functions of a db_sink module, over a database `D`. `create` is given the UUID and the time
-- that it would make.
pub record Sink (D A C U : Type 0) : Type 0 where
  pub create : C → ℕ → Datetime → Action D A
  pub update : ℕ → U → Action D (Option A)
  pub get_by_id : ℕ → Action D (Option A)
  pub list_all : Action D (List A)
  pub delete_by_id : ℕ → Action D Bool

-- the database, the inventory module's state, and the producer module's state
pub record World (D A V : Type 0) : Type 0 where
  pub db : D
  pub inventory : Store A
  pub bus : Bus V

module _ {D A V B : Type 0} where
  abbrev pub on_db : Action D B → Action (World D A V) B
  on_db m w = let (r, d) = m w.db in (r, record w { db = d })

  abbrev pub on_bus : Action (Bus V) B → Action (World D A V) B
  on_bus m w = let (r, b) = m w.bus in (r, record w { bus = b })

  abbrev pub on_inventory : (Store A → B × Store A) → Action (World D A V) B
  on_inventory m w = let (r, s) = m w.inventory in (ok r, record w { inventory = s })

-- the operation codes of `_maybe_emit`
pub data Change : Type 0 where
  created updated deleted : Change

abbrev pub op_of : Change → String
op_of created = op_create
op_of updated = op_update
op_of deleted = op_delete

-- `_EMIT_FLUSH_TIMEOUT`, in milliseconds
abbrev pub emit_flush_timeout : ℕ
emit_flush_timeout = 5000

module _ {D A V C U : Type 0} (entity : Entity A V C U) (sink : Sink D A C U) (client : Client V)
    (settings : Settings) where
  abbrev uses_postgres : Bool
  uses_postgres = str_eq settings.sink "postgres"

  -- An exception of the producer is logged and dropped.
  unfoldable pub maybe_emit : Change → A → Action (World D A V) (Unit {0})
  maybe_emit change a =
      if owns_cdc settings
      then pure tt
      else if settings.kafka_produce_enabled
      then catch
          (on_bus (
            produce_event entity.events client settings a (op_of change) (some emit_flush_timeout)))
          (λ e. pure tt)
      else pure tt

  -- an event of the inventory path: no bound on the flush, and an exception reaches the caller
  unfoldable pub emit : Change → A → Action (World D A V) (Unit {0})
  emit change a = on_bus (produce_event entity.events client settings a (op_of change) none)

  unfoldable pub create_in_postgres : C → ℕ → Datetime → Action (World D A V) A
  create_in_postgres fields id now = do
    a ← on_db (sink.create fields id now)
    maybe_emit created a
    pure a

  unfoldable pub create_in_inventory : C → ℕ → Datetime → Action (World D A V) A
  create_in_inventory fields id now = do
    a ← on_inventory (Inventory.create entity.codec (entity.make fields id now))
    emit created a
    pure a

  unfoldable pub create : C → ℕ → Datetime → Action (World D A V) A
  create fields id now =
      if uses_postgres then create_in_postgres fields id now else create_in_inventory fields id now

  abbrev emit_if_found : Option A → Action (World D A V) (Unit {0})
  emit_if_found none = pure tt
  emit_if_found (some a) = maybe_emit updated a

  unfoldable pub update_in_postgres : ℕ → U → Action (World D A V) (Option A)
  update_in_postgres id fields = do a ← on_db (sink.update id fields); emit_if_found a; pure a

  abbrev update_existing : Option A → U → Datetime → Action (World D A V) (Option A)
  update_existing none fields now = pure none
  update_existing (some existing) fields now = do
    a ← on_inventory (Inventory.update entity.codec (entity.merge existing fields now))
    emit updated a
    pure (some a)

  unfoldable pub update_in_inventory : ℕ → U → Datetime → Action (World D A V) (Option A)
  update_in_inventory id fields now w =
      update_existing (Inventory.get_by_id entity.codec id w.inventory) fields now w

  unfoldable pub update : ℕ → U → Datetime → Action (World D A V) (Option A)
  update id fields now =
      if uses_postgres then update_in_postgres id fields else update_in_inventory id fields now

  unfoldable pub get_by_id : ℕ → Action (World D A V) (Option A)
  get_by_id id = if uses_postgres then on_db (sink.get_by_id id) else λ w.
      (ok (Inventory.get_by_id entity.codec id w.inventory), w)

  unfoldable pub list_all : Action (World D A V) (List A)
  list_all = if uses_postgres then on_db sink.list_all else λ w. (ok w.inventory.cache, w)

  abbrev emit_if_deleted : Bool → Option A → Action (World D A V) (Unit {0})
  emit_if_deleted true (some a) = maybe_emit deleted a
  emit_if_deleted _ _ = pure tt

  unfoldable pub delete_in_postgres : ℕ → Action (World D A V) Bool
  delete_in_postgres id = do
    a ← on_db (sink.get_by_id id)
    gone ← on_db (sink.delete_by_id id)
    emit_if_deleted gone a
    pure gone

  abbrev emit_deletion : Bool → A → Action (World D A V) (Unit {0})
  emit_deletion true a = emit deleted a
  emit_deletion false a = pure tt

  abbrev delete_existing : Option A → ℕ → Action (World D A V) Bool
  delete_existing none id = pure false
  delete_existing (some existing) id = do
    gone ← on_inventory (Inventory.delete_by_id entity.codec id)
    emit_deletion gone existing
    pure gone

  unfoldable pub delete_in_inventory : ℕ → Action (World D A V) Bool
  delete_in_inventory id w = delete_existing (Inventory.get_by_id entity.codec id w.inventory) id w

  unfoldable pub delete_by_id : ℕ → Action (World D A V) Bool
  delete_by_id id = if uses_postgres then delete_in_postgres id else delete_in_inventory id
