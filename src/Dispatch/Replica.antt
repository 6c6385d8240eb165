-- ===== src/Dispatch/Replica.antt =====
-- The inventory path: what a consumer of the topic holds stays equal to the inventory.
use mathlib.Core.Path.{subst}
use stream_house_c360_demo.Prelude.{
  sym, ◌∙◌, ap, ℕ, ◌≡◌, refl, Bool, true, false, Option, none, some, arith, str_eq, ◌==◌,
  if◌then◌else◌, is_some, Option-cases, inl, inr,
}
use stream_house_c360_demo.Prelude.Effect.{◌>>◌, pure, Result, ok, err, Action}
use stream_house_c360_demo.Config.{Settings}
use stream_house_c360_demo.Scalars.{Datetime}
use stream_house_c360_demo.Kafka.{Key, Client}
use stream_house_c360_demo.Kafka.Producing.{
  same_key, published, IsOnce, produce_event-published, produce_event-IsOnce,
}
use stream_house_c360_demo.Inventory
use stream_house_c360_demo.Inventory.{find}
use stream_house_c360_demo.Inventory.Lookup.{
  get_by_id-create, get_by_id-update, get_by_id-delete_by_id, find_id,
}
use stream_house_c360_demo.Dispatch.{
  emit_deletion, delete_existing, update_existing, Entity, Sink, World, Change, created, updated,
  deleted, op_of, emit, create, create_in_inventory, update, update_in_inventory, delete_by_id,
  delete_in_inventory,
}

-- What the instances satisfy: the key of an entity's events is that of its id, different ids have
-- different keys, and an update keeps the id.
pub record IsKeyed {A V C U : Type 0} (entity : Entity A V C U) (key : ℕ → Key) : Type 0 where
  pub key_of_id : (a : A) → entity.events.key_of a ≡ key (entity.codec.id_of a)
  pub key_injective : (i j : ℕ) → same_key (key i) (key j) ≡ (i == j)
  pub make_id :
      (fields : C) (id : ℕ) (now : Datetime) → entity.codec.id_of (entity.make fields id now) ≡ id
  pub merge_id :
      (a : A) (fields : U) (now : Datetime)
      → entity.codec.id_of (entity.merge a fields now) ≡ entity.codec.id_of a

module _ {D A V C U : Type 0} (entity : Entity A V C U) (sink : Sink D A C U) (client : Client V)
    (settings : Settings) (key : ℕ → Key) (keyed : IsKeyed entity key)
    (uses_inventory : str_eq settings.sink "postgres" ≡ false) where
  abbrev value_opt : Option A → Option V
  value_opt none = none
  value_opt (some a) = some (entity.events.value_of a)

  -- The consumer's row under each id is the value of the entity that the inventory has there, and
  -- nothing where it has none; the producer module is in order.
  pub record InStep (w : World D A V) : Type 0 where
    pub once : IsOnce client w.bus
    pub rows :
        (id : ℕ)
        → published client (key id) w.bus.calls
          ≡ value_opt (Inventory.get_by_id entity.codec id w.inventory)

  abbrev row_of : Change → A → Option V
  row_of deleted a = none
  row_of _ a = some (entity.events.value_of a)

  key-same :
      (a : A) (id : ℕ) → same_key (entity.events.key_of a) (key id) ≡ (entity.codec.id_of a == id)
  key-same a id = ap (λ k. same_key k (key id)) (keyed.key_of_id a) ∙ keyed.key_injective _ id

  emit-rows :
      (change : Change) (a : A) (id : ℕ) (w : World D A V)
      → IsOnce client w.bus
      → (emit entity sink client settings change a w).0 ≡ ok tt
      → published client (key id) (emit entity sink client settings change a w).1.bus.calls ≡ (
          if entity.codec.id_of a == id
          then row_of change a
          else published client (key id) w.bus.calls)
  unfolding emit
  emit-rows created a id w once sent =
      produce_event-published client entity.events settings (key id) a "c" none w.bus once sent
      ∙ ap (λ b. if b then row_of created a else published client (key id) w.bus.calls)
          (key-same a id)
  emit-rows updated a id w once sent =
      produce_event-published client entity.events settings (key id) a "u" none w.bus once sent
      ∙ ap (λ b. if b then row_of updated a else published client (key id) w.bus.calls)
          (key-same a id)
  emit-rows deleted a id w once sent =
      produce_event-published client entity.events settings (key id) a "d" none w.bus once sent
      ∙ ap (λ b. if b then row_of deleted a else published client (key id) w.bus.calls)
          (key-same a id)

  emit-IsOnce :
      (change : Change) (a : A) (w : World D A V)
      → IsOnce client w.bus
      → IsOnce client (emit entity sink client settings change a w).1.bus
  unfolding emit
  emit-IsOnce change a w once =
      produce_event-IsOnce client entity.events settings a (op_of change) none w.bus once

  emit-inventory :
      (change : Change) (a : A) (w : World D A V)
      → (emit entity sink client settings change a w).1.inventory ≡ w.inventory
  unfolding emit
  emit-inventory change a w = refl

  -- An event that tells the consumer what an inventory operation changed keeps the two in step.
  emit-InStep :
      (change : Change) (a : A) (w : World D A V) (before : World D A V)
      → w.bus ≡ before.bus
      → InStep before
      → ((id : ℕ)
          → value_opt (Inventory.get_by_id entity.codec id w.inventory) ≡ (
              if entity.codec.id_of a == id
              then row_of change a
              else value_opt (Inventory.get_by_id entity.codec id before.inventory)))
      → (emit entity sink client settings change a w).0 ≡ ok tt
      → InStep (emit entity sink client settings change a w).1
  emit-InStep change a w before same step effect sent = record {
    once = emit-IsOnce change a w (rw same step.once);
    rows = λ id.
        let once : IsOnce client w.bus = rw same step.once in
        emit-rows change a id w once sent
        ∙ ap (λ p. if entity.codec.id_of a == id then row_of change a else p)
            (ap (λ b. published client (key id) b.calls) same ∙ step.rows id)
        ∙ sym (effect id)
        ∙ ap (λ s. value_opt (Inventory.get_by_id entity.codec id s))
            (sym (emit-inventory change a w));
  }

  -- an action that is followed by `pure` returns if the action does, and leaves what it leaves
  then_pure :
      {B : Type 0} (m : Action (World D A V) (Unit {0})) (x : B) (w : World D A V) {y : B}
      → ((m >> pure x) w).0 ≡ ok y
      → ((m w).0 ≡ ok tt) × (((m >> pure x) w).1 ≡ (m w).1)
  then_pure m x w h = ground arith

  abbrev value_at : ℕ → Inventory.Store A → Option V
  value_at i s = value_opt (Inventory.get_by_id entity.codec i s)

  create-effect :
      (a : A) (i : ℕ) (s : Inventory.Store A)
      → Inventory.get_by_id entity.codec (entity.codec.id_of a) s ≡ none
      → value_at i (Inventory.create entity.codec a s).1
        ≡ (if entity.codec.id_of a == i then row_of created a else value_at i s)
  create-effect a i s unused = rw (get_by_id-create entity.codec a i s) (ground arith)

  update-effect :
      (a : A) (i : ℕ) (s : Inventory.Store A) {old : A}
      → Inventory.get_by_id entity.codec (entity.codec.id_of a) s ≡ some old
      → value_at i (Inventory.update entity.codec a s).1
        ≡ (if entity.codec.id_of a == i then row_of updated a else value_at i s)
  update-effect a i s found = rw ((get_by_id-update entity.codec a i s).0) (ground arith)

  delete-effect :
      (a : A) (i : ℕ) (s : Inventory.Store A)
      → value_at i (Inventory.delete_by_id entity.codec (entity.codec.id_of a) s).1
        ≡ (if entity.codec.id_of a == i then row_of deleted a else value_at i s)
  delete-effect a i s =
      rw ((get_by_id-delete_by_id entity.codec (entity.codec.id_of a) i s).2) (ground arith)

  create-InStep :
      (fresh : C) (id : ℕ) (now : Datetime) (w : World D A V) (a : A)
      → Inventory.get_by_id entity.codec id w.inventory ≡ none
      → (create_in_inventory entity sink client settings fresh id now w).0 ≡ ok a
      → InStep w
      → InStep (create_in_inventory entity sink client settings fresh id now w).1
  unfolding create_in_inventory Inventory.create
  create-InStep fresh id now w a unused returned step =
      let m : A = entity.make fresh id now in
      let w1 : World D A V = record w {
        inventory = (Inventory.create entity.codec m w.inventory).1;
      } in
      let (sent, same) = then_pure (emit entity sink client settings created m) m w1 returned in
      rw same (
        emit-InStep created m w1 w refl step
          (λ i. create-effect m i w.inventory (rw (keyed.make_id fresh id now) unused)) sent)

  update-InStep :
      (existing : A) (fields : U) (now : Datetime) (w : World D A V) (a : Option A)
      → Inventory.get_by_id entity.codec (entity.codec.id_of existing) w.inventory ≡ some existing
      → (update_existing entity sink client settings (some existing) fields now w).0 ≡ ok a
      → InStep w
      → InStep (update_existing entity sink client settings (some existing) fields now w).1
  unfolding Inventory.update
  update-InStep existing fields now w a found returned step =
      let m : A = entity.merge existing fields now in
      let w1 : World D A V = record w {
        inventory = (Inventory.update entity.codec m w.inventory).1;
      } in
      let (sent, same) =
        then_pure (emit entity sink client settings updated m) (some m) w1 returned in
      rw same (
        emit-InStep updated m w1 w refl step
          (λ i.
            update-effect m i w.inventory {old = existing}
              (rw (keyed.merge_id existing fields now) found))
          sent)

  delete-InStep :
      (existing : A) (w : World D A V) (gone : Bool)
      → Inventory.get_by_id entity.codec (entity.codec.id_of existing) w.inventory ≡ some existing
      → (delete_existing entity sink client settings
          (some existing)
          (entity.codec.id_of existing)
          w).0
        ≡ ok gone
      → InStep w
      → InStep
          (delete_existing entity sink client settings
            (some existing)
            (entity.codec.id_of existing)
            w).1
  delete-InStep existing w gone found returned step =
      let id = entity.codec.id_of existing in
      let gone_result = Inventory.delete_by_id entity.codec id w.inventory in
      let hit : gone_result.0 ≡ true =
        (get_by_id-delete_by_id entity.codec id id w.inventory).0 ∙ ap is_some found in
      let w1 : World D A V = record w { inventory = gone_result.1 } in
      let (sent, same) =
        then_pure (emit_deletion entity sink client settings gone_result.0 existing) gone_result.0
          w1 returned in
      rw (same, hit)
        (emit-InStep deleted existing w1 w refl step (λ i. delete-effect existing i w.inventory)
          (rw hit at sent))

  update-keeps :
      (id : ℕ) (fields : U) (now : Datetime) (w : World D A V) (a : Option A)
      → (update_in_inventory entity sink client settings id fields now w).0 ≡ ok a
      → InStep w
      → InStep (update_in_inventory entity sink client settings id fields now w).1
  unfolding update_in_inventory Inventory.get_by_id
  update-keeps id fields now w a = elim (Option-cases (find entity.codec id w.inventory.cache)) [
    | inl missing ↦ rw missing (λ returned step. step)
    | inr (existing, found) ↦ rw found (
        update-InStep existing fields now w a
          (rw (find_id entity.codec id w.inventory.cache existing found) found))
  ]

  delete-keeps :
      (id : ℕ) (w : World D A V) (gone : Bool)
      → (delete_in_inventory entity sink client settings id w).0 ≡ ok gone
      → InStep w
      → InStep (delete_in_inventory entity sink client settings id w).1
  unfolding delete_in_inventory Inventory.get_by_id
  delete-keeps id w gone = elim (Option-cases (find entity.codec id w.inventory.cache)) [
    | inl missing ↦ rw missing (λ returned step. step)
    | inr (existing, found) ↦
        let e = find_id entity.codec id w.inventory.cache existing found in
        rw found (
          subst
            (λ k.
              (delete_existing entity sink client settings (some existing) k w).0 ≡ ok gone
              → InStep w
              → InStep (delete_existing entity sink client settings (some existing) k w).1)
            e (delete-InStep existing w gone (rw e found)))
  ]

  -- The requests of the REST resources that change the inventory. A create is of a new id.
  pub data Request : Type 0 where
    creating : C → ℕ → Request
    updating : ℕ → U → Request
    deleting : ℕ → Request

  -- a request to the service at the time `now`; its result is dropped
  abbrev pub respond : Request → Datetime → Action (World D A V) (Unit {0})
  respond (creating fields id) now = create entity sink client settings fields id now >> pure tt
  respond (updating id fields) now = update entity sink client settings id fields now >> pure tt
  respond (deleting id) now = delete_by_id entity sink client settings id >> pure tt

  abbrev pub IsNew : Request → World D A V → Type 0
  IsNew (creating fields id) w = Inventory.get_by_id entity.codec id w.inventory ≡ none
  IsNew _ w = Unit

  dropped_result :
      {B : Type 0} (r : Result B) (w : World D A V)
      → let out : Result (Unit {0}) × World D A V = elim r [
        | ok b ↦ (ok tt, w)
        | err e ↦ (err e, w)
      ] in
        out.0 ≡ ok tt → ((b : B) × (r ≡ ok b)) × (out.1 ≡ w)
  dropped_result (ok b) w h = ((b, refl), refl)
  dropped_result (err e) w h = absurd (ground arith)

  -- an action whose result is dropped
  dropped :
      {B : Type 0} (m : Action (World D A V) B) (w : World D A V)
      → ((m >> pure tt) w).0 ≡ ok tt
      → ((b : B) × ((m w).0 ≡ ok b)) × (((m >> pure tt) w).1 ≡ (m w).1)
  dropped m w h = dropped_result (m w).0 (m w).1 h

  -- With any sink but postgres: if the consumer's rows are the inventory's entities before a request
  -- to create, update or delete, and the request returns, they are after it. A create is of an id
  -- that the inventory does not have. The consumer's rows are those of the events that the Kafka
  -- client accepted: a delivery that fails after it, which the code only logs, is not one.
  pub inventory-InStep :
      (request : Request) (now : Datetime) (w : World D A V)
      → InStep w
      → IsNew request w
      → (respond request now w).0 ≡ ok tt
      → InStep (respond request now w).1
  unfolding create update delete_by_id
  inventory-InStep (creating fields id) now w step unused = rw uses_inventory (λ r.
      let ((a, c), same) =
        dropped (create_in_inventory entity sink client settings fields id now) w r in
      rw same (create-InStep fields id now w a unused c step))
  inventory-InStep (updating id fields) now w step unused = rw uses_inventory (λ r.
      let ((a, c), same) =
        dropped (update_in_inventory entity sink client settings id fields now) w r in
      rw same (update-keeps id fields now w a c step))
  inventory-InStep (deleting id) now w step unused = rw uses_inventory (λ r.
      let ((gone, c), same) = dropped (delete_in_inventory entity sink client settings id) w r in
      rw same (delete-keeps id w gone c step))
