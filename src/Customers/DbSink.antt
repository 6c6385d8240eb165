-- ===== src/Customers/DbSink.antt =====
-- customers/db_sink.py
use Prim.Native.String.{◌++◌ as str_append}
use stream_house_c360_demo.Prelude.{ℕ, String, Option, List, [], ◌∷◌, ◌++◌, str_eq, if◌then◌else◌}
use stream_house_c360_demo.Prelude.Effect.{Error, Action, pure}
use stream_house_c360_demo.Scalars.{Formats, Datetime}
use stream_house_c360_demo.Database.{Pool}
use stream_house_c360_demo.Dispatch.{Sink}
use stream_house_c360_demo.DbSink as DbSink
use stream_house_c360_demo.DbSink.{
  Param, text, number, day, time, or_null, set_field, Server, Table, create_or_conflict,
}
use stream_house_c360_demo.Customers.Models.{Customer, CustomerCreate, CustomerUpdate}
use stream_house_c360_demo.Customers.Service.{make}

module _ (f : Formats) where
  -- `_INSERT_COLS` and `_insert_params`
  unfoldable pub insert_params : Customer → List Param
  insert_params c =
      text (f.uuid_text c.customer_id)
      ∷ text c.first_name
      ∷ text c.last_name
      ∷ text c.email
      ∷ or_null text c.phone
      ∷ or_null time c.date_of_birth
      ∷ or_null text c.gender
      ∷ or_null text c.address_line1
      ∷ or_null text c.address_line2
      ∷ or_null text c.city
      ∷ or_null text c.state
      ∷ or_null text c.postal_code
      ∷ text c.country
      ∷ time c.customer_since
      ∷ or_null text c.segment
      ∷ text c.status
      ∷ time c.created_at
      ∷ time c.updated_at
      ∷ []

  abbrev pub customers_table : Table Customer
  customers_table = record {
    name = "customers";
    columns =
        "customer_id" ∷ "first_name" ∷ "last_name" ∷ "email" ∷ "phone" ∷ "date_of_birth" ∷ "gender"
        ∷ "address_line1" ∷ "address_line2" ∷ "city" ∷ "state" ∷ "postal_code" ∷ "country"
        ∷ "customer_since" ∷ "segment" ∷ "status" ∷ "created_at" ∷ "updated_at" ∷ [];
    id_column = "customer_id";
    order_column = "created_at";
    insert_params = insert_params;
  }

  -- `{k: v for k, v in data.model_dump().items() if v is not None}`
  unfoldable pub update_fields : CustomerUpdate → List (String × Param)
  update_fields u =
      set_field text "first_name" u.first_name
      ++ (set_field text "last_name" u.last_name
          ++ (set_field text "email" u.email
              ++ (set_field text "phone" u.phone
                  ++ (set_field time "date_of_birth" u.date_of_birth
                      ++ (set_field text "gender" u.gender
                          ++ (set_field text "address_line1" u.address_line1
                              ++ (set_field text "address_line2" u.address_line2
                                  ++ (set_field text "city" u.city
                                      ++ (set_field text "state" u.state
                                          ++ (set_field text "postal_code" u.postal_code
                                              ++ (set_field text "country" u.country
                                                  ++ (set_field time "customer_since"
                                                        u.customer_since
                                                      ++ (set_field text "segment" u.segment
                                                          ++ set_field text "status"
                                                            u.status)))))))))))))

  module _ {T R : Type 0} (server : Server T R) (read : R → Option Customer)
      (database_url : Option String) (fault_of_connect : Pool T → Option Error)
      (fault_of_commit : T → Option Error) where
    unfoldable pub create : CustomerCreate → ℕ → Datetime → Action (Pool T) Customer
    create fields id now =
        create_or_conflict customers_table server read f.uuid_text database_url fault_of_connect
          fault_of_commit "A customer with that email already exists" (make fields id now)

    -- `get_by_name`; `strip` and `lower` are those of `str`.
    unfoldable pub get_by_name :
        (String → String) → (String → String) → String → Action (Pool T) (List Customer)
    get_by_name strip lower name =
        let needle = strip name in
        if str_eq needle ""
        then pure []
        else DbSink.select_all customers_table server read f.uuid_text database_url fault_of_connect
            fault_of_commit
            (str_append (DbSink.select_sql customers_table) (
              str_append " WHERE LOWER(CONCAT_WS(' ', first_name, last_name)) LIKE %s"
                (DbSink.order_sql customers_table)))
            (text (str_append "%" (str_append (lower needle) "%")) ∷ [])

    -- the sink that customers/service.py calls
    unfoldable pub customer_sink : Sink (Pool T) Customer CustomerCreate CustomerUpdate
    customer_sink = record {
      create = create;
      update = λ id fields.
          DbSink.update customers_table server read f.uuid_text database_url fault_of_connect
            fault_of_commit id (update_fields fields);
      get_by_id =
          DbSink.get_by_id customers_table server read f.uuid_text database_url fault_of_connect
            fault_of_commit;
      list_all =
          DbSink.list_all customers_table server read f.uuid_text database_url fault_of_connect
            fault_of_commit;
      delete_by_id =
          DbSink.delete_by_id customers_table server read f.uuid_text database_url fault_of_connect
            fault_of_commit;
    }
