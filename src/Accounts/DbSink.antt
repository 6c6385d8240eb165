-- ===== src/Accounts/DbSink.antt =====
-- accounts/db_sink.py
use Prim.Native.String.{◌++◌ as str_append}
use stream_house_c360_demo.Prelude.{ℕ, String, Option, List, [], ◌∷◌, ◌++◌}
use stream_house_c360_demo.Prelude.Effect.{Error, Action}
use stream_house_c360_demo.Scalars.{Formats, Datetime}
use stream_house_c360_demo.Database.{Pool}
use stream_house_c360_demo.Dispatch.{Sink}
use stream_house_c360_demo.DbSink as DbSink
use stream_house_c360_demo.DbSink.{
  Param, text, number, day, time, or_null, set_field, Server, Table, create_or_conflict,
}
use stream_house_c360_demo.Accounts.Models.{Account, AccountCreate, AccountUpdate}
use stream_house_c360_demo.Accounts.Service.{make}

module _ (f : Formats) where
  abbrev pub uuid : ℕ → Param
  uuid id = text (f.uuid_text id)

  -- `_INSERT_COLS` and `_insert_params`
  unfoldable pub insert_params : Account → List Param
  insert_params a =
      uuid a.account_id
      ∷ uuid a.customer_id
      ∷ text a.account_number
      ∷ text a.account_type
      ∷ text a.currency
      ∷ number a.balance
      ∷ or_null number a.credit_limit
      ∷ day a.opened_date
      ∷ or_null day a.closed_date
      ∷ text a.status
      ∷ time a.created_at
      ∷ time a.updated_at
      ∷ []

  abbrev pub accounts_table : Table Account
  accounts_table = record {
    name = "accounts";
    columns =
        "account_id" ∷ "customer_id" ∷ "account_number" ∷ "account_type" ∷ "currency" ∷ "balance"
        ∷ "credit_limit" ∷ "opened_date" ∷ "closed_date" ∷ "status" ∷ "created_at" ∷ "updated_at"
        ∷ [];
    id_column = "account_id";
    order_column = "created_at";
    insert_params = insert_params;
  }

  -- `{k: v for k, v in data.model_dump().items() if v is not None}`
  unfoldable pub update_fields : AccountUpdate → List (String × Param)
  update_fields u =
      set_field uuid "customer_id" u.customer_id
      ++ (set_field text "account_number" u.account_number
          ++ (set_field text "account_type" u.account_type
              ++ (set_field text "currency" u.currency
                  ++ (set_field number "balance" u.balance
                      ++ (set_field number "credit_limit" u.credit_limit
                          ++ (set_field day "opened_date" u.opened_date
                              ++ (set_field day "closed_date" u.closed_date
                                  ++ set_field text "status" u.status)))))))

  module _ {T R : Type 0} (server : Server T R) (read : R → Option Account)
      (database_url : Option String) (fault_of_connect : Pool T → Option Error)
      (fault_of_commit : T → Option Error) where
    unfoldable pub create : AccountCreate → ℕ → Datetime → Action (Pool T) Account
    create fields id now =
        create_or_conflict accounts_table server read f.uuid_text database_url fault_of_connect
          fault_of_commit "An account with that account number already exists" (make fields id now)

    -- `get_by_customer`
    unfoldable pub get_by_customer : ℕ → Action (Pool T) (List Account)
    get_by_customer customer_id =
        DbSink.select_all accounts_table server read f.uuid_text database_url fault_of_connect
          fault_of_commit
          (str_append (DbSink.where_sql accounts_table "customer_id")
            (DbSink.order_sql accounts_table))
          (uuid customer_id ∷ [])

    -- the sink that accounts/service.py calls
    unfoldable pub account_sink : Sink (Pool T) Account AccountCreate AccountUpdate
    account_sink = record {
      create = create;
      update = λ id fields.
          DbSink.update accounts_table server read f.uuid_text database_url fault_of_connect
            fault_of_commit id (update_fields fields);
      get_by_id =
          DbSink.get_by_id accounts_table server read f.uuid_text database_url fault_of_connect
            fault_of_commit;
      list_all =
          DbSink.list_all accounts_table server read f.uuid_text database_url fault_of_connect
            fault_of_commit;
      delete_by_id =
          DbSink.delete_by_id accounts_table server read f.uuid_text database_url fault_of_connect
            fault_of_commit;
    }
