-- ===== src/Transactions/DbSink.antt =====
-- transactions/db_sink.py
use stream_house_c360_demo.Prelude.{true, ℕ, String, Option, List, [], ◌∷◌, map}
use stream_house_c360_demo.Prelude.Effect.{Error, Action, pure, ◌>>◌}
use stream_house_c360_demo.Scalars.{Formats, Datetime}
use stream_house_c360_demo.Database.{Pool, cursor}
use stream_house_c360_demo.DbSink as DbSink
use stream_house_c360_demo.DbSink.{
  Param, text, number, day, time, or_null, set_field, Server, Table, insert_returning, seed_sql,
}
use stream_house_c360_demo.Transactions.Models.{Transaction, TransactionCreate}

module _ (f : Formats) where
  -- `_INSERT_COLS` and `_insert_params`
  unfoldable pub insert_params : Transaction → List Param
  insert_params t =
      text (f.uuid_text t.transaction_id)
      ∷ text (f.uuid_text t.account_id)
      ∷ text (f.uuid_text t.customer_id)
      ∷ text t.transaction_type
      ∷ number t.amount
      ∷ text t.currency
      ∷ or_null text t.description
      ∷ or_null text t.merchant_name
      ∷ or_null text t.merchant_category
      ∷ or_null text t.channel
      ∷ text t.status
      ∷ time t.transacted_at
      ∷ or_null time t.posted_at
      ∷ time t.created_at
      ∷ []

  abbrev pub transactions_table : Table Transaction
  transactions_table = record {
    name = "transactions";
    columns =
        "transaction_id" ∷ "account_id" ∷ "customer_id" ∷ "transaction_type" ∷ "amount" ∷ "currency"
        ∷ "description" ∷ "merchant_name" ∷ "merchant_category" ∷ "channel" ∷ "status"
        ∷ "transacted_at" ∷ "posted_at" ∷ "created_at" ∷ [];
    id_column = "transaction_id";
    order_column = "transacted_at";
    insert_params = insert_params;
  }

  -- `Transaction(transaction_id=…, created_at=now, **data.model_dump())`
  unfoldable pub make : TransactionCreate → ℕ → Datetime → Transaction
  make d id now = record {
    account_id = d.account_id;
    customer_id = d.customer_id;
    transaction_type = d.transaction_type;
    amount = d.amount;
    currency = d.currency;
    description = d.description;
    merchant_name = d.merchant_name;
    merchant_category = d.merchant_category;
    channel = d.channel;
    status = d.status;
    transacted_at = d.transacted_at;
    posted_at = d.posted_at;
    transaction_id = id;
    created_at = now;
  }

  module _ {T R : Type 0} (server : Server T R) (read : R → Option Transaction)
      (database_url : Option String) (fault_of_connect : Pool T → Option Error)
      (fault_of_commit : T → Option Error) where
    unfoldable pub create : TransactionCreate → ℕ → Datetime → Action (Pool T) Transaction
    create fields id now =
        insert_returning transactions_table server read f.uuid_text database_url fault_of_connect
          fault_of_commit (make fields id now)

    -- the batch, in one transaction; an empty one takes no connection
    unfoldable pub create_many : List Transaction → Action (Pool T) (List Transaction)
    create_many [] = pure []
    create_many (t ∷ more) =
        cursor database_url fault_of_connect fault_of_commit true
          (server.execute_batch (seed_sql transactions_table) (map insert_params (t ∷ more)))
        >> pure (t ∷ more)

    unfoldable pub get_by_id : ℕ → Action (Pool T) (Option Transaction)
    get_by_id =
        DbSink.get_by_id transactions_table server read f.uuid_text database_url fault_of_connect
          fault_of_commit

    unfoldable pub list_all : Action (Pool T) (List Transaction)
    list_all =
        DbSink.list_all transactions_table server read f.uuid_text database_url fault_of_connect
          fault_of_commit
