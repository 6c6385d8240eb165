-- ===== src/Rest.antt =====
-- api/customer_resource.py, api/account_resource.py and api/transaction_resource.py: the routes over
-- the service modules. A route yields its status and its body, or raises.
pub mod Statuses
use Prim.Native.String.{◌++◌ as str_append}
use stream_house_c360_demo.Prelude.{ℕ, String, Bool, true, false, Option, none, some, List, [], ◌∷◌}
use stream_house_c360_demo.Prelude.Effect.{
  Error, Result, ok, err, Action, pure, raise, catch, ◌>>=◌, ◌>>◌, http, index_error,
  no_eligible_accounts, unsupported_sink,
}
use stream_house_c360_demo.Scalars.{Formats, Datetime, Date}
use stream_house_c360_demo.Config.{Settings}
use stream_house_c360_demo.Kafka as Kafka
use stream_house_c360_demo.Dispatch.{Sink, World}
use stream_house_c360_demo.Accounts.Models.{Account, AccountCreate, AccountUpdate}
use stream_house_c360_demo.Accounts.Producer.{AccountValue}
use stream_house_c360_demo.Accounts.Service as Accounts
use stream_house_c360_demo.Customers.Models.{Customer, CustomerCreate, CustomerUpdate}
use stream_house_c360_demo.Customers.Producer.{CustomerValue}
use stream_house_c360_demo.Customers.Service as Customers
use stream_house_c360_demo.Transactions.Models.{Transaction, TransactionCreate}
use stream_house_c360_demo.Transactions.Producer.{TransactionValue}
use stream_house_c360_demo.Transactions.Generator.{Draws}
use stream_house_c360_demo.Transactions.Service.{TransactionSink}
use stream_house_c360_demo.Transactions.Service as Transactions

-- what a service module offers to its routes; `create` is given the new id
pub record Crud (S A C U : Type 0) : Type 0 where
  pub create : C → ℕ → Action S A
  pub list_all : Action S (List A)
  pub get_by_id : ℕ → Action S (Option A)
  pub update : ℕ → U → Action S (Option A)
  pub delete_by_id : ℕ → Action S Bool

abbrev pub with_status : {S B : Type 0} → ℕ → Action S B → Action S (ℕ × B)
with_status status m = m >>= λ b. pure (status, b)

abbrev pub or_404 : {S B : Type 0} → String → Option B → Action S B
or_404 detail none = raise (http 404 detail)
or_404 detail (some b) = pure b

module _ {S A C U : Type 0} (crud : Crud S A C U) (detail : String) where
  abbrev pub unless_404 : Bool → Action S (Unit {0})
  unless_404 true = pure tt
  unless_404 false = raise (http 404 detail)

  unfoldable pub create_route : C → ℕ → Action S (ℕ × A)
  create_route fields id = with_status 201 (crud.create fields id)

  unfoldable pub get_route : ℕ → Action S (ℕ × A)
  get_route id = with_status 200 (crud.get_by_id id >>= or_404 detail)

  unfoldable pub update_route : ℕ → U → Action S (ℕ × A)
  update_route id fields = with_status 200 (crud.update id fields >>= or_404 detail)

  unfoldable pub delete_route : ℕ → Action S (ℕ × Unit {0})
  delete_route id = with_status 204 (crud.delete_by_id id >>= unless_404)

  -- a list, by a filter of the query if it is given
  unfoldable pub list_route :
      {Q : Type 0} → (Q → Action S (List A)) → Option Q → Action S (ℕ × List A)
  list_route filtered none = with_status 200 crud.list_all
  list_route filtered (some q) = with_status 200 (filtered q)

  abbrev pub first_of : List A → Action S A
  first_of [] = raise index_error
  first_of (a ∷ more) = pure a

  -- `get_customer_by_name`: the list is never `None`, and its first element is taken
  unfoldable pub by_name_route : (String → Action S (List A)) → String → Action S (ℕ × A)
  by_name_route get_by_name name = with_status 200 (get_by_name name >>= first_of)

module _ (f : Formats) (now : Datetime) (today : Date) {D : Type 0} (settings : Settings) where
  -- the routes of the accounts, with the detail "Account not found"
  unfoldable pub accounts :
      Sink D Account AccountCreate AccountUpdate
      → Kafka.Client AccountValue
      → Crud (World D Account AccountValue) Account AccountCreate AccountUpdate
  accounts sink client = record {
    create = Accounts.create f now today sink client settings;
    list_all = Accounts.list_all f now today sink client settings;
    get_by_id = Accounts.get_by_id f now today sink client settings;
    update = Accounts.update f now today sink client settings;
    delete_by_id = Accounts.delete_by_id f now today sink client settings;
  }

  -- the routes of the customers, with the detail "Customer not found"
  unfoldable pub customers :
      Sink D Customer CustomerCreate CustomerUpdate
      → Kafka.Client CustomerValue
      → Crud (World D Customer CustomerValue) Customer CustomerCreate CustomerUpdate
  customers sink client = record {
    create = Customers.create f now sink client settings;
    list_all = Customers.list_all f now sink client settings;
    get_by_id = Customers.get_by_id f now sink client settings;
    update = Customers.update f now sink client settings;
    delete_by_id = Customers.delete_by_id f now sink client settings;
  }

-- `generate_transactions`, over the service's `generate`
module _ {S A : Type 0} where
  abbrev pub refused : Error → Action S (ℕ × A)
  refused no_eligible_accounts = raise (http 409 "No active accounts available")
  refused (unsupported_sink sink) = raise (
      http 501
        (str_append "Generation requires SINK=postgres (current sink: " (str_append sink ")")))
  refused e = raise e

  unfoldable pub generate_route : Action S A → Action S (ℕ × A)
  generate_route generate = catch (generate >>= λ batch. pure (201, batch)) refused

-- the routes of the transactions
module _ {D : Type 0} (f : Formats) (sink : TransactionSink D)
    (client : Kafka.Client TransactionValue) (settings : Settings) where
  unfoldable pub generate_transactions :
      Draws → ℕ → Action (Transactions.World D) (ℕ × List Transaction)
  generate_transactions draws now =
      generate_route (Transactions.generate_batch f sink client settings draws now)

  unfoldable pub create_transaction :
      TransactionCreate → ℕ → Datetime → Action (Transactions.World D) (ℕ × Transaction)
  create_transaction fields id now =
      with_status 201 (Transactions.create f sink client settings fields id now)

  unfoldable pub list_transactions : Action (Transactions.World D) (ℕ × List Transaction)
  list_transactions = with_status 200 (Transactions.list_all f sink client settings)

  unfoldable pub get_transaction : ℕ → Action (Transactions.World D) (ℕ × Transaction)
  get_transaction id =
      with_status 200
        (Transactions.get_by_id f sink client settings id >>= or_404 "Transaction not found")
