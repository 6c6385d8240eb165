-- ===== src/Tests/Batches.antt =====
-- Generated transactions on a sample account, and customers that are read back.
use stream_house_c360_demo.Prelude.{
  arith, ◌+◌, ◌≤◌, ℕ, ◌≡◌, refl, true, false, none, some, List, [], ◌∷◌, ◌↔◌, All, length,
}
use stream_house_c360_demo.Prelude.Effect.{
  ok, err, no_eligible_accounts, type_error, unsupported_sink,
}
use stream_house_c360_demo.Scalars.{naive, utc_micros}
use stream_house_c360_demo.Inventory.{Store, line}
use stream_house_c360_demo.Accounts.Models.{Account}
use stream_house_c360_demo.Customers.Models.{Customer}
use stream_house_c360_demo.Customers.Inventory
use stream_house_c360_demo.Customers.Inventory.Reload
use stream_house_c360_demo.Transactions.Inventory as Transactions
use stream_house_c360_demo.Transactions.Models.{Transaction, TransactionCreate}
use stream_house_c360_demo.Transactions.Generator.{
  Draws, generate, start_of, is_eligible, transaction, rounds,
}
use stream_house_c360_demo.Transactions.Generator.Batch.{
  latest, IsBatch, generate-IsBatch, generate-fails_iff,
}
use stream_house_c360_demo.Transactions.Service.{TransactionSink, World, create, generate_batch}
use stream_house_c360_demo.Transactions.Service.Outcomes.{requests_decided}
use stream_house_c360_demo.Tests.Samples.{formats, settings_of, client, idle, account}

abbrev draws : Draws
draws = record {
  account = λ i. i;
  below_085 = λ i. true;
  profile = λ i. 1;
  amount = λ lo hi i. record { negative = false; digits = 1000; places = 2 };
  uuid = λ i. 900 + i;
}

abbrev accounts : List Account
accounts = account "aa" 7 ∷ record (account "aaa" 8) { status = "CLOSED" } ∷ []

abbrev now : ℕ
now = 604800000005

abbrev batch : List Transaction
batch = rounds draws now (start_of now) (account "aa" 7) [] 0 2

generated : generate draws accounts 2 now ≡ ok batch
unfolding generate is_eligible
generated = refl

generate-IsBatch_example :
    IsBatch accounts (start_of now) 0 batch
    × (length batch ≡ 2)
    × All (λ t. utc_micros t.transacted_at ≤ latest now 2) batch
generate-IsBatch_example = generate-IsBatch draws accounts 2 now batch (omega arith) generated

generate-fails_iff_example :
    (generate draws accounts 2 now ≡ err no_eligible_accounts)
    ↔ All (λ a. is_eligible a ≡ false) accounts
generate-fails_iff_example = generate-fails_iff draws accounts 2 now

abbrev fields : TransactionCreate
fields = record {
  account_id = 7;
  customer_id = 5;
  transaction_type = "DEBIT";
  amount = record { negative = false; digits = 1000; places = 2 };
  currency = "USD";
  description = none;
  merchant_name = none;
  merchant_category = none;
  channel = none;
  status = "COMPLETED";
  transacted_at = naive 40;
  posted_at = none;
}

abbrev txn : Transaction
txn = transaction draws now (start_of now) (account "aa" 7) [] 0

abbrev sink : TransactionSink (List Transaction)
sink = record {
  create = λ fields id at rows. (ok txn, txn ∷ rows);
  create_many = λ txns rows. (ok txns, txns);
  get_by_id = λ id rows. (ok none, rows);
  list_all = λ rows. (ok rows, rows);
  list_accounts = λ rows. (ok accounts, rows);
}

abbrev world : World (List Transaction)
world = record { db = []; bus = idle }

requests_decided_example :
    (create formats sink client (settings_of "kafka") fields 1 (naive 40) world
      ≡ (err type_error, world))
    × (generate_batch formats sink client (settings_of "kafka") draws now world
        ≡ (err (unsupported_sink "kafka"), world))
requests_decided_example =
    requests_decided formats sink client (settings_of "kafka") fields 1 (naive 40) draws now world

abbrev customer : Customer
customer = record {
  first_name = "Ada";
  last_name = "King";
  email = "ada@example.com";
  phone = some "";
  date_of_birth = none;
  gender = none;
  address_line1 = some "1 Main";
  address_line2 = none;
  city = none;
  state = none;
  postal_code = none;
  country = "US";
  customer_since = naive 4;
  segment = none;
  status = "ACTIVE";
  customer_id = 5;
  created_at = naive 10;
  updated_at = naive 10;
}

abbrev pub one_customer : Store Customer
one_customer = record {
  cache = customer ∷ [];
  file = Inventory.fieldnames ∷ line (Inventory.codec formats (naive 20)) customer ∷ [];
}

abbrev pub one_transaction : Store Transaction
one_transaction = record {
  cache = txn ∷ [];
  file = Transactions.fieldnames ∷ line (Transactions.codec formats (naive 20)) txn ∷ [];
}
