-- ===== src/Transactions/Generator.antt =====
-- transactions/generator.py: a batch of back-dated transactions on accounts that are open.
pub mod Batch
use Prim.Native.Nat.{◌%◌}
use stream_house_c360_demo.Prelude.{
  ℕ, zero, suc, ◌+◌, ◌-◌, ◌*◌, String, Bool, true, false, not, ◌&&◌, Option, none, some, List, [],
  ◌∷◌, str_eq, is_some, keep, length, if◌then◌else◌,
}
use stream_house_c360_demo.Prelude.Int.{pos}
use stream_house_c360_demo.Prelude.Effect.{Result, ok, err, no_eligible_accounts}
use stream_house_c360_demo.Scalars.{Float, Datetime, aware}
use stream_house_c360_demo.Accounts.Models.{Account}
use stream_house_c360_demo.Transactions.Models.{Transaction}

abbrev pub default_count : ℕ
default_count = 200

-- `START_OFFSET`, seven days, and `STEP`, fifteen minutes, in microseconds
abbrev pub start_offset : ℕ
start_offset = 604800000000

abbrev pub step : ℕ
step = 900000000

abbrev pub second : ℕ
second = 1000000

pub record Profile : Type 0 where
  pub description : String
  pub merchant : String
  pub category : String
  pub channel : String

abbrev profile : String → String → String → String → Profile
profile description merchant category channel = record {
  description = description;
  merchant = merchant;
  category = category;
  channel = channel;
}

-- `_DEBIT_PROFILES` and `_CREDIT_PROFILES`, behind their first entries
abbrev more_debit_profiles : List Profile
more_debit_profiles =
    profile "Team breakfast" "Starbucks" "FOOD" "POS"
    ∷ profile "Fuel" "Shell" "FUEL" "POS"
    ∷ profile "Streaming subscription" "Netflix" "ENTERTAINMENT" "MOBILE"
    ∷ profile "Groceries" "Whole Foods" "GROCERY" "BRANCH"
    ∷ profile "Ride" "Uber" "TRANSPORT" "ONLINE"
    ∷ []

abbrev more_credit_profiles : List Profile
more_credit_profiles =
    profile "Refund" "Amazon" "RETAIL" "ONLINE"
    ∷ profile "Deposit" "Branch deposit" "BANK" "BRANCH"
    ∷ []

-- What the random generator and `uuid4` yield in a round. `pick` is the position that `choice`
-- takes; `amount lo hi` is `round(uniform(lo, hi), 2)`.
pub record Draws : Type 0 where
  pub account : ℕ → ℕ
  pub below_085 : ℕ → Bool
  pub profile : ℕ → ℕ
  pub amount : ℕ → ℕ → ℕ → Float
  pub uuid : ℕ → ℕ

-- `rng.choice` of a list that is not empty, given by its first element and the rest; a position
-- past the end, which `choice` never draws, is the last.
unfoldable pub choice {ℓ} : {A : Type ℓ} → A → List A → ℕ → A
choice a [] i = a
choice a (b ∷ more) zero = a
choice a (b ∷ more) (suc i) = choice b more i

-- `a.status == "ACTIVE" and a.closed_date is None`
unfoldable pub is_eligible : Account → Bool
is_eligible a = str_eq a.status "ACTIVE" && not (is_some a.closed_date)

-- `(now - START_OFFSET).replace(microsecond=0)`, on the clock of UTC
unfoldable pub start_of : ℕ → ℕ
start_of now = now - start_offset - (now - start_offset) % second

-- `rng.choice(_DEBIT_PROFILES)` and `rng.choice(_CREDIT_PROFILES)`
abbrev draw_profile : Bool → ℕ → Profile
draw_profile true =
    choice (profile "Online purchase" "Amazon" "RETAIL" "ONLINE") more_debit_profiles
draw_profile false = choice (profile "Salary" "Acme Payroll" "INCOME" "ONLINE") more_credit_profiles

module _ (draws : Draws) (now start : ℕ) (first : Account) (others : List Account) where
  -- one round of the loop
  unfoldable pub transaction : ℕ → Transaction
  transaction i =
      let account = choice first others (draws.account i) in
      let debit = draws.below_085 i in
      let p = draw_profile debit (draws.profile i) in
      let at = aware (start + i * step) (pos 0) in
      record {
        account_id = account.account_id;
        customer_id = account.customer_id;
        transaction_type = if debit then "DEBIT" else "CREDIT";
        amount = if debit then draws.amount i 3 400 else draws.amount i 50 2500;
        currency = account.currency;
        description = some p.description;
        merchant_name = some p.merchant;
        merchant_category = some p.category;
        channel = some p.channel;
        status = "COMPLETED";
        transacted_at = at;
        posted_at = some at;
        transaction_id = draws.uuid i;
        created_at = aware now (pos 0);
      }

  -- `count` rounds from round `i` on
  unfoldable pub rounds : ℕ → ℕ → List Transaction
  rounds i zero = []
  rounds i (suc count) = transaction i ∷ rounds (suc i) count

abbrev generate_from : Draws → ℕ → List Account → ℕ → Result (List Transaction)
generate_from draws now [] count = err no_eligible_accounts
generate_from draws now (a ∷ more) count = ok (rounds draws now (start_of now) a more 0 count)

-- `now` is in microseconds of UTC.
unfoldable pub generate : Draws → List Account → ℕ → ℕ → Result (List Transaction)
generate draws accounts count now = generate_from draws now (keep is_eligible accounts) count
