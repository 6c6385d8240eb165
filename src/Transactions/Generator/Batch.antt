-- ===== src/Transactions/Generator/Batch.antt =====
-- A generated batch: its size, its accounts, and its times.
use mathlib.Core.Path.{subst}
use stream_house_c360_demo.Prelude.{
  ◌-◌, ℕ, zero, suc, ◌+◌, ◌*◌, ◌≤◌, ◌≡◌, refl, ◌⊎◌, ◌↔◌, inl, inr, true, false, some, List, [], ◌∷◌,
  arith, All, length, keep, Bool-cases,
}
use stream_house_c360_demo.Prelude.Int.{pos}
use stream_house_c360_demo.Prelude.Effect.{ok, err, no_eligible_accounts}
use stream_house_c360_demo.Scalars.{aware, utc_micros}
use stream_house_c360_demo.Accounts.Models.{Account}
use stream_house_c360_demo.Transactions.Models.{Transaction}
use stream_house_c360_demo.Transactions.Generator.{
  generate_from, Draws, choice, is_eligible, start_of, start_offset, step, transaction, rounds,
  generate,
}

-- an account is one of a list
abbrev pub Among : Account → List Account → Type 0
Among a [] = ⊥
Among a (x ∷ xs) = (x ≡ a) ⊎ Among a xs

abbrev IsOpen : List Account → Account → Type 0
IsOpen accounts a = (is_eligible a ≡ true) × Among a accounts

IsOpen-cons :
    (x : Account) (accounts xs : List Account)
    → All (IsOpen accounts) xs
    → All (IsOpen (x ∷ accounts)) xs
IsOpen-cons x accounts [] h = tt
IsOpen-cons x accounts (y ∷ xs) h = ((h.0.0, inr h.0.1), IsOpen-cons x accounts xs h.1)

keep-IsOpen : (accounts : List Account) → All (IsOpen accounts) (keep is_eligible accounts)
keep-IsOpen [] = tt
keep-IsOpen (x ∷ accounts) =
    let rest = IsOpen-cons x accounts (keep is_eligible accounts) (keep-IsOpen accounts) in
    elim (Bool-cases (is_eligible x)) [
      | inl yes_open ↦ rw yes_open ((yes_open, inl refl), rest)
      | inr not_open ↦ rw not_open rest
    ]

choice-All :
    {A : Type 0} (P : A → Type 0) (a : A) (more : List A) (i : ℕ)
    → P a
    → All P more
    → P (choice a more i)
unfolding choice
choice-All P a [] i p h = p
choice-All P a (b ∷ more) zero p h = p
choice-All P a (b ∷ more) (suc i) p h = choice-All P b more i h.0 h.1

-- The transaction of round `i`: on one of the given accounts, which is open, and dated `i` steps
-- after the start.
abbrev pub IsRound : List Account → ℕ → ℕ → Transaction → Type 0
IsRound accounts start i t =
    (a : Account) × IsOpen accounts a
    × (t.account_id ≡ a.account_id)
    × (t.customer_id ≡ a.customer_id)
    × (t.currency ≡ a.currency)
    × (t.transacted_at ≡ aware (start + i * step) (pos 0))
    × (t.posted_at ≡ some t.transacted_at)

abbrev pub IsBatch : List Account → ℕ → ℕ → List Transaction → Type 0
IsBatch accounts start i [] = Unit
IsBatch accounts start i (t ∷ ts) = IsRound accounts start i t × IsBatch accounts start (suc i) ts

module _ (draws : Draws) (now start : ℕ) (accounts : List Account) (a : Account)
    (more : List Account) where
  rounds-IsBatch :
      (i count : ℕ)
      → All (IsOpen accounts) (a ∷ more)
      → IsBatch accounts start i (rounds draws now start a more i count)
        × (length (rounds draws now start a more i count) ≡ count)
  unfolding rounds transaction
  rounds-IsBatch i zero h = (tt, refl)
  rounds-IsBatch i (suc count) h =
      let (batch, size) = rounds-IsBatch (suc i) count h in
      (
        (
          (
            choice a more (draws.account i),
            choice-All (IsOpen accounts) a more (draws.account i) h.0 h.1,
            refl,
            refl,
            refl,
            refl,
            refl,
          ),
          batch,
        ),
        omega arith,
      )

  rounds-past :
      (i count bound limit : ℕ)
      → i + count ≤ suc bound
      → start + bound * step ≤ limit
      → All (λ t. utc_micros t.transacted_at ≤ limit) (rounds draws now start a more i count)
  unfolding rounds transaction
  rounds-past i zero bound limit h k = tt
  rounds-past i (suc count) bound limit h k =
      (grind arith, rounds-past (suc i) count bound limit (omega arith) k)

-- The latest that a batch may be dated: now, and for each transaction after the 673rd a quarter
-- of an hour more.
abbrev pub latest : ℕ → ℕ → ℕ
latest now count = now + (count - 673) * step

start_of-le :
    (now count : ℕ)
    → start_offset ≤ now
    → start_of now + (672 + (count - 673)) * step ≤ latest now count
unfolding start_of
start_of-le now count h = omega arith

generate_from-IsBatch :
    (draws : Draws) (now : ℕ) (accounts opened : List Account) (count : ℕ) (ts : List Transaction)
    → All (IsOpen accounts) opened
    → generate_from draws now opened count ≡ ok ts
    → IsBatch accounts (start_of now) 0 ts × (length ts ≡ count)
generate_from-IsBatch draws now accounts [] count ts h e = absurd (ground arith)
generate_from-IsBatch draws now accounts (a ∷ more) count ts h e =
    let same : rounds draws now (start_of now) a more 0 count ≡ ts = ground arith in
    subst (λ l. IsBatch accounts (start_of now) 0 l × (length l ≡ count)) same
      (rounds-IsBatch draws now (start_of now) accounts a more 0 count h)

generate_from-past :
    (draws : Draws) (now : ℕ) (opened : List Account) (count : ℕ) (ts : List Transaction)
    → start_offset ≤ now
    → generate_from draws now opened count ≡ ok ts
    → All (λ t. utc_micros t.transacted_at ≤ latest now count) ts
generate_from-past draws now [] count ts h e = absurd (ground arith)
generate_from-past draws now (a ∷ more) count ts h e =
    let same : rounds draws now (start_of now) a more 0 count ≡ ts = ground arith in
    subst (λ l. All (λ t. utc_micros t.transacted_at ≤ latest now count) l) same
      (rounds-past draws now (start_of now) [] a more 0 count (672 + (count - 673))
        (latest now count) (omega arith) (start_of-le now count h))

-- A batch that is returned, at a time a week or more after the start of 1970, has `count`
-- transactions. Each is on an account of the list that is active and has no close date, with its
-- customer and currency, and number i is dated i quarters of an hour after the start. With 673
-- transactions or fewer (200 is the default) none lies in the future; with more, none by more than a
-- quarter of an hour for each that is over.
pub generate-IsBatch :
    (draws : Draws) (accounts : List Account) (count now : ℕ) (ts : List Transaction)
    → start_offset ≤ now
    → generate draws accounts count now ≡ ok ts
    → IsBatch accounts (start_of now) 0 ts
      × (length ts ≡ count)
      × All (λ t. utc_micros t.transacted_at ≤ latest now count) ts
unfolding generate
generate-IsBatch draws accounts count now ts past e =
    let (batch, size) =
      generate_from-IsBatch draws now accounts _ count ts (keep-IsOpen accounts) e in
    (batch, size, generate_from-past draws now _ count ts past e)

fails_of_none :
    (draws : Draws) (now : ℕ) (accounts : List Account) (count : ℕ)
    → All (λ a. is_eligible a ≡ false) accounts
    → keep is_eligible accounts ≡ []
fails_of_none draws now [] count h = refl
fails_of_none draws now (a ∷ accounts) count h = rw h.0 (fails_of_none draws now accounts count h.1)

none_of_empty :
    (accounts : List Account)
    → keep is_eligible accounts ≡ []
    → All (λ a. is_eligible a ≡ false) accounts
none_of_empty [] e = tt
none_of_empty (a ∷ accounts) e = ground (arith, none_of_empty accounts)

-- Generation raises exactly when no account of the list is active without a close date.
pub generate-fails_iff :
    (draws : Draws) (accounts : List Account) (count now : ℕ)
    → (generate draws accounts count now ≡ err no_eligible_accounts)
      ↔ All (λ a. is_eligible a ≡ false) accounts
unfolding generate
generate-fails_iff draws accounts count now = (
  λ e. none_of_empty accounts (empty_of_fails (keep is_eligible accounts) e),
  λ h. rw (fails_of_none draws now accounts count h),
)
  where
    empty_of_fails :
        (opened : List Account)
        → generate_from draws now opened count ≡ err no_eligible_accounts
        → opened ≡ []
    empty_of_fails [] e = refl
    empty_of_fails (a ∷ more) e = cc
