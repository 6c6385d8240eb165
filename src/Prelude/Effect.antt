-- ===== src/Prelude/Effect.antt =====
-- Python calls: a result or a raised exception, over a state that keeps what was written.
use Prim.Native.Nat.{ℕ}
use Prim.Native.String.{String}

-- What a call of the Kafka client or of the Schema Registry client raises.
pub data Fault : Type 0 where
  topic_already_exists : Fault
  registry_status : ℕ → Fault
  other_fault : ℕ → Fault

-- `http` is FastAPI's `HTTPException` with its status and detail; `invalid` a pydantic
-- `ValidationError` or the `KeyError` of a missing column; `sql` any other error of the
-- database, and `unique_violation` one kind of integrity error.
pub data Error : Type 0 where
  http : ℕ → String → Error
  kafka : Fault → Error
  invalid type_error value_error index_error no_eligible_accounts : Error
  unsupported_sink : String → Error
  unique_violation integrity_error : Error
  runtime_error pool_exhausted : Error
  sql : ℕ → Error

pub data Result {ℓ} (A : Type ℓ) : Type ℓ where
  ok : A → Result A
  err : Error → Result A

abbrev pub Action : Type 0 → Type 0 → Type 0
Action S A = S → Result A × S

module _ {S A : Type 0} where
  abbrev pub pure : A → Action S A
  pure a s = (ok a, s)

  abbrev pub raise : Error → Action S A
  raise e s = (err e, s)

  -- `try: m except Exception: h`
  abbrev pub catch : Action S A → (Error → Action S A) → Action S A
  catch m h s = let (r, s') = m s in elim r [ ok a ↦ (ok a, s') | err e ↦ h e s' ]

infixl 5 ◌>>=◌ ◌>>◌
abbrev pub ◌>>=◌ : {S A B : Type 0} → Action S A → (A → Action S B) → Action S B
◌>>=◌ m f s = let (r, s') = m s in elim r [ ok a ↦ f a s' | err e ↦ (err e, s') ]

abbrev pub ◌>>◌ : {S A B : Type 0} → Action S A → Action S B → Action S B
m >> k = m >>= λ _. k

-- What every run of an action keeps true of the state, also one that raises.
abbrev pub Keeps : {S A : Type 0} → (S → Type 0) → Action S A → Type 0
Keeps {S} P m = (s : S) → P s → P (m s).1

module _ {S A B : Type 0} (P : S → Type 0) where
  bind_result :
      (f : A → Action S B) (r : Result A) (s : S)
      → ((a : A) → Keeps P (f a))
      → P s
      → P (let k : Result B × S = elim r [ ok a ↦ f a s | err e ↦ (err e, s) ] in k.1)
  bind_result f (ok a) s hf h = hf a s h
  bind_result f (err e) s hf h = h

  pub Keeps->>= :
      (m : Action S A) (f : A → Action S B)
      → Keeps P m
      → ((a : A) → Keeps P (f a))
      → Keeps P (m >>= f)
  Keeps->>= m f hm hf s h = bind_result f (m s).0 (m s).1 hf (hm s h)

  pub Keeps->> : (m : Action S A) (k : Action S B) → Keeps P m → Keeps P k → Keeps P (m >> k)
  Keeps->> m k hm hk = Keeps->>= m (λ _. k) hm (λ _. hk)
