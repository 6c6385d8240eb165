-- ===== src/Scalars.antt =====
-- The scalar values of the entities: floats, dates, timestamps and UUIDs, and how the producers
-- encode them (_money, _to_debezium_date and _to_debezium_ts of the kafka_producer modules).
pub mod Money
pub mod Dates
pub mod Uuids
use Prim.Native.Nat.{◌/◌, ◌%◌, ◌^◌}
use stream_house_c360_demo.Prelude.Int.{ℤ, sub_ℕ}
use stream_house_c360_demo.Prelude.{
  ℕ, ◌+◌, ◌-◌, ◌*◌, String, ◌≡◌, ◌≢◌, Bool, true, false, Option, none, some, leb, ltb, ◌==◌,
  if◌then◌else◌,
}

-- A finite float, as the decimal that `str` shows for it, with 26 digits before the point at most
-- (beyond that `quantize` raises): its value is digits / 10 ^ places, with the sign.
pub record Float : Type 0 where
  pub negative : Bool
  pub digits : ℕ
  pub places : ℕ

-- A `Decimal` with two places.
pub record Cents : Type 0 where
  pub negative : Bool
  pub cents : ℕ

-- n / d to the nearest whole number, a tie to the even one: the rounding of `quantize`.
unfoldable pub round_half_even : ℕ → ℕ → ℕ
round_half_even n d =
    let q = n / d in
    let twice = 2 * (n % d) in
    if ltb twice d then q else if ltb d twice then q + 1 else if q % 2 == 0 then q else q + 1

-- the digits of the value at two places
unfoldable pub quantize_cents : ℕ → ℕ → ℕ
quantize_cents digits places =
    if leb places 2 then digits * 10 ^ (2 - places) else round_half_even digits (10 ^ (places - 2))

-- `Decimal(str(v)).quantize(Decimal("0.01"))`
unfoldable pub money : Float → Cents
unfolding quantize_cents
money v = record { negative = v.negative; cents = quantize_cents v.digits v.places }

-- `_money`
abbrev pub money_opt : Option Float → Option Cents
money_opt none = none
money_opt (some v) = some (money v)

-- A day is its proleptic ordinal, 1 for 0001-01-01.
abbrev pub Date : Type 0
Date = ℕ

-- `date(1970, 1, 1).toordinal()`
abbrev pub epoch : Date
epoch = 719163

-- `(d - _EPOCH).days`
unfoldable pub days_since_epoch : Date → ℤ
days_since_epoch d = sub_ℕ d epoch

-- `_to_debezium_date`
abbrev pub to_debezium_date : Option Date → Option ℤ
to_debezium_date none = none
to_debezium_date (some d) = some (days_since_epoch d)

-- A timestamp in microseconds: of a wall clock with no zone, or of UTC, with the offset of the
-- zone that it is shown in.
pub data Datetime : Type 0 where
  naive : ℕ → Datetime
  aware : ℕ → ℤ → Datetime

-- `dt.astimezone(timezone.utc)`, after a missing zone is taken for UTC
abbrev pub utc_micros : Datetime → ℕ
utc_micros (naive t) = t
utc_micros (aware t offset) = t

-- How the standard library and pydantic write and read scalars. A UUID is its 128-bit number.
pub record Formats : Type 0 where
  pub uuid_text : ℕ → String
  pub uuid_of : String → Option ℕ
  pub float_text : Float → String
  pub float_of : String → Option Float
  pub date_text : Date → String
  pub date_of : String → Option Date
  pub datetime_text : Datetime → String
  pub datetime_of : String → Option Datetime
  -- `strftime("%Y-%m-%dT%H:%M:%S.")` and six digits of microseconds and "Z"
  pub zoned_text : ℕ → String
  -- `uuid5(_ACCOUNT_ID_NAMESPACE, name)`
  pub uuid5 : String → ℕ

-- What is written is not empty, and is read back as it was.
pub record RoundTrips (f : Formats) : Type 0 where
  pub uuid : (u : ℕ) → f.uuid_of (f.uuid_text u) ≡ some u
  pub uuid_nonempty : (u : ℕ) → f.uuid_text u ≢ ""
  pub float : (v : Float) → f.float_of (f.float_text v) ≡ some v
  pub float_nonempty : (v : Float) → f.float_text v ≢ ""
  pub date : (d : Date) → f.date_of (f.date_text d) ≡ some d
  pub date_nonempty : (d : Date) → f.date_text d ≢ ""
  pub datetime : (t : Datetime) → f.datetime_of (f.datetime_text t) ≡ some t
  pub datetime_nonempty : (t : Datetime) → f.datetime_text t ≢ ""

module _ (f : Formats) where
  -- `_to_debezium_ts` of customers/kafka_producer.py and accounts/kafka_producer.py
  unfoldable pub to_debezium_ts : Option Datetime → String
  to_debezium_ts none = "1970-01-01T00:00:00.000000Z"
  to_debezium_ts (some t) = f.zoned_text (utc_micros t)
