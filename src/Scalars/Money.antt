-- ===== src/Scalars/Money.antt =====
-- The amount of a change event is the float's value rounded to the nearest cent.
use Prim.Native.Nat.{suc, ◌%◌, ◌^◌}
use native.Mathlib.Nat.{pow-suc}
use stream_house_c360_demo.Prelude.{zero, suc, ℕ, ◌+◌, ◌-◌, ◌*◌, ◌≤◌, ◌<◌, ◌≡◌, refl, arith}
use stream_house_c360_demo.Scalars.{Float, round_half_even, quantize_cents, money}

-- The distance to the quotient is half a unit at most.
round_half_even_nearest :
    (n d : ℕ)
    → 0 < d
    → (2 * n ≤ 2 * (round_half_even n d * d) + d) × (2 * (round_half_even n d * d) ≤ 2 * n + d)
unfolding round_half_even
round_half_even_nearest n d h = grind arith

-- A value halfway between two whole numbers is rounded to the even one.
round_half_even_tie : (n d : ℕ) → 2 * (n % d) ≡ d → round_half_even n d % 2 ≡ 0
unfolding round_half_even
round_half_even_tie n d h = grind arith

-- Scaling by a hundred what is near in the smaller unit.
nearest_hundred :
    (n c p P : ℕ)
    → P ≡ 100 * p
    → (2 * n ≤ 2 * (c * p) + p) × (2 * (c * p) ≤ 2 * n + p)
    → (2 * (n * 100) ≤ 2 * (c * P) + P) × (2 * (c * P) ≤ 2 * (n * 100) + P)
nearest_hundred n c p P e h = let scaled : c * P ≡ 100 * (c * p) = rw e (grind arith) in omega arith

-- 10 ^ (k + 3) in hundreds
pow_places : (k : ℕ) → 10 ^ suc (suc (suc k)) ≡ 100 * 10 ^ suc k
pow_places k = rw (pow-suc 10 (suc (suc k)), pow-suc 10 (suc k)) (omega arith)

pow_pos : (k : ℕ) → 0 < 10 ^ k
pow_pos zero = omega arith
pow_pos (suc k) = rw (pow-suc 10 k) (omega (arith, pow_pos k))

quantize_cents_past :
    (n k : ℕ) → quantize_cents n (suc (suc (suc k))) ≡ round_half_even n (10 ^ suc k)
unfolding quantize_cents
quantize_cents_past n k = let e : suc (suc (suc k)) - 2 ≡ suc k = omega arith in rw e (ground arith)

quantize_cents_nearest :
    (n places : ℕ)
    → let P = 10 ^ places in
      (2 * (n * 100) ≤ 2 * (quantize_cents n places * P) + P)
      × (2 * (quantize_cents n places * P) ≤ 2 * (n * 100) + P)
unfolding quantize_cents
quantize_cents_nearest n zero = omega arith
quantize_cents_nearest n (suc zero) = omega arith
quantize_cents_nearest n (suc (suc zero)) = omega arith
quantize_cents_nearest n (suc (suc (suc k))) = rw (quantize_cents_past n k) (
    nearest_hundred n (round_half_even n (10 ^ suc k)) (10 ^ suc k) _ (pow_places k)
      (round_half_even_nearest n (10 ^ suc k) (pow_pos (suc k))))

-- The cents of a change event differ from the float's value by half a cent at most, and the sign
-- is kept.
pub money_nearest :
    (v : Float)
    → let P = 10 ^ v.places in
      ((money v).negative ≡ v.negative)
      × (2 * (v.digits * 100) ≤ 2 * ((money v).cents * P) + P)
      × (2 * ((money v).cents * P) ≤ 2 * (v.digits * 100) + P)
unfolding money
money_nearest v = let (low, high) = quantize_cents_nearest v.digits v.places in (refl, low, high)
