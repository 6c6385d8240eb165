-- ===== src/Scalars/Dates.antt =====
-- The encoding of dates keeps their order.
use stream_house_c360_demo.Prelude.{◌<◌, ◌↔◌, arith}
use stream_house_c360_demo.Prelude.Int.{◌<ℤ◌}
use stream_house_c360_demo.Scalars.{Date, days_since_epoch}

-- Two dates are ordered as their days since 1970 are, before the epoch too.
days_since_epoch-lt_iff : (d e : Date) → (d < e) ↔ (days_since_epoch d <ℤ days_since_epoch e)
unfolding days_since_epoch
days_since_epoch-lt_iff d e = (λ h. ground arith, λ h. ground arith)
