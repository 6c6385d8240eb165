-- ===== src/Analytics/Clients/Closed.antt =====
-- Every connection of a query is closed.
use stream_house_c360_demo.Prelude.{◌-◌, ℕ, suc, List, [], ◌∷◌, if◌then◌else◌}
use stream_house_c360_demo.Config.{Settings}
use stream_house_c360_demo.Analytics.Clients.{Call, connect, close_connection, Driver}

module _ {V : Type 0} (driver : Driver V) (settings : Settings) where
  -- the connections that were opened and not closed, after calls the latest first
  abbrev pub open_after : List Call → ℕ
  open_after [] = 0
  open_after (connect ∷ calls) =
      if driver.succeeds calls connect then suc (open_after calls) else open_after calls
  open_after (close_connection ∷ calls) = open_after calls - 1
  open_after (_ ∷ calls) = open_after calls
