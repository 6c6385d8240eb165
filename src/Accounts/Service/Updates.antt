-- ===== src/Accounts/Service/Updates.antt =====
-- What an update makes of an account in the inventory: the close date, and what stays.
use stream_house_c360_demo.Prelude.{
  ℕ, ◌≡◌, true, false, arith, str_eq, All, is_some, if◌then◌else◌, inl, inr, Option-cases,
}
use stream_house_c360_demo.Config.{Settings}
use stream_house_c360_demo.Scalars.{Date, Datetime, Formats}
use stream_house_c360_demo.Kafka.{Client}
use stream_house_c360_demo.Inventory
use stream_house_c360_demo.Inventory.{find, replace}
use stream_house_c360_demo.Inventory.Lookup.{All-find, All-replace}
use stream_house_c360_demo.Dispatch
use stream_house_c360_demo.Dispatch.{given, Sink, World}
use stream_house_c360_demo.Accounts.Models.{Account, AccountCreate, AccountUpdate}
use stream_house_c360_demo.Accounts.Inventory.{codec}
use stream_house_c360_demo.Accounts.Producer.{AccountValue}
use stream_house_c360_demo.Accounts.Service.{merge, stamp_close, update}

-- An account that is closed has a close date.
abbrev pub HasCloseDate : Account → Type 0
HasCloseDate a = (if str_eq a.status "CLOSED" then is_some a.closed_date else true) ≡ true

merge-HasCloseDate :
    (a : Account) (fields : AccountUpdate) (now : Datetime) (today : Date)
    → HasCloseDate a
    → HasCloseDate (merge a (stamp_close today fields) now)
unfolding merge stamp_close
merge-HasCloseDate a fields now today h = ground arith

module _ (f : Formats) (now : Datetime) (today : Date) {D : Type 0}
    (sink : Sink D Account AccountCreate AccountUpdate) (client : Client AccountValue)
    (settings : Settings) where
  -- On the inventory path, if each closed account has a close date before an update, it has one
  -- after it, whatever the update sets, and whether or not its event can be sent. Of
  -- an account that was created closed and without a date nothing is said.
  pub update-HasCloseDate :
      (id : ℕ) (fields : AccountUpdate) (w : World D Account AccountValue)
      → str_eq settings.sink "postgres" ≡ false
      → All HasCloseDate w.inventory.cache
      → All HasCloseDate (update f now today sink client settings id fields w).1.inventory.cache
  unfolding update Dispatch.update Dispatch.update_in_inventory Inventory.get_by_id Inventory.update
      Dispatch.emit
  update-HasCloseDate id fields w kafka h =
      elim (Option-cases (find (codec f now today) id w.inventory.cache)) [
        | inl missing ↦ rw (kafka, missing) h
        | inr (a, found) ↦
            let kept =
              All-replace (codec f now today) HasCloseDate (merge a (stamp_close today fields) now)
                w.inventory.cache
                (merge-HasCloseDate a fields now today
                  (All-find (codec f now today) HasCloseDate id w.inventory.cache a found h))
                h in
            rw (kafka, found) (ground arith)
      ]
