-- ===== src/Tests/Sinks.antt =====
-- A sink over a server whose tables are a count, and that refuses an insert.
use stream_house_c360_demo.Prelude.{◌+◌, ℕ, String, true, Option, none, some, [], ◌∷◌}
use stream_house_c360_demo.Prelude.Effect.{Error, ok, pure}
use stream_house_c360_demo.Database.{Pool}
use stream_house_c360_demo.DbSink.{
  text, Server, Table, update_sql, delete_sql, insert_returning_sql, get_by_id, select_all,
  list_all, update, delete_by_id, create_or_conflict,
}
use stream_house_c360_demo.DbSink.Outcomes.{Reads, Leaves, operations-Leave}
use stream_house_c360_demo.Accounts.Models.{Account}
use stream_house_c360_demo.Accounts.DbSink.{accounts_table}
use stream_house_c360_demo.Tests.Samples.{formats, account}

abbrev row : Account
row = account "A1" 7

abbrev pub server : Server ℕ Account
server = record {
  execute = λ sql params tables. (ok (record { rows = row ∷ []; rowcount = 1 }), tables + 1);
  execute_batch = λ sql batch tables. (ok tt, tables + 1);
  count = λ table tables. (ok 0, tables);
  publication = record {
    exists_publication = pure true;
    create_publication = pure tt;
    has_table = λ table. pure true;
    add_table = λ table. pure tt;
  };
}

abbrev pub read : Account → Option Account
read a = some a

abbrev url : Option String
url = some "postgresql://db/c360"

abbrev pub connect : Pool ℕ → Option Error
connect s = none

abbrev pub commit : ℕ → Option Error
commit tables = none

abbrev pub pool : Pool ℕ
pool = record { committed = 5; in_use = 2 }

abbrev table : Table Account
table = accounts_table formats

operations-Leave_example :
    Reads table server read formats.uuid_text url connect commit pool
      (get_by_id table server read formats.uuid_text url connect commit 7 pool)
    × Reads table server read formats.uuid_text url connect commit pool
        (select_all table server read formats.uuid_text url connect commit "SELECT 1" [] pool)
    × Reads table server read formats.uuid_text url connect commit pool
        (list_all table server read formats.uuid_text url connect commit pool)
    × Reads table server read formats.uuid_text url connect commit pool
        (update table server read formats.uuid_text url connect commit 7 [] pool)
    × Leaves table server read formats.uuid_text url connect commit
        (update_sql table (("status", text "CLOSED") ∷ []))
        (text "CLOSED" ∷ text (formats.uuid_text 7) ∷ [])
        pool
        (update table server read formats.uuid_text url connect commit 7
          (("status", text "CLOSED") ∷ [])
          pool)
    × Leaves table server read formats.uuid_text url connect commit
        (delete_sql table)
        (text (formats.uuid_text 7) ∷ [])
        pool
        (delete_by_id table server read formats.uuid_text url connect commit 7 pool)
    × Leaves table server read formats.uuid_text url connect commit
        (insert_returning_sql table)
        (table.insert_params row)
        pool
        (create_or_conflict table server read formats.uuid_text url connect commit "taken" row pool)
operations-Leave_example =
    operations-Leave table server read formats.uuid_text url connect commit "taken" row 7 "SELECT 1"
      [] ("status", text "CLOSED") [] pool
