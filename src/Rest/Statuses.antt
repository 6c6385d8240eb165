-- ===== src/Rest/Statuses.antt =====
-- The statuses of the routes.
use Prim.Native.String.{◌++◌ as str_append}
use stream_house_c360_demo.Prelude.{ℕ, String, str_eq, refl, ◌≡◌, false, none, List, [], arith}
use stream_house_c360_demo.Prelude.Effect.{ok, err, Action, http, index_error}
use stream_house_c360_demo.Config.{Settings}
use stream_house_c360_demo.Scalars.{Formats}
use stream_house_c360_demo.Kafka.{Client}
use stream_house_c360_demo.Transactions.Producer.{TransactionValue}
use stream_house_c360_demo.Transactions.Generator.{Draws}
use stream_house_c360_demo.Transactions.Service.{TransactionSink, generate_batch}
use stream_house_c360_demo.Transactions.Service as Transactions
use stream_house_c360_demo.Rest.{
  generate_route, generate_transactions, Crud, get_route, update_route, delete_route, by_name_route,
}

module _ {S A C U : Type 0} (crud : Crud S A C U) (detail : String) where
  -- If the service finds no entity of an id, reading, updating and deleting it all end in a 404.
  pub routes-missing :
      (id : ℕ) (fields : U) (s : S)
      → (crud.get_by_id id s).0 ≡ ok none
      → (crud.update id fields s).0 ≡ ok none
      → (crud.delete_by_id id s).0 ≡ ok false
      → ((get_route crud detail id s).0 ≡ err (http 404 detail))
        × ((update_route crud detail id fields s).0 ≡ err (http 404 detail))
        × ((delete_route crud detail id s).0 ≡ err (http 404 detail))
  unfolding get_route update_route delete_route
  routes-missing id fields s g u d = ground arith

  -- If no customer has a name, the route by name raises an `IndexError`, and no 404.
  pub by_name_route-missing :
      (get_by_name : String → Action S (List A)) (name : String) (s : S)
      → (get_by_name name s).0 ≡ ok []
      → (by_name_route crud detail get_by_name name s).0 ≡ err index_error
  unfolding by_name_route
  by_name_route-missing get_by_name name s e = ground arith

module _ {D : Type 0} (f : Formats) (sink : TransactionSink D) (client : Client TransactionValue)
    (settings : Settings) where
  -- On any other sink than PostgreSQL the generation ends in a 501, and nothing changes.
  pub generate_transactions-unsupported :
      (draws : Draws) (now : ℕ) (w : Transactions.World D)
      → str_eq settings.sink "postgres" ≡ false
      → generate_transactions f sink client settings draws now w ≡ (
        err (
            http 501 (
              str_append "Generation requires SINK=postgres (current sink: "
                (str_append settings.sink ")"))),
        w,
      )
  unfolding generate_transactions generate_route generate_batch
  generate_transactions-unsupported draws now w e = rw e refl
