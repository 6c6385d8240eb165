-- ===== src/Tests/Inventories.antt =====
-- The inventories at sample accounts.
use stream_house_c360_demo.Prelude.{
  ◌≡◌, refl, none, some, [], ◌∷◌, map, is_some, if◌then◌else◌, ◌==◌,
}
use stream_house_c360_demo.Inventory.{
  rewrite_csv, replace, find, create, update, delete_by_id, get_by_id,
}
use stream_house_c360_demo.Inventory.Lookup.{
  put_over, HasDistinctIds, get_by_id-create, get_by_id-update, get_by_id-delete_by_id,
  operations-HasDistinctIds,
}
use stream_house_c360_demo.Tests.Samples.{account, account_codec, one_account}

get_by_id-create_example :
    get_by_id account_codec 8 (create account_codec (account "aaa" 8) one_account).1
    ≡ elim (get_by_id account_codec 8 one_account) [
      | none ↦ (if (account "aaa" 8).account_id == 8 then some (account "aaa" 8) else none)
      | some x ↦ some x
    ]
get_by_id-create_example = get_by_id-create account_codec (account "aaa" 8) 8 one_account

get_by_id-update_example :
    (get_by_id account_codec 7 (update account_codec (account "aaaa" 7) one_account).1 ≡ (
      if 7 == 7
      then put_over account_codec (account "aaaa" 7) (get_by_id account_codec 7 one_account)
      else get_by_id account_codec 7 one_account))
    × (map (λ a. a.account_id) (update account_codec (account "aaaa" 7) one_account).1.cache
        ≡ 7 ∷ [])
get_by_id-update_example = get_by_id-update account_codec (account "aaaa" 7) 7 one_account

get_by_id-delete_by_id_example :
    ((delete_by_id account_codec 7 one_account).0 ≡ is_some (get_by_id account_codec 7 one_account))
    × ((if is_some (get_by_id account_codec 7 one_account)
          then one_account
          else (delete_by_id account_codec 7 one_account).1)
        ≡ one_account)
    × (get_by_id account_codec 8 (delete_by_id account_codec 7 one_account).1
        ≡ (if 7 == 8 then none else get_by_id account_codec 8 one_account))
get_by_id-delete_by_id_example = get_by_id-delete_by_id account_codec 7 8 one_account

absent : get_by_id account_codec 8 one_account ≡ none
unfolding get_by_id find
absent = refl

operations-HasDistinctIds_example :
    HasDistinctIds account_codec (create account_codec (account "aaa" 8) one_account).1.cache
    × HasDistinctIds account_codec (update account_codec (account "aaaa" 7) one_account).1.cache
    × HasDistinctIds account_codec (delete_by_id account_codec 7 one_account).1.cache
operations-HasDistinctIds_example =
    operations-HasDistinctIds account_codec (account "aaa" 8) (account "aaaa" 7) 7 one_account
      (tt, tt) absent

found_after_update :
    get_by_id account_codec 7 (update account_codec (account "aaaa" 7) one_account).1
    ≡ some (account "aaaa" 7)
unfolding get_by_id find update replace rewrite_csv
found_after_update = refl
