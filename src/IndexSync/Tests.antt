-- ===== src/IndexSync/Tests.antt =====
-- Two files of indexes, of which one index has changed and one is new, with a record that is no
-- longer wanted; and the theorems on the synchronisation applied to them.
use aobp.Prelude.{
  ℕ, ◌≡◌, refl, String, true, Option, none, some, List, [], ◌∷◌, string_eq, nat_eq, member,
}
use aobp.Result.{ok, raise, Error, value_error}
use aobp.Dict.{get, put, remove}
use aobp.IndexSync.{
  IndexConfig, Index, State, record_id, load_file, load_index_configs, desired_indexes,
  drop_index_if_exists, sync_index, sync_each, drop_unmanaged, sync_desired, sync_indexes,
}
use aobp.IndexSync.Again.{all_different, sync_desired-again}

abbrev config : String → ℕ → IndexConfig ℕ
config name_ n = record { name = some name_; has_keys = true; spec = n }

abbrev index : String → String → ℕ → Index ℕ
index collection name n = record { collection = collection; name = name; spec = n }

abbrev files : List (String × List (IndexConfig ℕ))
files = ("orders", config "region" 1 ∷ config "age" 2 ∷ []) ∷ ("types", config "name" 3 ∷ []) ∷ []

abbrev wanted : List (Index ℕ)
wanted = index "orders" "region" 1 ∷ index "orders" "age" 2 ∷ index "types" "name" 3 ∷ []

abbrev before : State ℕ
before = record {
  indexes = ("orders.region", 1) ∷ ("orders.age", 7) ∷ ("old.gone", 4) ∷ [];
  records =
      ("orders.region", index "orders" "region" 1)
      ∷ ("orders.age", index "orders" "age" 7)
      ∷ ("old.gone", index "old" "gone" 4)
      ∷ [];
  commands = 0;
}

abbrev after : State ℕ
after = record {
  indexes = ("orders.region", 1) ∷ ("orders.age", 2) ∷ ("types.name", 3) ∷ [];
  records =
      ("orders.region", index "orders" "region" 1)
      ∷ ("orders.age", index "orders" "age" 2)
      ∷ ("types.name", index "types" "name" 3)
      ∷ [];
  commands = 5;
}

abbrev all_built : String → Option Error
all_built id = none

sync_run : sync_indexes all_built files before ≡ (ok tt, after)
unfolding sync_indexes load_index_configs load_file desired_indexes sync_desired sync_each
    sync_index drop_unmanaged drop_index_if_exists record_id get put remove member
sync_run = refl

-- A name that stands twice in a file: nothing is changed.
sync_duplicate :
    sync_indexes all_built (("orders", config "age" 1 ∷ config "age" 2 ∷ []) ∷ []) before
    ≡ (raise value_error, before)
unfolding sync_indexes load_index_configs load_file member
sync_duplicate = refl

sync_desired-again_example :
    let st' = (sync_desired all_built wanted before).1 in
    sync_desired all_built wanted st' ≡ (ok tt, st')
sync_desired-again_example =
    sync_desired-again all_built all_built wanted before
      (unfold all_different member record_id in refl)
      (unfold sync_desired sync_each sync_index drop_unmanaged drop_index_if_exists record_id get
          put remove member in
        refl)
