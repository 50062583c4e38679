-- ===== src/IndexSync.antt =====
-- app/db/index_sync.py: the indexes of MongoDB are brought in line with the configuration files. The
-- rest of an index's specification, its keys and options, is of a type `S`.
pub mod Records
pub mod Again
mod Tests
use aobp.Prelude.{
  ℕ, suc, String, Bool, true, false, ◌||◌, not, Option, none, some, List, [], ◌∷◌, ◌++◌, map,
  if◌then◌else◌, string_eq, Eq, ◌==◌, member, get_or,
}
use aobp.Result.{Result, ok, raise, Error, value_error, ◌>>=◌}
use aobp.Text.{◌⧺◌}
use aobp.Dict.{Dict, get, put, remove}

-- An index of a configuration file: `name` may be missing, and `has_keys` says that `keys` is filled.
pub record IndexConfig (S : Type 0) : Type 0 where
  pub name : Option String
  pub has_keys : Bool
  pub spec : S

-- An index that is wanted, and also a document of `_index_config`.
pub record Index (S : Type 0) : Type 0 where
  pub collection : String
  pub name : String
  pub spec : S

-- What MongoDB has: the indexes, each under the id that stands for its collection and name, and
-- `_index_config` by `_id`; and the number of the commands that built or dropped an index.
pub record State (S : Type 0) : Type 0 where
  pub indexes : Dict String S
  pub records : Dict String (Index S)
  pub commands : ℕ

module _ {S : Type 0} where
  -- `f"{collection}.{name}"`
  unfoldable pub record_id : Index S → String
  record_id index = index.collection ⧺ "." ⧺ index.name

  -- The indexes of one file, with the names that were seen in it.
  unfoldable pub load_file : String → List String → List (IndexConfig S) → Result (List (Index S))
  load_file collection seen_names [] = ok []
  load_file collection seen_names (config ∷ configs) = elim config.name [
    | none ↦ raise value_error
    | some name_ ↦
        if name_ == "" || not config.has_keys || member name_ seen_names
        then raise value_error
        else (do
          rest ← load_file collection (name_ ∷ seen_names) configs
          ok (record { collection = collection; name = name_; spec = config.spec } ∷ rest))
  ]

  -- `load_index_configs`, for the files in the order of their names, after `configs`.
  unfoldable pub load_index_configs :
      Dict String (List (Index S))
      → List (String × List (IndexConfig S))
      → Result (Dict String (List (Index S)))
  load_index_configs configs [] = ok configs
  load_index_configs configs ((collection, indexes) ∷ files) = do
    loaded ← load_file collection [] indexes
    load_index_configs (put collection (get_or (get collection configs) [] ++ loaded) configs) files

  -- The two loops over `desired.items()`, as one list.
  unfoldable pub desired_indexes : Dict String (List (Index S)) → List (Index S)
  desired_indexes [] = []
  desired_indexes ((collection, specs) ∷ desired) = specs ++ desired_indexes desired

  -- `_drop_index_if_exists`: that there is no such index is no failure.
  unfoldable pub drop_index_if_exists : String → State S → State S
  drop_index_if_exists id st = record st {
    indexes = remove id st.indexes;
    commands = suc st.commands;
  }

  module _ ⦃e : Eq S⦄ where
    -- One wanted index; `broken` says which indexes cannot be built.
    unfoldable pub sync_index :
        (String → Option Error) → Index S → State S → Result (Unit {0}) × State S
    sync_index broken index st =
        let id = record_id index in
        let dropped = drop_index_if_exists id st in
        let built : Result (Unit {0}) × State S = elim (broken id) [
          | some error ↦ (raise error, dropped)
          | none ↦ (
            ok tt,
            record dropped {
              indexes = put id index.spec dropped.indexes;
              records = put id index dropped.records;
              commands = suc dropped.commands;
            },
          )
        ] in
        elim (get id st.records) [
          | none ↦ built
          | some existing ↦ if Index.spec existing == index.spec then (ok tt, st) else built
        ]

    unfoldable pub sync_each :
        (String → Option Error) → List (Index S) → State S → Result (Unit {0}) × State S
    sync_each broken [] st = (ok tt, st)
    sync_each broken (index ∷ desired) st =
        let (done, st') = sync_index broken index st in
        elim done [ raise error ↦ (raise error, st') | ok _ ↦ sync_each broken desired st' ]

  -- The loop over the records, as they were read at its start.
  unfoldable pub drop_unmanaged : List String → Dict String (Index S) → State S → State S
  drop_unmanaged desired_ids [] st = st
  drop_unmanaged desired_ids ((id, index) ∷ items) st =
      let dropped = drop_index_if_exists id st in
      drop_unmanaged desired_ids items (
        if member id desired_ids
        then st
        else record dropped { records = remove id dropped.records })

  module _ ⦃e : Eq S⦄ where
    -- What follows the reading of the files.
    unfoldable pub sync_desired :
        (String → Option Error) → List (Index S) → State S → Result (Unit {0}) × State S
    sync_desired broken desired st =
        let (done, st') = sync_each broken desired st in
        elim done [
          | raise error ↦ (raise error, st')
          | ok _ ↦ (ok tt, drop_unmanaged (map record_id desired) st'.records st')
        ]

    unfoldable pub sync_indexes :
        (String → Option Error)
        → List (String × List (IndexConfig S))
        → State S
        → Result (Unit {0}) × State S
    sync_indexes broken files st = elim (load_index_configs [] files) [
      | raise error ↦ (raise error, st)
      | ok configs ↦ sync_desired broken (desired_indexes configs) st
    ]
