-- ===== src/Migrations/Schematics.antt =====
-- app/migrations/0006_build_sde_planet_schematics.py, which 0007 runs once more: the schematics of the
-- planets, joined of two tables of the Static Data Export. The rows of the tables are given as read, and
-- MongoDB refuses nothing but duplicates.
pub mod Batches
pub mod Imported
use aobp.Prelude.{
  ℕ, String, Bool, true, false, Option, none, some, List, [], ◌∷◌, ◌++◌, nat_eq, length,
  if◌then◌else◌, get_or,
}
use aobp.Result.{Result, ok, raise, bulk_write_error}
use aobp.Dict.{Dict, get, put, has}
use aobp.Cache.{is_empty}
use aobp.MarketOrders.{chunks_from}

-- `_replace_all`. The collection's documents stand under their `_id`.
module _ {ℓ} {D : Type ℓ} where
  -- `insert_many(batch, ordered=False)`: every document is tried; whether one was a duplicate.
  unfoldable pub insert_many : Dict ℕ D → Dict ℕ D → Bool × Dict ℕ D
  insert_many [] collection = (false, collection)
  insert_many ((id, document) ∷ batch) collection =
      let (refused, rest) = insert_many batch collection in
      if has id collection
      then (true, rest)
      else insert_many batch (collection ++ (id, document) ∷ [])

  unfoldable pub insert_batches : List (Dict ℕ D) → Dict ℕ D → Result (Unit {0}) × Dict ℕ D
  insert_batches [] collection = (ok tt, collection)
  insert_batches (batch ∷ batches) collection =
      let (refused, collection') = insert_many batch collection in
      if is_empty batch
      then insert_batches batches collection
      else if refused
      then (raise bulk_write_error, collection')
      else insert_batches batches collection'

  -- `batch_size` is `_BATCH_SIZE`.
  unfoldable pub replace_all : ℕ → Dict ℕ D → Dict ℕ D → Result (Unit {0}) × Dict ℕ D
  replace_all batch_size documents collection =
      insert_batches (chunks_from batch_size documents (length documents) 0) []

abbrev pub schematics_batch_size : ℕ
schematics_batch_size = 5000

pub record Entry : Type 0 where
  pub type_id : ℕ
  pub quantity : ℕ

-- A row of `planetSchematicsTypeMap`.
pub record TypeMapRow : Type 0 where
  pub schematic_id : ℕ
  pub entry : Entry
  pub is_input : Bool

-- A row of `planetSchematics`.
pub record SchematicRow : Type 0 where
  pub schematic_id : ℕ
  pub schematic_name : String
  pub cycle_time : ℕ

pub record SchematicDoc : Type 0 where
  pub name : String
  pub cycle_time_seconds : ℕ
  pub output : Entry
  pub inputs : List Entry

-- The loop over the type map: the inputs and the output of each schematic.
unfoldable pub read_type_map :
    List TypeMapRow → Dict ℕ (List Entry) → Dict ℕ Entry → Dict ℕ (List Entry) × Dict ℕ Entry
read_type_map [] inputs outputs = (inputs, outputs)
read_type_map (row ∷ rows) inputs outputs =
    let before = get_or (get row.schematic_id inputs) [] in
    if row.is_input
    then read_type_map rows (put row.schematic_id (before ++ row.entry ∷ []) inputs) outputs
    else read_type_map rows inputs (put row.schematic_id row.entry outputs)

-- The loop over the schematics.
unfoldable pub schematic_docs :
    Dict ℕ (List Entry) → Dict ℕ Entry → List SchematicRow → Dict ℕ SchematicDoc
schematic_docs inputs_ outputs [] = []
schematic_docs inputs_ outputs (row ∷ rows) =
    let rest = schematic_docs inputs_ outputs rows in
    elim (get row.schematic_id outputs) [
      | none ↦ rest
      | some output_ ↦
          (
            row.schematic_id,
            record {
              name = row.schematic_name;
              cycle_time_seconds = row.cycle_time;
              output = output_;
              inputs = get_or (get row.schematic_id inputs_) [];
            },
          )
          ∷ rest
    ]

-- `apply`, on the collection `sde_planet_schematics`
unfoldable pub build_schematics :
    List TypeMapRow
    → List SchematicRow
    → Dict ℕ SchematicDoc
    → Result (Unit {0}) × Dict ℕ SchematicDoc
build_schematics type_map_rows schematic_rows collection =
    let (inputs, outputs) = read_type_map type_map_rows [] [] in
    replace_all schematics_batch_size (schematic_docs inputs outputs schematic_rows) collection
