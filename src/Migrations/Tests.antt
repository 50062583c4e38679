-- ===== src/Migrations/Tests.antt =====
-- Three migrations, of which one is recorded and one fails, and an import of two schematics, with the
-- theorems on the runner and on the import applied to them.
use aobp.Prelude.{
  ℕ, ◌≡◌, refl, String, Bool, true, false, Option, none, some, List, [], ◌∷◌, string_eq, nat_eq,
  member, keep,
}
use aobp.Result.{Result, ok, raise, Error, crashed, type_error, bulk_write_error}
use aobp.Text.{sorted, insert_sorted}
use aobp.Migrations.{
  Migration, Database, starts_with_digit, discover_migrations, insert_applied, apply_migration,
  run_each, run_migrations,
}
use aobp.Migrations.Progress.{pending, Progress}
use aobp.Dict.{get, put}
use aobp.Dict.Distinct.{distinct}
use aobp.MarketOrders.{chunks_from}
use aobp.Cache.{is_empty}
use aobp.Migrations.Schematics.{
  insert_many, insert_batches, replace_all, TypeMapRow, SchematicRow, SchematicDoc, read_type_map,
  schematic_docs, build_schematics,
}
use aobp.Migrations.Schematics.Imported.{
  by_id, last_output, inputs_of, document_of, build_schematics-Imported,
}
use aobp.Migrations.Resume.{all_once, run_migrations_resumes}

-- A migration that adds a number to the content, or fails when half of it is done.
abbrev adding : String → String → ℕ → Result (Unit {0}) → Migration (List ℕ)
adding name id n answer = record {
  module_name = name;
  migration_id = id;
  apply = λ d. (answer, n ∷ d);
}

abbrev modules : List (Migration (List ℕ))
modules =
    adding "0003_c" "c" 3 (raise type_error)
    ∷ adding "runner" "r" 9 (ok tt)
    ∷ adding "0002_b" "b" 2 (ok tt)
    ∷ adding "0001_a" "a" 1 (ok tt)
    ∷ []

abbrev first_recorded : Database (List ℕ)
first_recorded = record { content = 1 ∷ []; applied = "a" ∷ [] }

abbrev no_failure : String → Option Error
no_failure id = none

-- The second is applied and recorded, the third is not.
run_stops :
    run_migrations no_failure modules first_recorded
    ≡ (raise type_error, record { content = 3 ∷ 2 ∷ 1 ∷ []; applied = "a" ∷ "b" ∷ [] })
unfolding run_migrations discover_migrations run_each apply_migration insert_applied
    starts_with_digit keep sorted insert_sorted member
run_stops = refl

-- A crash between a migration and its record: the next run applies it again.
record_lost :
    let crash : String → Option Error = λ id. some crashed in
    (run_migrations crash modules first_recorded).1
    ≡ record { content = 2 ∷ 1 ∷ []; applied = "a" ∷ [] }
unfolding run_migrations discover_migrations run_each apply_migration insert_applied
    starts_with_digit keep sorted insert_sorted member
record_lost = refl

run_migrations_resumes_example :
    let answer = run_migrations no_failure modules first_recorded in
    (p : Progress
      (pending first_recorded.applied (discover_migrations modules))
      first_recorded
      answer)
    × (pending answer.1.applied (discover_migrations modules) ≡ p.rest)
run_migrations_resumes_example =
    run_migrations_resumes no_failure modules first_recorded (
      unfold all_once discover_migrations starts_with_digit keep sorted insert_sorted member in
      refl)

abbrev map_row : ℕ → ℕ → ℕ → Bool → TypeMapRow
map_row id t n input = record {
  schematic_id = id;
  entry = record { type_id = t; quantity = n };
  is_input = input;
}

-- Schematic 1 has two inputs and an output, and schematic 2 no output.
abbrev type_map : List TypeMapRow
type_map =
    map_row 1 70 40 true ∷ map_row 2 70 10 true ∷ map_row 1 80 5 false ∷ map_row 1 71 40 true ∷ []

abbrev schematics : List SchematicRow
schematics =
    record { schematic_id = 1; schematic_name = "Coolant"; cycle_time = 3600 }
    ∷ record { schematic_id = 2; schematic_name = "Nothing"; cycle_time = 3600 }
    ∷ []

abbrev coolant : SchematicDoc
coolant = record {
  name = "Coolant";
  cycle_time_seconds = 3600;
  output = record { type_id = 80; quantity = 5 };
  inputs = record { type_id = 70; quantity = 40 } ∷ record { type_id = 71; quantity = 40 } ∷ [];
}

-- The old document of another schematic is gone.
import_runs : build_schematics type_map schematics ((9, coolant) ∷ []) ≡ (ok tt, (1, coolant) ∷ [])
unfolding build_schematics read_type_map schematic_docs replace_all insert_batches insert_many
    chunks_from is_empty get put
import_runs = refl

-- An id that occurs twice: the batch is written, and the batches behind it are not.
duplicate_stops :
    replace_all {D = ℕ} 2 ((1, 10) ∷ (1, 11) ∷ (2, 20) ∷ []) []
    ≡ (raise bulk_write_error, (1, 10) ∷ [])
unfolding replace_all insert_batches insert_many chunks_from is_empty get
duplicate_stops = refl

build_schematics-Imported_example :
    let (answer, collection) = build_schematics type_map schematics ((9, coolant) ∷ []) in
    (answer ≡ ok tt)
    × (get 1 collection
        ≡ document_of (get 1 (by_id schematics)) (last_output 1 type_map) (inputs_of 1 type_map))
build_schematics-Imported_example =
    build_schematics-Imported type_map schematics ((9, coolant) ∷ []) 1
      (unfold distinct get in refl)
