-- ===== src/Migrations.antt =====
-- app/migrations/runner.py: the migrations that are not recorded are applied in order, and recorded one
-- by one. What a migration does to the database is its own function.
pub mod Progress
pub mod Resume
pub mod Schematics
mod Tests
use Prim.Native.Char.{code}
use Prim.Native.String.{String}
use aobp.Prelude.{
  ℕ, Bool, true, false, ◌&&◌, not, Option, none, some, List, [], ◌∷◌, ◌++◌, map, if◌then◌else◌,
  string_eq, leb, member, keep,
}
use aobp.Result.{Result, ok, raise, Error, duplicate_key_error}
use aobp.Text.{str_leb, sorted}

-- A module of a migration: its name, `MIGRATION_ID` and `apply`, which may fail half-way.
pub record Migration (D : Type 0) : Type 0 where
  pub module_name : String
  pub migration_id : String
  pub apply : D → Result (Unit {0}) × D

-- The collections, and the ids in `_migrations`.
pub record Database (D : Type 0) : Type 0 where
  pub content : D
  pub applied : List String

-- `name[0].isdigit()`, for names of modules, which are ASCII.
unfoldable pub starts_with_digit : String → Bool
starts_with_digit String.[] = false
starts_with_digit (String.◌∷◌ c s) = leb 48 (code c) && leb (code c) 57

module _ {D : Type 0} where
  unfoldable pub discover_migrations : List (Migration D) → List (Migration D)
  discover_migrations modules =
      keep (λ m. starts_with_digit m.module_name)
        (sorted (λ a b. str_leb (Migration.module_name a) (Migration.module_name b)) modules)

  -- `insert_one` into `_migrations`; `broken` says which insertions fail.
  unfoldable pub insert_applied :
      (String → Option Error) → String → Database D → Result (Unit {0}) × Database D
  insert_applied broken migration_id db = elim (broken migration_id) [
    | some e ↦ (raise e, db)
    | none ↦
        if member migration_id db.applied
        then (raise duplicate_key_error, db)
        else (ok tt, record db { applied = db.applied ++ migration_id ∷ [] })
  ]

  -- One migration that is not recorded.
  unfoldable pub apply_migration :
      (String → Option Error) → Migration D → Database D → Result (Unit {0}) × Database D
  apply_migration broken m db =
      let (done, content') = m.apply db.content in
      elim done [
        | raise e ↦ (raise e, record db { content = content' })
        | ok _ ↦ insert_applied broken m.migration_id (record db { content = content' })
      ]

  -- The loop, with the ids that were read before it.
  unfoldable pub run_each :
      (String → Option Error)
      → List String
      → List (Migration D)
      → Database D
      → Result (Unit {0}) × Database D
  run_each broken applied_ids [] db = (ok tt, db)
  run_each broken applied_ids (m ∷ migrations) db = elim (member m.migration_id applied_ids) [
    | true ↦ run_each broken applied_ids migrations db
    | false ↦
        let (done, db') = apply_migration broken m db in
        elim done [ raise e ↦ (raise e, db') | ok _ ↦ run_each broken applied_ids migrations db' ]
  ]

  unfoldable pub run_migrations :
      (String → Option Error) → List (Migration D) → Database D → Result (Unit {0}) × Database D
  run_migrations broken modules db = run_each broken db.applied (discover_migrations modules) db
