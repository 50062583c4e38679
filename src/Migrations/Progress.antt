-- ===== src/Migrations/Progress.antt =====
-- How far a run of the migrations comes, and where the next one goes on.
use mathlib.Core.List.{append-nil, append_assoc}
use aobp.Prelude.{
  ◌≡◌, refl, sym, ap, ◌∙◌, String, not, Option, List, [], ◌∷◌, ◌++◌, map, string_eq, member, keep,
  inl, inr, Bool-cases, Option-cases,
}
use aobp.Result.{Result, ok, raise, Error, is_ok, Result-cases, duplicate_key_error}
use aobp.Cache.{is_empty}
use aobp.Migrations.{
  Migration, Database, discover_migrations, insert_applied, apply_migration, run_each,
  run_migrations,
}

module _ {D : Type 0} where
  -- The migrations that are not among the recorded ones.
  unfoldable pub pending : List String → List (Migration D) → List (Migration D)
  pending applied = keep (λ m. not (member m.migration_id applied))

  abbrev pub ids : List (Migration D) → List String
  ids = map Migration.migration_id

  -- Each migration succeeded, on what the one before it had left.
  pub data Succeeded : List (Migration D) → D → D → Type 0 where
    nothing : {d d' : D} → d ≡ d' → Succeeded [] d d'
    next :
        {m : Migration D} {ms : List (Migration D)} {d d₁ d' : D}
        → m.apply d ≡ (ok tt, d₁)
        → Succeeded ms d₁ d'
        → Succeeded (m ∷ ms) d d'

  -- What the first of the migrations that were left has done to the database, successful or not.
  unfoldable pub tried : List (Migration D) → D → D
  tried [] d = d
  tried (m ∷ ms) d = (m.apply d).1

  -- A run from `db` over the migrations `todo`, with its answer.
  pub record Progress (todo : List (Migration D)) (db : Database D)
      (answer : Result (Unit {0}) × Database D) : Type 0 where
    pub done : List (Migration D)
    pub rest : List (Migration D)
    pub reached : D
    pub split : todo ≡ done ++ rest
    pub ended : is_ok answer.0 ≡ is_empty rest
    pub recorded : answer.1.applied ≡ db.applied ++ ids done
    pub succeeded : Succeeded done db.content reached
    pub stopped : answer.1.content ≡ tried rest reached

  failed-Progress :
      (m : Migration D) (ms : List (Migration D)) (db db' : Database D) (e : Error)
      → db'.applied ≡ db.applied
      → db'.content ≡ (m.apply db.content).1
      → Progress (m ∷ ms) db (raise e, db')
  unfolding tried is_empty
  failed-Progress m ms db db' e same_ids same = record {
    done = [];
    rest = m ∷ ms;
    reached = db.content;
    split = refl;
    ended = refl;
    recorded = same_ids ∙ sym (append-nil db.applied);
    succeeded = nothing refl;
    stopped = same;
  }

  next-Progress :
      (m : Migration D) (ms : List (Migration D)) (db db' : Database D)
      (answer : Result (Unit {0}) × Database D)
      → m.apply db.content ≡ (ok tt, db'.content)
      → db'.applied ≡ db.applied ++ m.migration_id ∷ []
      → Progress ms db' answer
      → Progress (m ∷ ms) db answer
  next-Progress m ms db db' answer applied_well same_ids p = record {
    done = m ∷ p.done;
    rest = p.rest;
    reached = p.reached;
    split = ap (λ l. m ∷ l) p.split;
    ended = p.ended;
    recorded =
        p.recorded
        ∙ ap (λ l. l ++ ids p.done) same_ids
        ∙ append_assoc db.applied (m.migration_id ∷ []) (ids p.done);
    succeeded = next applied_well p.succeeded;
    stopped = p.stopped;
  }

  -- One migration either fails and is not recorded, or succeeds and is.
  data Attempt (m : Migration D) (db : Database D) : Result (Unit {0}) × Database D → Type 0 where
    failed :
        {db' : Database D} (e : Error)
        → db'.applied ≡ db.applied
        → db'.content ≡ (m.apply db.content).1
        → Attempt m db (raise e, db')
    applied :
        {db' : Database D}
        → m.apply db.content ≡ (ok tt, db'.content)
        → db'.applied ≡ db.applied ++ m.migration_id ∷ []
        → Attempt m db (ok tt, db')

  apply_migration-Attempt :
      (broken : String → Option Error) (m : Migration D) (db : Database D)
      → Attempt m db (apply_migration broken m db)
  unfolding apply_migration insert_applied
  apply_migration-Attempt broken m db = elim (Result-cases (m.apply db.content).0) [
    | inr (e, raised) ↦ rw (raised, apply_migration) (failed e refl refl)
    | inl (done, well) ↦ elim (Option-cases (broken m.migration_id)) [
      | inr (e, refused) ↦ rw (well, apply_migration, refused, insert_applied) (failed e refl refl)
      | inl fine ↦ elim (Bool-cases (member m.migration_id db.applied)) [
        | inl known ↦
            rw (well, apply_migration, fine, insert_applied, known)
              (failed duplicate_key_error refl refl)
        | inr fresh ↦
            rw (well, apply_migration, fine, insert_applied, fresh)
              (applied (λ i. (well i, (m.apply db.content).1)) refl)
      ]
    ]
  ]

  after-Attempt :
      (m : Migration D) (ms : List (Migration D)) (db : Database D)
      (go_on : Database D → Result (Unit {0}) × Database D)
      (attempt : Result (Unit {0}) × Database D)
      → ((db' : Database D) → Progress ms db' (go_on db'))
      → Attempt m db attempt
      → Progress
          (m ∷ ms)
          db
          (elim attempt.0 [ raise e ↦ (raise e, attempt.1) | ok _ ↦ go_on attempt.1 ])
  after-Attempt m ms db go_on attempt later (failed {db' = db'} e same_ids same) =
      failed-Progress m ms db db' e same_ids same
  after-Attempt m ms db go_on attempt later (applied {db' = db'} well added) =
      next-Progress m ms db db' (go_on db') well added (later db')

  -- The loop over the migrations, for the ids that were read before it.
  run_each-Progress :
      (broken : String → Option Error) (applied_ids : List String) (ms : List (Migration D))
      (db : Database D)
      → Progress (pending applied_ids ms) db (run_each broken applied_ids ms db)
  unfolding run_each pending keep tried is_empty
  run_each-Progress broken applied_ids [] db = record {
    done = [];
    rest = [];
    reached = db.content;
    split = refl;
    ended = refl;
    recorded = sym (append-nil db.applied);
    succeeded = nothing refl;
    stopped = refl;
  }
  run_each-Progress broken applied_ids (m ∷ ms) db =
      elim (Bool-cases (member m.migration_id applied_ids)) [
        | inl known ↦
            rw (known, run_each, pending, keep) (run_each-Progress broken applied_ids ms db)
        | inr fresh ↦
            rw (fresh, run_each, pending, keep)
              (after-Attempt m (pending applied_ids ms) db (run_each broken applied_ids ms) _
                (run_each-Progress broken applied_ids ms) (apply_migration-Attempt broken m db))
      ]

  pub run_migrations-Progress :
      (broken : String → Option Error) (modules : List (Migration D)) (db : Database D)
      → Progress
          (pending db.applied (discover_migrations modules))
          db
          (run_migrations broken modules db)
  unfolding run_migrations
  run_migrations-Progress broken modules db =
      run_each-Progress broken db.applied (discover_migrations modules) db
