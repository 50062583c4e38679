-- ===== src/Migrations/Resume.antt =====
-- A run of the migrations goes on where the run before it ended.
use aobp.Prelude.{
  ◌≡◌, refl, ap, ◌∙◌, String, Bool, true, false, ◌&&◌, not, Option, List, [], ◌∷◌, ◌++◌, arith,
  string_eq, Eq, member, member-append, keep, subst,
}
use aobp.Result.{Error}
use aobp.Migrations.{Migration, Database, discover_migrations, run_migrations}
use aobp.Migrations.Progress.{pending, ids, Progress, run_migrations-Progress}

module _ {D : Type 0} where
  -- Every id occurs once.
  unfoldable pub all_once : List (Migration D) → Bool
  all_once [] = true
  all_once (m ∷ ms) = not (member m.migration_id (ids ms)) && all_once ms

  pending-append :
      (a b : List String) (ms : List (Migration D)) → pending (a ++ b) ms ≡ pending b (pending a ms)
  unfolding pending keep
  pending-append a b [] = refl
  pending-append a b (m ∷ ms) =
      ground (arith, pending-append a b ms, member-append m.migration_id a b)

  member-ids-pending :
      (a : List String) (id : String) (ms : List (Migration D))
      → member id (ids ms) ≡ false
      → member id (ids (pending a ms)) ≡ false
  unfolding pending keep member
  member-ids-pending a id [] h = refl
  member-ids-pending a id (m ∷ ms) h = ground (arith, member-ids-pending a id ms)

  all_once-pending :
      (a : List String) (ms : List (Migration D))
      → all_once ms ≡ true
      → all_once (pending a ms) ≡ true
  unfolding pending keep all_once
  all_once-pending a [] h = refl
  all_once-pending a (m ∷ ms) h =
      ground (arith, all_once-pending a ms, member-ids-pending a m.migration_id ms)

  pending-fresh :
      (id : String) (ms : List (Migration D))
      → member id (ids ms) ≡ false
      → pending (id ∷ []) ms ≡ ms
  unfolding pending keep member
  pending-fresh id [] h = refl
  pending-fresh id (m ∷ ms) h = ground (
    arith,
    pending-fresh id ms,
    Eq.beq_iff string_eq id m.migration_id,
    Eq.beq_iff string_eq m.migration_id id,
  )

  pending-nil : (ms : List (Migration D)) → pending [] ms ≡ ms
  unfolding pending keep member
  pending-nil [] = refl
  pending-nil (m ∷ ms) = ap (λ l. m ∷ l) (pending-nil ms)

  pending-head :
      (m : Migration D) (ms : List (Migration D))
      → pending (m.migration_id ∷ []) (m ∷ ms) ≡ pending (m.migration_id ∷ []) ms
  unfolding pending keep member
  pending-head m ms = ground (arith, Eq.beq_iff string_eq m.migration_id m.migration_id)

  -- Of a list without repetitions, what is left when its first part is done.
  pending-done :
      (done rest : List (Migration D))
      → all_once (done ++ rest) ≡ true
      → pending (ids done) (done ++ rest) ≡ rest
  unfolding all_once member
  pending-done [] rest h = pending-nil rest
  pending-done (m ∷ done) rest h =
      let all = done ++ rest in
      let first = pending-append (m.migration_id ∷ []) (ids done) (m ∷ all) in
      let skipped : pending (m.migration_id ∷ []) (m ∷ all) ≡ all =
        pending-head m all ∙ pending-fresh m.migration_id all (ground (arith, h)) in
      first ∙ ap (pending (ids done)) skipped ∙ pending-done done rest (ground (arith, h))

  -- Let no id occur twice. Whatever the migrations do, and whichever records cannot be written: a run
  -- applies a first part of the migrations that were not recorded, in their order, each once and
  -- successfully, and records exactly these; it ends well if and only if none is left, and else stops
  -- with what the first one left has done; and what is then not recorded, for the next run to apply,
  -- is exactly what is left.
  pub run_migrations_resumes :
      (broken : String → Option Error) (modules : List (Migration D)) (db : Database D)
      → all_once (discover_migrations modules) ≡ true
      → let answer = run_migrations broken modules db in
        (p : Progress (pending db.applied (discover_migrations modules)) db answer) × (pending
            answer.1.applied
            (discover_migrations modules)
          ≡ p.rest)
  run_migrations_resumes broken modules db once =
      let p = run_migrations-Progress broken modules db in
      let all = discover_migrations modules in
      (
        p,
        ap (λ applied. pending applied all) p.recorded
            ∙ pending-append db.applied (ids p.done) all
            ∙ ap (pending (ids p.done)) p.split
            ∙ pending-done p.done p.rest
                (subst (λ ms. all_once ms ≡ true) p.split (all_once-pending db.applied all once)),
      )
