-- ===== src/BuildChain/Order/Sorted.antt =====
-- In the order of the steps, components stand before what consumes them.
use aobp.Prelude.{
  ℕ, zero, suc, ◌≤◌, ◌<◌, ◌≡◌, true, none, some, List, [], ◌∷◌, ◌++◌, arith, ◌==◌, member, length,
  nat_eq, nat_beq_iff, inl, inr, Bool-cases, Option-cases, is_some, subst, ap,
}
use aobp.Result.{ok, >>=-eq-ok}
use aobp.Dict.{Dict, get, keys}
use aobp.BuildChain.{BuildStep}
use aobp.BuildChain.Order.{Visit, visit_each, visit, topological_order}
use aobp.Dict.Unvisited.{Grows-cons}
use aobp.BuildChain.Order.Visits.{
  ids, member-ids_snoc, IsBuildOrder, IsBuildOrder-snoc, Finished, After, After-refl, Each,
  VisitRule, visit_each-Each,
}

module _ (steps : Dict ℕ BuildStep) where
  module _ (rank : ℕ → ℕ) where
    abbrev IsKeyed : Type 0
    IsKeyed = (k : ℕ) (s : BuildStep) → get k steps ≡ some s → s.type_id ≡ k

    abbrev IsRanked : Type 0
    IsRanked =
        (k : ℕ) (s : BuildStep)
        → get k steps ≡ some s
        → (m : ℕ) → member m (keys s.materials) ≡ true
        → rank m < rank k

    module _ (keyed : IsKeyed) (ranked : IsRanked) where
      -- An item without a step is only marked.
      leaf-After :
          (t : ℕ) (v : Visit)
          → get t steps ≡ none
          → After steps rank (rank t) v (record v { visited = t ∷ v.visited })
      unfolding member
      leaf-After t v absent = record {
        grows = Grows-cons t v.visited;
        kept = λ k m. m;
        low = λ k m. elim (Bool-cases (t == k)) [
          | inl same ↦ inr (rw (← (nat_beq_iff t k).0 same) (omega arith))
          | inr other ↦ inl (ground arith)
        ];
        finished = λ b h f k m lt s. elim (Bool-cases (t == k)) [
          | inl same ↦ absurd (ground (arith, nat_beq_iff t k))
          | inr other ↦ f k (ground arith) lt s
        ];
        sorted = λ f s. s;
      }

      -- Below its own rank, the marking of an item leaves nothing unfinished.
      marked-Finished :
          (t b : ℕ) (v : Visit)
          → rank t ≤ b
          → Finished steps rank b v
          → Finished steps rank (rank t) (record v { visited = t ∷ v.visited })
      unfolding member
      marked-Finished t b v le f k m lt s = elim (Bool-cases (t == k)) [
        | inl same ↦ absurd (ground (arith, nat_beq_iff t k, ap rank ((nat_beq_iff t k).0 same)))
        | inr other ↦ f k (ground arith) (omega arith) s
      ]

      node-After :
          (t : ℕ) (v v₁ : Visit) (step : BuildStep)
          → get t steps ≡ some step
          → Each steps rank (rank t) (record v { visited = t ∷ v.visited }) v₁
          → ((m : ℕ) → member m (keys step.materials) ≡ true → member m v₁.visited ≡ true)
          → After steps rank (rank t) v (record v₁ { ordered = v₁.ordered ++ step ∷ [] })
      unfolding member
      node-After t v v₁ step present each all = record {
        grows = λ k m. each.grows k (Grows-cons t v.visited k m);
        kept = λ k m. rw member-ids_snoc (ground (arith, each.kept k m));
        low = λ k m. elim (each.low k m) [
          | inl old ↦ elim (Bool-cases (t == k)) [
            | inl same ↦ inr (rw (← (nat_beq_iff t k).0 same) (omega arith))
            | inr other ↦ inl (ground arith)
          ]
          | inr lt ↦ inr (omega arith)
        ];
        finished = λ b h f k m lt s. rw member-ids_snoc (elim (Bool-cases (t == k)) [
          | inl same ↦ ground (arith, keyed t step present)
          | inr other ↦ elim (each.low k m) [
            | inl old ↦ ground (arith, each.kept k (f k (ground arith) lt s))
            | inr lt' ↦
                let below = marked-Finished t b v (omega arith) f in
                ground (arith, each.finished (rank t) (omega arith) below k m lt' s)
          ]
        ]);
        sorted = λ f s.
            let below = marked-Finished t (rank t) v (omega arith) f in
            IsBuildOrder-snoc steps [] v₁.ordered step (each.sorted below s) λ m c. ground (
              arith,
              each.finished (rank t) (omega arith) below m (all m c.0) (ranked t step present m c.0)
                  c.1,
            );
      }

      visit-After : (fuel : ℕ) → VisitRule steps rank fuel
      unfolding visit member
      visit-After zero t v v' h = absurd (cc)
      visit-After (suc fuel) t v v' h = elim (Bool-cases (member t v.visited)) [
        | inl seen ↦
            let e : v ≡ v' = ground arith in
            (
              subst (After steps rank (rank t) v) e (After-refl steps rank (rank t) v),
              subst (λ u. member t (Visit.visited u) ≡ true) e seen,
            )
        | inr fresh ↦
            let marked : Visit = record v { visited = t ∷ v.visited } in
            elim (Option-cases (get t steps)) [
              | inl absent ↦
                  let e : marked ≡ v' = ground arith in
                  (
                    subst (After steps rank (rank t) v) e (leaf-After t v absent),
                    subst (λ u. member t (Visit.visited u) ≡ true) e
                        (ground (arith, nat_beq_iff t t)),
                  )
              | inr (step, present) ↦
                  let (v₁, run, e) =
                    >>=-eq-ok (visit_each (visit steps fuel) (keys step.materials) marked)
                      (λ u. ok (record u { ordered = Visit.ordered u ++ step ∷ [] })) {b = v'}
                      (rw (fresh, present, visit) at h) in
                  let (each, all) =
                    visit_each-Each steps rank fuel (rank t) (visit-After fuel)
                      (keys step.materials) (ranked t step present) marked v₁ run in
                  let e' : record v₁ { ordered = v₁.ordered ++ step ∷ [] } ≡ v' = cc in
                  (
                    subst (After steps rank (rank t) v) e'
                        (node-After t v v₁ step present each all),
                    subst (λ u. member t (Visit.visited u) ≡ true) e'
                        (each.grows t (ground (arith, nat_beq_iff t t))),
                  )
            ]
      ]

  -- For steps that are stored under their own type and whose consumption has no cycle (a rank falls
  -- from each step to its materials), and a target that has a step: in the order that is returned,
  -- each step stands behind the steps of all its components, and the target's step is listed.
  pub topological_order-IsBuildOrder :
      (rank : ℕ → ℕ)
      → IsKeyed rank
      → IsRanked rank
      → (target : ℕ) → is_some (get target steps) ≡ true
      → (ordered : List BuildStep) → topological_order steps target ≡ ok ordered
      → IsBuildOrder steps [] ordered × (member target (ids ordered) ≡ true)
  unfolding topological_order
  topological_order-IsBuildOrder rank keyed ranked target built ordered h =
      let empty : Visit = record { visited = []; ordered = [] } in
      let (v, run, e) =
        >>=-eq-ok (visit steps (suc (length steps)) target empty) (λ u. ok (Visit.ordered u)) h in
      let (a, reached) = visit-After rank keyed ranked (suc (length steps)) target empty v run in
      let none_yet : (b : ℕ) → Finished steps rank b empty =
        λ b k m. absurd (unfold member in cc) in
      let e' : v.ordered ≡ ordered = cc in
      (
        subst (IsBuildOrder steps []) e' (a.sorted (none_yet (rank target)) tt),
        subst (λ l. member target (ids l) ≡ true) e'
            (a.finished (suc (rank target)) (omega arith) (none_yet _) target reached (omega arith)
              built),
      )
