-- ===== src/BuildChain/Order/Ends.antt =====
-- `_topological_order` always ends: the recursion is never deeper than the number of steps.
use aobp.Prelude.{
  ℕ, zero, suc, ◌<◌, ◌≡◌, refl, List, [], ◌∷◌, ◌++◌, arith, member, length, nat_eq, inl, inr,
  Bool-cases, Option-cases,
}
use aobp.Result.{Result, ok}
use aobp.Dict.Unvisited.{
  unvisited, Grows, Grows-cons, unvisited-le-length, unvisited-anti, unvisited-cons-lt,
}
use aobp.Dict.{Dict, get, keys}
use aobp.BuildChain.{BuildStep}
use aobp.BuildChain.Order.{Visit, visit_each, visit, topological_order}

module _ (steps : Dict ℕ BuildStep) where
  -- A run from `v` comes back, and has forgotten no visited item.
  abbrev Ends : Result Visit → Visit → Type 0
  Ends r v = (v' : Visit) × (r ≡ ok v') × Grows v.visited v'.visited

  visit_each-Ends :
      (fuel : ℕ)
      → ((t : ℕ) (v : Visit) → unvisited v.visited steps < fuel → Ends (visit steps fuel t v) v)
      → (ks : List ℕ) (v : Visit) → unvisited v.visited steps < fuel
      → Ends (visit_each (visit steps fuel) ks v) v
  unfolding visit_each
  visit_each-Ends fuel ih [] v h = (v, refl, λ k m. m)
  visit_each-Ends fuel ih (k ∷ ks) v h =
      let (v₁, e, g) = ih k v h in
      let (v₂, f, g') =
        visit_each-Ends fuel ih ks v₁
          (omega (arith, unvisited-anti v.visited v₁.visited steps g)) in
      (v₂, rw e f, λ j m. g' j (g j m))

  visit-Ends :
      (fuel t : ℕ) (v : Visit) → unvisited v.visited steps < fuel → Ends (visit steps fuel t v) v
  unfolding visit
  visit-Ends zero t v h = absurd (omega arith)
  visit-Ends (suc fuel) t v h = elim (Bool-cases (member t v.visited)) [
    | inl seen ↦ (v, rw (seen, visit), λ k m. m)
    | inr fresh ↦
        let marked : Visit = record v { visited = t ∷ v.visited } in
        let grown = Grows-cons t v.visited in
        elim (Option-cases (get t steps)) [
          | inl absent ↦ (marked, rw (fresh, absent, visit), grown)
          | inr (step, present) ↦
              let less = unvisited-cons-lt t v.visited steps step present fresh in
              let (v', e, g) =
                visit_each-Ends fuel (visit-Ends fuel) (keys step.materials) marked
                  (omega (arith, less)) in
              (
                record v' { ordered = v'.ordered ++ step ∷ [] },
                rw (fresh, present, e, visit),
                λ k m. g k (grown k m),
              )
        ]
  ]

  -- The order of the steps is always found, whatever the steps, cycles included.
  pub topological_order_ends :
      (target : ℕ) → (ordered : List BuildStep) × (topological_order steps target ≡ ok ordered)
  unfolding topological_order
  topological_order_ends target =
      let (v, e, _) =
        visit-Ends (suc (length steps)) target (record { visited = []; ordered = [] })
          (omega (arith, unvisited-le-length [] steps)) in
      (v.ordered, rw e)
