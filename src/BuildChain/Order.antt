-- ===== src/BuildChain/Order.antt =====
-- `_topological_order` of build_chain.py: a depth-first walk over the steps, components first.
pub mod Ends
pub mod Visits
pub mod Sorted
use aobp.Prelude.{
  ℕ, zero, suc, ◌≡◌, Bool, true, false, Option, none, some, List, [], ◌∷◌, ◌++◌, member, nat_eq,
  length, keep, not,
}
use aobp.Result.{Result, ok, raise, out_of_fuel, ◌>>=◌}
use aobp.Dict.{Dict, get, keys}
use aobp.BuildChain.{BuildStep}

-- The two collections that `_visit` changes.
pub record Visit : Type 0 where
  pub visited : List ℕ
  pub ordered : List BuildStep

-- `for material_type_id in step.materials: _visit(material_type_id)`
unfoldable pub visit_each : (ℕ → Visit → Result Visit) → List ℕ → Visit → Result Visit
visit_each visit [] v = ok v
visit_each visit (k ∷ ks) v = do v' ← visit k v; visit_each visit ks v'

module _ (steps_by_type_id : Dict ℕ BuildStep) where
  -- `_visit`. The fuel bounds the depth of the recursion.
  unfoldable pub visit : ℕ → ℕ → Visit → Result Visit
  visit zero type_id v = raise out_of_fuel
  visit (suc fuel) type_id v = elim (member type_id v.visited) [
    | true ↦ ok v
    | false ↦
        let marked = record v { visited = type_id ∷ v.visited } in
        elim (get type_id steps_by_type_id) [
          | none ↦ ok marked
          | some step ↦ do
            v' ← visit_each (visit fuel) (keys step.materials) marked
            ok (record v' { ordered = v'.ordered ++ step ∷ [] })
        ]
  ]

  -- Each nested call is for a step that was not visited, so the steps and one more call are enough.
  unfoldable pub topological_order : ℕ → Result (List BuildStep)
  topological_order target = do
    v ← visit (suc (length steps_by_type_id)) target (record { visited = []; ordered = [] })
    ok v.ordered
