-- ===== src/BuildChain.antt =====
-- app/services/build_chain.py: the walk from a target item down its build chain, level by level.
pub mod Expand
pub mod Order
pub mod Balance
pub mod Steps
pub mod Raw
pub mod Guard
pub mod Wanted
pub mod Returns
pub mod Resolve
mod Tests
use Prim.Native.Nat.{max}
use aobp.Prelude.{
  ℕ, zero, suc, ◌+◌, ◌*◌, String, Bool, true, false, ◌||◌, Option, none, some, List, [], ◌∷◌, ◌==◌,
  if◌then◌else◌, get_or, member, nat_eq,
}
use aobp.Result.{Result, ok, raise, zero_division_error, ◌>>=◌, ◌>>◌}
use aobp.Dict.{Dict, get, put, set_default}
use aobp.Dict.Amounts.{add_to}

-- `_MAX_DEPTH`
abbrev pub max_depth : ℕ
max_depth = 15

-- A material line of a document of `sde_blueprints`.
pub record Material : Type 0 where
  pub type_id : ℕ
  pub quantity : ℕ

-- A document of `sde_blueprints`; `product_quantity` may be missing.
pub record Blueprint : Type 0 where
  pub product_quantity : Option ℕ
  pub materials : List Material

pub record BuildStep : Type 0 where
  pub type_id : ℕ
  pub name : String
  pub quantity_needed : ℕ
  pub runs : ℕ
  pub product_quantity : ℕ
  pub materials : Dict ℕ ℕ

-- The local variables of `resolve_build_chain` that its loop changes, `current_level` apart.
pub record Walk : Type 0 where
  pub steps_by_type_id : Dict ℕ BuildStep
  pub raw_totals : Dict ℕ ℕ
  pub raw_buildable : Dict ℕ Bool
  pub next_level : Dict ℕ ℕ

-- `for material in materials`: what one dictionary of amounts gains. The loop adds the same to
-- `step.materials` and to `next_level`, which do not read one another.
unfoldable pub add_demand : ℕ → List Material → Dict ℕ ℕ → Dict ℕ ℕ
add_demand runs [] d = d
add_demand runs (m ∷ ms) d = add_demand runs ms (add_to m.type_id (m.quantity * runs) d)

abbrev pub new_step : ℕ → ℕ → BuildStep
new_step type_id product_quantity = record {
  type_id = type_id;
  name = "";
  quantity_needed = 0;
  runs = 0;
  product_quantity = product_quantity;
  materials = [];
}

abbrev pub start : Walk
start = record { steps_by_type_id = []; raw_totals = []; raw_buildable = []; next_level = [] }

-- The branch that leaves an item to be bought.
unfoldable pub buy : ℕ → ℕ → Bool → Walk → Walk
buy type_id quantity buildable w = record w {
  raw_totals = add_to type_id quantity w.raw_totals;
  raw_buildable = put type_id buildable w.raw_buildable;
}

-- The step of an item that is expanded grows.
unfoldable pub grow_step : ℕ → ℕ → List Material → BuildStep → BuildStep
grow_step quantity runs materials step = record step {
  quantity_needed = step.quantity_needed + quantity;
  runs = step.runs + runs;
  materials = add_demand runs materials step.materials;
}

-- The loop behind the recursion guard: what is left over counts as raw.
unfoldable pub buy_leftover : Dict ℕ ℕ → Walk → Walk
buy_leftover [] w = w
buy_leftover ((type_id, quantity) ∷ items) w = buy_leftover items (record w {
  raw_totals = add_to type_id quantity w.raw_totals;
  raw_buildable = set_default type_id false w.raw_buildable;
})

-- `blueprint_docs`, fetched once for a level; `find` is `sde.blueprint_for_product` on the database.
unfoldable pub blueprint_docs : (ℕ → Option Blueprint) → Dict ℕ ℕ → Dict ℕ Blueprint
blueprint_docs find [] = []
blueprint_docs find ((type_id, _) ∷ level) = elim (find type_id) [
  | none ↦ blueprint_docs find level
  | some doc ↦ (type_id, doc) ∷ blueprint_docs find level
]

-- The step with its growth is stored, and the demand for its materials goes to the next level.
unfoldable pub grow : ℕ → ℕ → ℕ → ℕ → List Material → Walk → Walk
unfolding grow_step
grow type_id quantity product_quantity runs materials w =
    let step = get_or (get type_id w.steps_by_type_id) (new_step type_id product_quantity) in
    record w {
      steps_by_type_id = put type_id (grow_step quantity runs materials step) w.steps_by_type_id;
      next_level = add_demand runs materials w.next_level;
    }

-- `math.ceil(a / b)` is a parameter, since the quotient is a float; it raises an error where that would be
-- too large for a float.
unfoldable pub additional_runs : (ℕ → ℕ → Result ℕ) → ℕ → ℕ → Result ℕ
additional_runs ceil_quotient quantity product_quantity = do
  n ← ceil_quotient quantity product_quantity
  ok (max 1 n)

-- The branch that expands an item. A blueprint that makes 0 items divides by zero.
unfoldable pub build : (ℕ → ℕ → Result ℕ) → ℕ → ℕ → Blueprint → Walk → Result Walk
unfolding grow additional_runs
build ceil_quotient type_id quantity blueprint w =
    let product_quantity = get_or blueprint.product_quantity 1 in
    if product_quantity == 0 then raise zero_division_error else (do
      runs ← additional_runs ceil_quotient quantity product_quantity
      ok (grow type_id quantity product_quantity runs blueprint.materials w))

-- The database's `sde_blueprints.find_one`, the float division, the target and the components to
-- build.
module _ (ceil_quotient : ℕ → ℕ → Result ℕ) (target : ℕ) (build_set : List ℕ) where
  -- The body of the loop over `current_level.items()`.
  unfoldable pub expand_item : Dict ℕ Blueprint → ℕ → ℕ → Walk → Result Walk
  unfolding buy build
  expand_item docs type_id quantity w = elim (get type_id docs) [
    | none ↦ ok (buy type_id quantity false w)
    | some blueprint ↦
        if type_id == target || member type_id build_set
        then build ceil_quotient type_id quantity blueprint w
        else ok (buy type_id quantity true w)
  ]

  unfoldable pub expand_level : Dict ℕ Blueprint → Dict ℕ ℕ → Walk → Result Walk
  expand_level docs [] w = ok w
  expand_level docs ((type_id, quantity) ∷ items) w = do
    w' ← expand_item docs type_id quantity w
    expand_level docs items w'

  module _ (blueprint_for_product : ℕ → Option Blueprint) where
    -- `while current_level and depth < _MAX_DEPTH`, by the rounds that are left.
    unfoldable pub walk_levels : ℕ → Dict ℕ ℕ → Walk → Result (Dict ℕ ℕ × Walk)
    walk_levels zero level w = ok (level, w)
    walk_levels (suc rounds) [] w = ok ([], w)
    walk_levels (suc rounds) (item ∷ items) w = do
      w' ←
          expand_level (blueprint_docs blueprint_for_product (item ∷ items)) (item ∷ items)
            (record w { next_level = [] })
      walk_levels rounds w'.next_level w'

    -- `resolve_build_chain` up to the guard.
    unfoldable pub walk_chain : ℕ → Result Walk
    walk_chain target_quantity = do
      (level, w) ← walk_levels max_depth ((target, target_quantity) ∷ []) start
      ok (buy_leftover level w)
