-- ===== src/BuildChain/Tests.antt =====
-- A small database of blueprints, and the theorems on resolve_build_chain applied to it.
use aobp.Prelude.{
  ℕ, ◌+◌, ◌-◌, ◌*◌, ◌/◌, ◌≤◌, ◌<◌, ◌≡◌, refl, true, false, Option, none, some, List, [], ◌∷◌, arith,
  ◌==◌, if◌then◌else◌, member, nat_eq,
}
use aobp.Result.{Result, ok, raise, zero_division_error}
use aobp.Dict.{Dict, get, put, keys, set_default}
use aobp.Dict.Amounts.{amount, add_to}
use aobp.BuildChain.{
  Material, Blueprint, BuildStep, Walk, walk_chain, walk_levels, expand_level, expand_item, build,
  grow, grow_step, buy, buy_leftover, blueprint_docs, add_demand, additional_runs,
}
use aobp.BuildChain.Balance.{made, consumed, walk_chain-balance}
use aobp.BuildChain.Steps.{IsExact, IsSound, walk_chain-IsSound, walk_chain-covers}
use aobp.BuildChain.Order.{topological_order, visit, visit_each}
use aobp.BuildChain.Order.Sorted.{topological_order-IsBuildOrder}
use aobp.BuildChain.Order.Visits.{IsBuildOrder, ids}

abbrev line : ℕ → ℕ → Material
line type_id quantity = record { type_id = type_id; quantity = quantity }

-- A ship (1) of hulls (2), plates (3) and ore (9); 2 hulls at a time from plates; 10 plates from ore.
abbrev catalogue : Dict ℕ Blueprint
catalogue =
    (1, record { product_quantity = none; materials = line 2 3 ∷ line 3 5 ∷ line 9 7 ∷ [] })
    ∷ (2, record { product_quantity = some 2; materials = line 3 4 ∷ [] })
    ∷ (3, record { product_quantity = some 10; materials = line 9 20 ∷ [] })
    ∷ []

abbrev find : ℕ → Option Blueprint
unfolding get
find k = get k catalogue

abbrev ceil_div : ℕ → ℕ → Result ℕ
ceil_div a b = ok ((a + (b - 1)) / b)

ceil_div-IsExact : IsExact ceil_div
ceil_div-IsExact = record { exact = λ a b p q s. refl }

abbrev the_ship : ℕ
the_ship = 1

abbrev plate : ℕ
plate = 3

abbrev to_build : List ℕ
to_build = 2 ∷ []

abbrev ship : BuildStep
ship = record {
  type_id = 1;
  name = "";
  quantity_needed = 4;
  runs = 4;
  product_quantity = 1;
  materials = (2, 12) ∷ (3, 20) ∷ (9, 28) ∷ [];
}

abbrev hull : BuildStep
hull = record {
  type_id = 2;
  name = "";
  quantity_needed = 12;
  runs = 6;
  product_quantity = 2;
  materials = (3, 24) ∷ [];
}

-- 4 ships with their hulls built, plates bought.
abbrev four_ships : Walk
four_ships = record {
  steps_by_type_id = (1, ship) ∷ (2, hull) ∷ [];
  raw_totals = (3, 44) ∷ (9, 28) ∷ [];
  raw_buildable = (3, true) ∷ (9, false) ∷ [];
  next_level = [];
}

walk_runs : walk_chain ceil_div 1 (2 ∷ []) find 4 ≡ ok four_ships
unfolding walk_chain walk_levels expand_level expand_item build grow grow_step buy buy_leftover
    blueprint_docs add_demand additional_runs get put set_default add_to member
walk_runs = refl

-- A blueprint that makes 0 items.
walk_divides_by_zero :
    walk_chain ceil_div 5 [] (λ _. some (record { product_quantity = some 0; materials = [] })) 1
    ≡ raise zero_division_error
unfolding walk_chain walk_levels expand_level expand_item build grow grow_step buy buy_leftover
    blueprint_docs add_demand additional_runs get put set_default add_to member
walk_divides_by_zero = refl

-- A cycle: 6 is made of itself. The guard leaves one unit to be bought.
walk_stops_at_guard :
    walk_chain ceil_div 6 []
      (λ _. some (record { product_quantity = none; materials = line 6 1 ∷ [] }))
      1
    ≡ ok (record {
      steps_by_type_id =
          (
            6,
            record {
              type_id = 6;
              name = "";
              quantity_needed = 15;
              runs = 15;
              product_quantity = 1;
              materials = (6, 15) ∷ [];
            },
          )
          ∷ [];
      raw_totals = (6, 1) ∷ [];
      raw_buildable = (6, false) ∷ [];
      next_level = (6, 1) ∷ [];
    })
unfolding walk_chain walk_levels expand_level expand_item build grow grow_step buy buy_leftover
    blueprint_docs add_demand additional_runs get put set_default add_to member
walk_stops_at_guard = refl

walk_chain-balance_example :
    made 3 four_ships.steps_by_type_id + amount 3 four_ships.raw_totals
    ≡ (if the_ship == plate then 4 else 0) + consumed 3 four_ships.steps_by_type_id
walk_chain-balance_example = walk_chain-balance find ceil_div 1 (2 ∷ []) 3 4 four_ships walk_runs

walk_chain-IsSound_example : IsSound find ceil_div 1 (2 ∷ []) 2 hull
walk_chain-IsSound_example =
    walk_chain-IsSound find ceil_div 1 (2 ∷ []) ceil_div-IsExact 4 four_ships walk_runs 2 hull
      (unfold get in refl)

walk_chain-covers_example : hull.quantity_needed ≤ hull.runs * hull.product_quantity
walk_chain-covers_example =
    walk_chain-covers find ceil_div 1 (2 ∷ []) ceil_div-IsExact 4 four_ships walk_runs 2 hull
      (unfold get in refl) (omega arith) (omega arith)

order_runs : topological_order four_ships.steps_by_type_id 1 ≡ ok (hull ∷ ship ∷ [])
unfolding topological_order visit visit_each get member keys
order_runs = refl

-- Ships stand above hulls, hulls above the rest.
abbrev height : ℕ → ℕ
height k = if k == 1 then 2 else if k == 2 then 1 else 0

keyed : (k : ℕ) (s : BuildStep) → get k four_ships.steps_by_type_id ≡ some s → s.type_id ≡ k
unfolding get
keyed k s h = ground arith

ranked :
    (k : ℕ) (s : BuildStep)
    → get k four_ships.steps_by_type_id ≡ some s
    → (m : ℕ) → member m (keys s.materials) ≡ true
    → height m < height k
unfolding get member keys
ranked k s h m c = ground arith

topological_order-IsBuildOrder_example :
    IsBuildOrder four_ships.steps_by_type_id [] (hull ∷ ship ∷ [])
    × (member 1 (ids (hull ∷ ship ∷ [])) ≡ true)
topological_order-IsBuildOrder_example =
    topological_order-IsBuildOrder four_ships.steps_by_type_id height keyed ranked 1
      (unfold get in refl) (hull ∷ ship ∷ []) order_runs
