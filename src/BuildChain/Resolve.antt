-- ===== src/BuildChain/Resolve.antt =====
-- `resolve_build_chain` as a whole: the walk, the names and the prices of what it found, and the order
-- of the steps. Prices are of a type `F` with the two operations that the sums need.
pub mod Marks
pub mod Materials
pub mod Target
pub mod Outcome
mod Tests
use aobp.Prelude.{
  ℕ, String, Bool, true, false, Option, none, some, List, [], ◌∷◌, ◌++◌, map, nat_eq, string_eq,
  is_some,
}
use aobp.Result.{Result, ok, raise, key_error, ◌>>=◌}
use aobp.Text.{str_leb, sorted}
use aobp.Dict.{Dict, get, keys, has}
use aobp.Cache.{Cache}
use aobp.Sde.{type_docs}
use aobp.Sde.Names.{TypeDoc, type_name}
use aobp.MarketPrices.{PriceDoc, price_by_type_id, unit_price}
use aobp.BuildChain.{Blueprint, BuildStep, Walk, walk_chain}
use aobp.BuildChain.Order.{topological_order}

pub record RawMaterial (F : Type 0) : Type 0 where
  pub type_id : ℕ
  pub name : String
  pub quantity : ℕ
  pub unit_price : F
  pub is_buildable : Bool

pub record BuildResolution (F : Type 0) : Type 0 where
  pub target_type_id : ℕ
  pub target_name : String
  pub target_quantity : ℕ
  pub is_buildable : Bool
  pub steps : List BuildStep
  pub raw_materials : List (RawMaterial F)
  pub raw_material_cost : F
  pub output_value : F

-- `step.name = _name(step.type_id)` for every step.
unfoldable pub named_steps : (ℕ → String) → Dict ℕ BuildStep → Dict ℕ BuildStep
named_steps name = map (λ e. (e.0, record (e.1) { name = name (BuildStep.type_id e.1) }))

module _ {F : Type 0} where
  -- The list of the raw materials, for totals in their order.
  unfoldable pub raw_materials_of :
      (ℕ → String) → (ℕ → F) → Dict ℕ Bool → Dict ℕ ℕ → Result (List (RawMaterial F))
  raw_materials_of name price raw_buildable [] = ok []
  raw_materials_of name price raw_buildable ((t, q) ∷ totals) = elim (get t raw_buildable) [
    | none ↦ raise key_error
    | some buildable ↦ do
      rest ← raw_materials_of name price raw_buildable totals
      ok (
          record {
            type_id = t;
            name = name t;
            quantity = q;
            unit_price = price t;
            is_buildable = buildable;
          }
          ∷ rest)
  ]

abbrev pub all_type_ids : ℕ → Walk → List ℕ
all_type_ids target w = target ∷ keys w.steps_by_type_id ++ keys w.raw_totals

-- `sorted(raw_totals.items(), key=lambda item: _name(item[0]))`
abbrev pub by_name : (ℕ → String) → Dict ℕ ℕ → Dict ℕ ℕ
by_name name = sorted (λ x y. str_leb (name x.0) (name y.0))

-- `material.quantity * material.unit_price` for each material; a quantity that is too large for a float
-- raises an error.
unfoldable pub costs_of : {F : Type 0} → (ℕ → F → Result F) → List (RawMaterial F) → Result (List F)
costs_of times [] = ok []
costs_of times (m ∷ materials) = do
  cost ← times m.quantity m.unit_price
  costs ← costs_of times materials
  ok (cost ∷ costs)

-- The database's blueprints, types and prices, the quotient of floats, `quantity * price`, `sum`,
-- `float(price or 0.0)` and `0.0`.
module _ {P F : Type 0} (ceil_quotient : ℕ → ℕ → Result ℕ) (times : ℕ → F → Result F)
    (sum : List F → F) (float : P → F) (zero_price : F)
    (blueprint_for_product : ℕ → Option Blueprint) (sde_types : ℕ → Option TypeDoc)
    (market_prices : Dict ℕ (PriceDoc P)) (ttl : ℕ) where
  unfoldable pub resolve_build_chain :
      ℕ → ℕ → List ℕ → Cache TypeDoc → Result (BuildResolution F × Cache TypeDoc)
  resolve_build_chain target quantity build_set cache = do
    w ← walk_chain ceil_quotient target build_set blueprint_for_product quantity
    let ids = all_type_ids target w
    let (docs, cache') = type_docs sde_types ttl ids cache
    let prices = price_by_type_id ids market_prices
    let name = type_name docs
    let price = λ (t : ℕ). unit_price float zero_price (get t prices)
    let named = named_steps name w.steps_by_type_id
    materials ← raw_materials_of name price w.raw_buildable (by_name name w.raw_totals)
    costs ← costs_of times materials
    value ← times quantity (price target)
    ordered ← topological_order named target
    ok (
      record {
        target_type_id = target;
        target_name = name target;
        target_quantity = quantity;
        is_buildable = has target named;
        steps = ordered;
        raw_materials = materials;
        raw_material_cost = sum costs;
        output_value = value;
      },
      cache',
    )
