-- ===== src/Build.antt =====
-- app/routes/build.py: the page of an item's build chain, and the links that choose which of its
-- components are built. `build` is the text of the selected types in the page's address. The address's
-- parts are read by the web framework; Python's limit on the digits of a number is not modelled.
pub mod Links
pub mod Page
mod Tests
use aobp.Prelude.{
  ℕ, String, Bool, true, false, ◌&&◌, not, Option, none, some, List, [], ◌∷◌, map, nat_eq, member,
  frozenset, leb, keep, if◌then◌else◌, ◌==◌,
}
use aobp.Result.{Result, ok, raise, http_exception, ◌>>=◌}
use aobp.Text.{str, ◌⧺◌, sorted}
use aobp.Text.Numbers.{Unicode, split, join, strip, isdigit, int}
use aobp.Dict.{Dict, get}
use aobp.Cache.{Cache, is_empty}
use aobp.Sde.{type_docs}
use aobp.Sde.Names.{TypeDoc}
use aobp.MarketPrices.{PriceDoc}
use aobp.BuildChain.{Blueprint, BuildStep}
use aobp.BuildChain.Resolve.{RawMaterial, BuildResolution, resolve_build_chain}

-- `int(t) for t in parts if t.strip().isdigit()`
unfoldable pub read_each : Unicode → List String → Result (List ℕ)
read_each unicode [] = ok []
read_each unicode (part ∷ parts) =
    let rest = read_each unicode parts in
    if isdigit unicode (strip unicode part)
    then (do n ← int unicode part; ns ← rest; ok (n ∷ ns))
    else rest

-- `frozenset(int(t) for t in build.split(",") if t.strip().isdigit())`
unfoldable pub read_build_set : Unicode → String → Result (List ℕ)
read_build_set unicode build = do ns ← read_each unicode (split build); ok (frozenset ns)

-- `build_set | {t}` or `build_set - {t}`
unfoldable pub toggled : Bool → ℕ → List ℕ → List ℕ
toggled true t build_set = if member t build_set then build_set else t ∷ build_set
toggled false t build_set = keep (λ u. not (u == t)) build_set

-- The value of the address's `build`, or `none` where the address has none.
unfoldable pub build_param : List ℕ → Option String
build_param updated = if is_empty updated then none else some (join (map str (sorted leb updated)))

-- What follows `qty` in the address.
unfoldable pub build_query : Option String → String
build_query none = ""
build_query (some build) = "&build=" ⧺ build

-- `_build_toggle_href`
unfoldable pub build_toggle_href : ℕ → ℕ → List ℕ → ℕ → Bool → String
unfolding build_query
build_toggle_href target_type_id qty build_set toggled_type_id adding =
    "/build/items/"
    ⧺ str target_type_id
    ⧺ "?qty="
    ⧺ str qty
    ⧺ build_query (build_param (toggled adding toggled_type_id build_set))

-- A card of a step, with the link `Buy instead` if it has one.
pub record StepCard : Type 0 where
  pub step : BuildStep
  pub buy_href : Option String

unfoldable pub step_card : ℕ → ℕ → List ℕ → BuildStep → StepCard
step_card type_id qty build_set step_ = record {
  step = step_;
  buy_href =
      if BuildStep.type_id step_ == type_id
      then none
      else some (build_toggle_href type_id qty build_set step_.type_id false);
}

-- A card of a material: the link `Build`, or the note `Bought`.
pub record RawCard (F : Type 0) : Type 0 where
  pub material : RawMaterial F
  pub build_href : Option String

-- What the two pages show; the profit stands last of the sums.
pub data BuildPage (F : Type 0) : Type 0 where
  only_bought : String → BuildPage F
  chain : F → F → F → List StepCard → List (RawCard F) → BuildPage F

module _ {F : Type 0} where
  unfoldable pub raw_card : ℕ → ℕ → List ℕ → RawMaterial F → RawCard F
  raw_card type_id qty build_set material_ = record {
    material = material_;
    build_href =
        if RawMaterial.is_buildable material_
        then some (build_toggle_href type_id qty build_set material_.type_id true)
        else none;
  }

  -- `output_value - raw_material_cost` on floats is `minus`.
  unfoldable pub chain_page : (F → F → F) → ℕ → ℕ → List ℕ → BuildResolution F → BuildPage F
  unfolding step_card raw_card
  chain_page minus type_id qty build_set resolution =
      if BuildResolution.is_buildable resolution
      then chain resolution.raw_material_cost resolution.output_value
          (minus resolution.output_value resolution.raw_material_cost)
          (map (step_card type_id qty build_set) resolution.steps)
          (map (raw_card type_id qty build_set) resolution.raw_materials)
      else only_bought resolution.target_name

-- The database and the operations on floats, as for `resolve_build_chain`.
module _ {P F : Type 0} (unicode : Unicode) (ceil_quotient : ℕ → ℕ → Result ℕ)
    (times : ℕ → F → Result F) (minus : F → F → F) (sum : List F → F) (float : P → F)
    (zero_price : F) (blueprint_for_product : ℕ → Option Blueprint) (sde_types : ℕ → Option TypeDoc)
    (market_prices : Dict ℕ (PriceDoc P)) (ttl : ℕ) where
  unfoldable pub item_build_chain :
      ℕ → ℕ → String → Cache TypeDoc → Result (BuildPage F × Cache TypeDoc)
  item_build_chain type_id qty build cache =
      let (docs, cache₁) = type_docs sde_types ttl (type_id ∷ []) cache in
      elim (get type_id docs) [
        | none ↦ raise (http_exception 404)
        | some type_doc ↦ do
          build_set ← read_build_set unicode build
          (resolution, cache₂) ←
              resolve_build_chain ceil_quotient times sum float zero_price blueprint_for_product
                sde_types market_prices ttl type_id qty build_set cache₁
          ok (chain_page minus type_id qty build_set resolution, cache₂)
      ]
