-- ===== src/Build/Page.antt =====
-- The page of a build chain offers exactly the links that change its selection.
use aobp.Prelude.{
  ℕ, ◌⊎◌, ◌≡◌, String, true, false, ◌&&◌, ◌||◌, not, Option, none, some, List, [], ◌∷◌, nat_eq,
  string_eq, member, if◌then◌else◌, ◌==◌, All, is_some,
}
use aobp.Result.{Result, ok, raise}
use aobp.Text.Numbers.{Unicode}
use aobp.Dict.{Dict, has}
use aobp.Cache.{Cache}
use aobp.Sde.Names.{TypeDoc}
use aobp.MarketPrices.{PriceDoc}
use aobp.BuildChain.{Blueprint, BuildStep, Walk, max_depth, start, walk_levels, walk_chain}
use aobp.BuildChain.Order.{topological_order}
use aobp.BuildChain.Guard.{IsMark}
use aobp.BuildChain.Resolve.{
  RawMaterial, BuildResolution, resolve_build_chain, raw_materials_of, named_steps,
}
use aobp.Build.{StepCard, RawCard, BuildPage, chain, only_bought, build_toggle_href}

module _ {F : Type 0} where
  -- What the cards of a page with this selection show: a step belongs to the item or to a selected
  -- type, and has the link that removes it unless it is the item. A material that is not among those that
  -- the recursion guard left over has the link that adds it exactly if it has a blueprint, is not the item
  -- and is not selected; one that is left over has either that link or none.
  pub record IsPage (blueprint_for_product : ℕ → Option Blueprint) (type_id qty : ℕ)
      (build_set : List ℕ) (left : Dict ℕ ℕ) (step_cards : List StepCard)
      (raw_cards : List (RawCard F)) : Type 0 where
    pub step_links :
        All
          (λ c.
            (c.buy_href ≡ (
              if c.step.type_id == type_id
              then none
              else some (build_toggle_href type_id qty build_set c.step.type_id false)))
            × ((c.step.type_id == type_id || member c.step.type_id build_set) ≡ true))
          step_cards
    pub raw_links :
        All
          (λ c.
            (c.build_href ≡ (
              if c.material.is_buildable
              then some (build_toggle_href type_id qty build_set c.material.type_id true)
              else none))
            × ((c.material.is_buildable ≡ (
                  is_some (blueprint_for_product c.material.type_id)
                  && not (c.material.type_id == type_id || member c.material.type_id build_set)))
                ⊎ ((c.material.is_buildable ≡ false) × (has c.material.type_id left ≡ true))))
          raw_cards

module _ {P F : Type 0} (unicode : Unicode) (ceil_quotient : ℕ → ℕ → Result ℕ)
    (times : ℕ → F → Result F) (minus : F → F → F) (sum : List F → F) (float : P → F)
    (zero_price : F) (blueprint_for_product : ℕ → Option Blueprint) (sde_types : ℕ → Option TypeDoc)
    (market_prices : Dict ℕ (PriceDoc P)) (ttl : ℕ) where
  abbrev resolve : ℕ → ℕ → List ℕ → Cache TypeDoc → Result (BuildResolution F × Cache TypeDoc)
  resolve =
      resolve_build_chain ceil_quotient times sum float zero_price blueprint_for_product sde_types
        market_prices ttl

  -- What the lists of a resolution say of the selection.
  abbrev Chosen : ℕ → List ℕ → BuildStep → Type 0
  Chosen target build_set s = (s.type_id == target || member s.type_id build_set) ≡ true

  abbrev Offered : ℕ → List ℕ → Dict ℕ ℕ → RawMaterial F → Type 0
  Offered target build_set left m =
      IsMark blueprint_for_product target build_set left m.type_id m.is_buildable

  -- What the recursion guard of the walk leaves over.
  abbrev pub IsLeft : ℕ → ℕ → List ℕ → Dict ℕ ℕ → Type 0
  IsLeft target qty build_set left =
      (last : Walk) × (walk_levels ceil_quotient target build_set blueprint_for_product max_depth
          ((target, qty) ∷ []) start
        ≡ ok (left, last))

  -- The lists of a resolution, and the walk that they come from.
  record Behind (target qty : ℕ) (build_set : List ℕ) (steps : List BuildStep)
      (materials : List (RawMaterial F)) : Type 0 where
    walk : Walk
    walked : walk_chain ceil_quotient target build_set blueprint_for_product qty ≡ ok walk
    name : ℕ → String
    price : ℕ → F
    totals : Dict ℕ ℕ
    made : raw_materials_of name price walk.raw_buildable totals ≡ ok materials
    order : topological_order (named_steps name walk.steps_by_type_id) target ≡ ok steps

  steps_of : Result (BuildResolution F × Cache TypeDoc) → List BuildStep
  steps_of (ok (r, cache)) = r.steps
  steps_of (raise e) = []

  materials_of : Result (BuildResolution F × Cache TypeDoc) → List (RawMaterial F)
  materials_of (ok (r, cache)) = r.raw_materials
  materials_of (raise e) = []

  page_of : Result (BuildPage F × Cache TypeDoc) → BuildPage F
  page_of (ok (page, cache)) = page
  page_of (raise e) = only_bought ""

  step_cards_of : BuildPage F → List StepCard
  step_cards_of (only_bought name) = []
  step_cards_of (chain cost value profit step_cards raw_cards) = step_cards

  raw_cards_of : BuildPage F → List (RawCard F)
  raw_cards_of (only_bought name) = []
  raw_cards_of (chain cost value profit step_cards raw_cards) = raw_cards
