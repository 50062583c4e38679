-- ===== src/BuildChain/Resolve/Outcome.antt =====
-- `resolve_build_chain` always returns a resolution, and what the resolution says.
use mathlib.Core.List.{Permᴰ}
use mathlib.Core.List.Permᴰ
use aobp.Prelude.{
  ◌⊎◌, inl, inr, All-map, ℕ, ◌≡◌, refl, sym, ap, ◌∙◌, String, Bool, true, Option, some, List, [],
  ◌∷◌, map, arith, nat_eq, nat_beq_iff, is_some, member, member-append, All,
}
use aobp.Result.{raise, overflow_error, Result, ok}
use aobp.Text.{str_leb}
use aobp.Text.Sorting.{sorted-Permᴰ, ascending, ascending-sorted, str_leb_total}
use aobp.Dict.{Listed-keys, Dict, get, keys, has, member-keys}
use aobp.Dict.Distinct.{distinct}
use aobp.Cache.{Cache}
use aobp.Cache.Transparent.{Stores}
use aobp.Sde.{type_docs}
use aobp.Sde.ReadThrough.{Agrees}
use aobp.Sde.Names.{TypeDoc, name_in, type_name, type_name-type_docs}
use aobp.MarketPrices.{PriceDoc, price_by_type_id, unit_price}
use aobp.MarketPrices.Refresh.{get-price_by_type_id}
use aobp.BuildChain.{Blueprint, BuildStep, Walk, walk_chain}
use aobp.BuildChain.Raw.{walk_chain-marks}
use aobp.BuildChain.Returns.{
  IsProductive, Overflows, HasOverflow, Concludes, Concludes->>=, walk_chain_ends,
}
use aobp.BuildChain.Order.Ends.{topological_order_ends}
use aobp.BuildChain.Resolve.{
  RawMaterial, BuildResolution, costs_of, named_steps, all_type_ids, by_name, resolve_build_chain,
}
use aobp.BuildChain.Resolve.Materials.{All-Permᴰ, Rows, raw_materials_of-Rows, has-named_steps}
use aobp.BuildChain.Resolve.Target.{has_step-walk_chain}

module _ {P F : Type 0} (float : P → F) (zero_price : F)
    (blueprint_for_product : ℕ → Option Blueprint) (sde_types : ℕ → Option TypeDoc)
    (market_prices : Dict ℕ (PriceDoc P)) where
  -- A row of the raw materials: the collection's name and price of its type, and the walk's mark.
  abbrev pub IsPriced : Walk → RawMaterial F → Type 0
  IsPriced w m =
      (m.name ≡ name_in m.type_id (sde_types m.type_id))
      × (m.unit_price ≡ unit_price float zero_price (get m.type_id market_prices))
      × (get m.type_id w.raw_buildable ≡ some m.is_buildable)

  -- What a resolution says of the walk behind it.
  pub record IsResolution (target : ℕ) (w : Walk) (r : BuildResolution F) : Type 0 where
    pub quantities :
        Permᴰ
          (map (λ m. (RawMaterial.type_id m, RawMaterial.quantity m)) r.raw_materials)
          w.raw_totals
    pub priced : All (IsPriced w) r.raw_materials
    pub by_names : ascending str_leb (map RawMaterial.name r.raw_materials) ≡ true
    pub named : r.target_name ≡ name_in target (sde_types target)
    pub buildable : r.is_buildable ≡ is_some (blueprint_for_product target)

ascending-map {ℓ κ} :
    {A : Type ℓ} {B : Type κ} (le : B → B → Bool) (f : A → B) (xs : List A)
    → ascending (λ x y. le (f x) (f y)) xs ≡ ascending le (map f xs)
unfolding ascending
ascending-map le f [] = refl
ascending-map le f (x ∷ []) = refl
ascending-map le f (x ∷ y ∷ xs) = ground (arith, ascending-map le f (y ∷ xs))

-- The raw totals' types are among those that are asked for.
member-all_type_ids :
    (target t : ℕ) (w : Walk)
    → member t (keys w.raw_totals) ≡ true
    → member t (all_type_ids target w) ≡ true
unfolding member
member-all_type_ids target t w h =
    ground (arith, h, member-append t (keys w.steps_by_type_id) (keys w.raw_totals))

member-target : (target : ℕ) (w : Walk) → member target (all_type_ids target w) ≡ true
unfolding member
member-target target w = ground (arith, nat_beq_iff target target)

-- A product that is not a float is an overflow.
abbrev pub OverflowsBy : {F : Type 0} → (ℕ → F → Result F) → Type 0
OverflowsBy {F} times =
    (n : ℕ) (p : F) → ((v : F) × (times n p ≡ ok v)) ⊎ (times n p ≡ raise overflow_error)

abbrev pub HasOverflowBy : {F : Type 0} → (ℕ → F → Result F) → Type 0
HasOverflowBy {F} times = (n : ℕ) × (p : F) × (times n p ≡ raise overflow_error)

costs_of_ends :
    {F : Type 0} (times : ℕ → F → Result F)
    → OverflowsBy times
    → (materials : List (RawMaterial F))
    → Concludes (HasOverflowBy times) (costs_of times materials)
unfolding costs_of
costs_of_ends times products [] = inl ([], refl)
costs_of_ends times products (m ∷ materials) = elim (products m.quantity m.unit_price) [
  | inr e ↦ inr ((m.quantity, m.unit_price, e), rw e refl)
  | inl (cost, e) ↦ rw e (
      Concludes->>= (costs_of times materials) (λ costs. ok (cost ∷ costs))
        (costs_of_ends times products materials) (λ costs known. inl (cost ∷ costs, refl)))
]

module _ {P F : Type 0} (ceil_quotient : ℕ → ℕ → Result ℕ) (times : ℕ → F → Result F)
    (sum : List F → F) (float : P → F) (zero_price : F)
    (blueprint_for_product : ℕ → Option Blueprint) (sde_types : ℕ → Option TypeDoc)
    (market_prices : Dict ℕ (PriceDoc P)) (ttl : ℕ) (target quantity : ℕ) (build_set : List ℕ)
    (cache : Cache TypeDoc) where
  -- What the code computes from the walk `w`.
  module _ (w : Walk)
      (walked : walk_chain ceil_quotient target build_set blueprint_for_product quantity
        ≡ ok w) where
    abbrev ids : List ℕ
    ids = all_type_ids target w

    abbrev name : ℕ → String
    name = type_name (type_docs sde_types ttl ids cache).0

    abbrev price : ℕ → F
    price t = unit_price float zero_price (get t (price_by_type_id ids market_prices))

    abbrev IsAsked : ℕ → Type 0
    IsAsked t = member t ids ≡ true

    raw_totals-Rows : Rows name price w.raw_buildable IsAsked (by_name name w.raw_totals)
    raw_totals-Rows =
        raw_materials_of-Rows name price w.raw_buildable IsAsked (by_name name w.raw_totals) (
          All-Permᴰ _ (Permᴰ.symm (sorted-Permᴰ _ w.raw_totals)) (
            All-map
              (λ (e : ℕ × ℕ) m. (
                member-all_type_ids target e.0 w m,
                ground (
                  arith,
                  m,
                  member-keys e.0 w.raw_totals,
                  walk_chain-marks blueprint_for_product target build_set ceil_quotient quantity w
                      walked e.0,
                ),
              ))
              w.raw_totals (Listed-keys w.raw_totals)))

    abbrev resolution : List F → F → List BuildStep → BuildResolution F
    resolution costs value ordered = record {
      target_type_id = target;
      target_name = name target;
      target_quantity = quantity;
      is_buildable = has target (named_steps name w.steps_by_type_id);
      steps = ordered;
      raw_materials = raw_totals-Rows.rows;
      raw_material_cost = sum costs;
      output_value = value;
    }

    resolution-IsResolution :
        Stores (Agrees sde_types "sde_type") cache
        → distinct market_prices ≡ true
        → (costs : List F) (value : F) (ordered : List BuildStep)
        → IsResolution float zero_price blueprint_for_product sde_types market_prices target w
            (resolution costs value ordered)
    resolution-IsResolution agree unique costs value ordered = record {
      quantities = rw (raw_totals-Rows.quantities) (sorted-Permᴰ _ w.raw_totals);
      priced =
          All-map
            (λ (m : RawMaterial F) h. (
              h.1 ∙ type_name-type_docs sde_types ttl ids cache agree m.type_id h.0,
              h.2
                  ∙ ap (unit_price float zero_price)
                      (get-price_by_type_id ids market_prices m.type_id unique h.0),
              h.3,
            ))
            raw_totals-Rows.rows raw_totals-Rows.described;
      by_names = rw (raw_totals-Rows.names) (
          sym (ascending-map str_leb (λ (e : ℕ × ℕ). name e.0) (by_name name w.raw_totals))
          ∙ ascending-sorted _ (λ a b. str_leb_total (name a.0) (name b.0)) w.raw_totals);
      named = type_name-type_docs sde_types ttl ids cache agree target (member-target target w);
      buildable =
          has-named_steps name target w.steps_by_type_id
          ∙ has_step-walk_chain blueprint_for_product ceil_quotient target build_set quantity w
              walked;
    }

  -- If no blueprint makes 0 items, the cache's entries of types hold documents of the collection, and
  -- the prices have one document for each type: for every target and quantity, cycles of blueprints
  -- included, and whatever Redis does, the resolution is returned, unless a quotient or a product of the
  -- float operations overflows and that error is raised. Its raw materials are the raw totals of the walk,
  -- each once, in the order of their names, with the collections' names and prices and the walk's marks;
  -- its target has the collection's name and is buildable exactly if a blueprint makes it.
  pub resolve_build_chain-IsResolution :
      Overflows ceil_quotient
      → OverflowsBy times
      → IsProductive blueprint_for_product
      → Stores (Agrees sde_types "sde_type") cache
      → distinct market_prices ≡ true
      → ((w : Walk) × (r : BuildResolution F) × (cache' : Cache TypeDoc) × (walk_chain ceil_quotient
              target build_set blueprint_for_product quantity
            ≡ ok w)
          × (resolve_build_chain ceil_quotient times sum float zero_price blueprint_for_product
                sde_types market_prices ttl target quantity build_set cache
              ≡ ok (r, cache'))
          × IsResolution float zero_price blueprint_for_product sde_types market_prices target w r)
        ⊎ ((HasOverflow ceil_quotient ⊎ HasOverflowBy times)
            × (resolve_build_chain ceil_quotient times sum float zero_price blueprint_for_product
                  sde_types market_prices ttl target quantity build_set cache
                ≡ raise overflow_error))
  unfolding resolve_build_chain
  resolve_build_chain-IsResolution quotients products productive agree unique =
      elim (walk_chain_ends ceil_quotient target build_set quotients blueprint_for_product
        productive quantity) [
          | inr (cause, e) ↦ inr (inl cause, rw e refl)
          | inl (w, walked) ↦
              let (ordered, order) =
                topological_order_ends (named_steps (name w walked) w.steps_by_type_id) target in
              let rows = raw_totals-Rows w walked in
              elim (costs_of_ends times products rows.rows) [
                | inr (cause, e) ↦ inr (inr cause, rw (walked, rows.made, e) refl)
                | inl (costs, added) ↦ elim (products quantity (price w walked target)) [
                  | inr e ↦ inr (
                    inr (quantity, price w walked target, e),
                    rw (walked, rows.made, added, e) refl,
                  )
                  | inl (value, sold) ↦ inl (
                    w,
                    resolution w walked costs value ordered,
                    (type_docs sde_types ttl (ids w walked) cache).1,
                    walked,
                    rw (walked, rows.made, added, sold, order) refl,
                    resolution-IsResolution w walked agree unique costs value ordered,
                  )
                ]
              ]
        ]
