-- ===== src/BuildChain/Resolve/Tests.antt =====
-- A ship whose hulls are built, resolved with names and prices.
use aobp.Prelude.{
  ◌⊎◌, inl, ℕ, ◌+◌, ◌-◌, ◌*◌, ◌/◌, ◌≡◌, refl, String, true, false, Option, none, some, List, [],
  ◌∷◌, arith, ◌==◌, nat_eq, string_eq, if◌then◌else◌,
}
use aobp.Result.{raise, overflow_error, Result, ok}
use aobp.Dict.{Dict, get}
use aobp.Dict.Distinct.{distinct}
use aobp.Cache.{Cache}
use aobp.Text.{str}
use aobp.Cache.Transparent.{Stores}
use aobp.Sde.ReadThrough.{Agrees}
use aobp.Sde.Names.{TypeDoc, name_in}
use aobp.MarketPrices.{PriceDoc}
use aobp.BuildChain.{Blueprint, Walk, walk_chain}
use aobp.BuildChain.Returns.{HasOverflow, IsProductive}
use aobp.BuildChain.Resolve.{BuildResolution, resolve_build_chain, raw_materials_of}
use aobp.BuildChain.Resolve.Outcome.{HasOverflowBy, IsResolution, resolve_build_chain-IsResolution}

abbrev catalogue : Dict ℕ Blueprint
catalogue =
    (
      1,
      record {
        product_quantity = none;
        materials =
            record { type_id = 2; quantity = 3 } ∷ record { type_id = 9; quantity = 7 } ∷ [];
      },
    )
    ∷ (
      2,
      record { product_quantity = some 2; materials = record { type_id = 3; quantity = 4 } ∷ [] },
    )
    ∷ []

abbrev find : ℕ → Option Blueprint
unfolding get
find k = get k catalogue

abbrev of_name : String → TypeDoc
of_name n = record { name = some n; group_id = none; category_id = none }

abbrev types : ℕ → Option TypeDoc
unfolding get
types t = get t ((1, of_name "Ship") ∷ (2, of_name "Hull") ∷ (9, of_name "Ore") ∷ [])

abbrev prices : Dict ℕ (PriceDoc ℕ)
prices = (9, record { adjusted_price = 4; average_price = 5; updated_at = 0 }) ∷ []

abbrev ceil_div : ℕ → ℕ → Result ℕ
ceil_div a b = ok ((a + (b - 1)) / b)

abbrev times : ℕ → ℕ → Result ℕ
times q p = ok (q * p)

abbrev sum : List ℕ → ℕ
sum [] = 0
sum (x ∷ xs) = x + sum xs

abbrev as_float : ℕ → ℕ
as_float p = p

-- A Redis that is filled with nothing and whose first command fails.
abbrev empty_cache : Cache TypeDoc
empty_cache = record {
  enabled = true;
  entries = [];
  fault = λ n. if n == 0 then some 0 else none;
  calls = 0;
  hits = 0;
  misses = 0;
  errors = 0;
}

find-IsProductive : IsProductive find
unfolding get
find-IsProductive k b h = ground arith

empty_cache-Stores : Stores (Agrees types "sde_type") empty_cache
unfolding get
empty_cache-Stores k e h = absurd (ground (arith, h))

prices-distinct : distinct prices ≡ true
unfolding distinct get
prices-distinct = refl

-- The names, without the marks' lookup in between.
rows_run :
    raw_materials_of
      (λ t. name_in t (types t))
      (λ t. t)
      ((9, false) ∷ (3, false) ∷ [])
      ((3, 24) ∷ [])
    ≡ ok (
        record { type_id = 3; name = "Type 3"; quantity = 24; unit_price = 3; is_buildable = false }
        ∷ [])
unfolding raw_materials_of name_in get str
rows_run = refl

resolve_build_chain-IsResolution_example :
    ((w : Walk) × (r : BuildResolution ℕ) × (cache' : Cache TypeDoc) × (walk_chain ceil_div 1
          (2 ∷ [])
          find
          4
        ≡ ok w)
      × (resolve_build_chain ceil_div times sum as_float 0 find types prices 60 1 4
            (2 ∷ [])
            empty_cache
          ≡ ok (r, cache'))
      × IsResolution as_float 0 find types prices 1 w r)
    ⊎ ((HasOverflow ceil_div ⊎ HasOverflowBy times)
        × (resolve_build_chain ceil_div times sum as_float 0 find types prices 60 1 4
              (2 ∷ [])
              empty_cache
            ≡ raise overflow_error))
resolve_build_chain-IsResolution_example =
    resolve_build_chain-IsResolution ceil_div times sum as_float 0 find types prices 60 1 4 (2 ∷ [])
      empty_cache (λ a b h. inl ((a + (b - 1)) / b, refl)) (λ n p. inl (n * p, refl))
      find-IsProductive empty_cache-Stores prices-distinct
