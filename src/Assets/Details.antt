-- ===== src/Assets/Details.antt =====
-- The page of a type and the page of a location of app/routes/assets.py.
use aobp.Prelude.{
  ℕ, String, Bool, Option, List, [], ◌∷◌, map, nat_eq, string_eq, leb, keep, length, if◌then◌else◌,
  ◌==◌,
}
use aobp.Result.{Result, ok, raise, http_exception, ◌>>=◌}
use aobp.Text.{sorted}
use aobp.Dict.{Dict, get, keys, values}
use aobp.Dict.Amounts.{add_to}
use aobp.Cache.{is_empty}
use aobp.Locations.{LocationInfo}
use aobp.Assets.{Asset, place, TypeDoc, name_of, unit_volume, sum_of}

-- A card of a location on a type's page, and what the page shows.
pub record LocationCard (F : Type 0) : Type 0 where
  pub location_id : ℕ
  pub info : Option (LocationInfo F)
  pub quantity : ℕ

pub record ItemPage (F : Type 0) : Type 0 where
  pub name : String
  pub unit_volume : F
  pub total_quantity : ℕ
  pub total_volume : F
  pub total_value : F
  pub locations : List (LocationCard F)

-- A row of a location's page, and what the page shows.
pub record TypeRow (F : Type 0) : Type 0 where
  pub type_id : ℕ
  pub name : String
  pub quantity : ℕ
  pub volume : F
  pub value : F

pub record LocationPage (F : Type 0) : Type 0 where
  pub info : Option (LocationInfo F)
  pub total_quantity : ℕ
  pub distinct_items : ℕ
  pub total_volume : F
  pub total_value : F
  pub rows : List (TypeRow F)

-- The loop of `item_detail` over the assets of one type.
unfoldable pub sum_by_location : List Asset → List Asset → Dict ℕ ℕ → Result (Dict ℕ ℕ)
sum_by_location assets [] sums = ok sums
sum_by_location assets (asset ∷ matching) sums = do
  location ← place assets asset
  sum_by_location assets matching (add_to location asset.quantity sums)

-- The assets at a location.
unfoldable pub located_at : List Asset → ℕ → List Asset → Result (List Asset)
located_at assets location_id [] = ok []
located_at assets location_id (asset ∷ todo) = do
  location ← place assets asset
  rest ← located_at assets location_id todo
  ok (if location == location_id then asset ∷ rest else rest)

-- The loop of `location_detail` over the assets there.
unfoldable pub sum_by_type : List Asset → Dict ℕ ℕ → Dict ℕ ℕ
sum_by_type [] sums = sums
sum_by_type (asset ∷ matching) sums =
    sum_by_type matching (add_to asset.type_id asset.quantity sums)

-- Of the floats: `0.0`, `volume * quantity`, `sum` and `a <= b`; a type's price, and the answers of the
-- lookups of types and locations.
module _ {F : Type 0} (zero : F) (times : F → ℕ → F) (sum : List F → F) (le : F → F → Bool)
    (compressed : String → Bool) (type_docs : List ℕ → Dict ℕ (TypeDoc F)) (unit_price : ℕ → F)
    (location_info : List ℕ → Result (Dict ℕ (LocationInfo F))) where
  -- `item_detail`
  unfoldable pub item_detail : List Asset → ℕ → Result (ItemPage F)
  item_detail assets type_id =
      let matching = keep (λ a. Asset.type_id a == type_id) assets in
      let type_doc = get type_id (type_docs (type_id ∷ [])) in
      if is_empty matching then raise (http_exception 404) else (do
        quantity_by_location ← sum_by_location assets matching []
        info_ ← location_info (keys quantity_by_location)
        let total = sum_of (values quantity_by_location)
        ok (record {
          name = name_of type_id type_doc;
          unit_volume = unit_volume zero type_doc;
          total_quantity = total;
          total_volume = times (unit_volume zero type_doc) total;
          total_value = times (unit_price type_id) total;
          locations =
              map (λ e. record { location_id = e.0; info = get e.0 info_; quantity = e.1 })
                (sorted (λ x y. leb y.1 x.1) quantity_by_location);
        }))

  unfoldable pub type_row : Dict ℕ (TypeDoc F) → ℕ × ℕ → TypeRow F
  type_row docs (type_id_, quantity_) = record {
    type_id = type_id_;
    name = name_of type_id_ (get type_id_ docs);
    quantity = quantity_;
    volume = times (unit_volume zero (get type_id_ docs)) quantity_;
    value = times (unit_price type_id_) quantity_;
  }

  -- `location_detail` behind the choice of the assets there.
  unfoldable pub location_page : ℕ → List Asset → Result (LocationPage F)
  unfolding type_row
  location_page location_id matching =
      let quantity_by_type = sum_by_type matching [] in
      let rows_ = map (type_row (type_docs (map Asset.type_id matching))) quantity_by_type in
      if is_empty matching then raise (http_exception 404) else (do
        info_ ← location_info (location_id ∷ [])
        ok (record {
          info = get location_id info_;
          total_quantity = sum_of (values quantity_by_type);
          distinct_items = length quantity_by_type;
          total_volume = sum (map TypeRow.volume rows_);
          total_value = sum (map TypeRow.value rows_);
          rows = sorted (λ x y. le (TypeRow.volume y) (TypeRow.volume x)) rows_;
        }))

  -- `location_detail`
  unfoldable pub location_detail : List Asset → ℕ → Result (LocationPage F)
  location_detail assets location_id = do
    matching ← located_at assets location_id assets
    location_page location_id matching
