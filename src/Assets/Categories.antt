-- ===== src/Assets/Categories.antt =====
-- The overview of app/routes/assets.py: the categories' rows, and the totals over all assets.
use aobp.Prelude.{
  ℕ, String, Bool, true, false, Option, none, some, List, [], ◌∷◌, ◌++◌, map, nat_eq, string_eq,
  member, length, frozenset, if◌then◌else◌, ◌==◌, get_or, ◌&&◌,
}
use aobp.Result.{Result, ok, raise, key_error, ◌>>=◌}
use aobp.Text.{sorted}
use aobp.Dict.{Dict, get, put, values}
use aobp.Dict.Amounts.{add_to}
use aobp.Cache.{is_empty}
use aobp.Locations.{LocationInfo}
use aobp.Assets.{Asset, place, TypeDoc, categories, name_of, unit_volume, sum_of}

-- `s.add(x)` of a set, in the order of the first additions.
unfoldable pub add_once : ℕ → List ℕ → List ℕ
add_once x xs = if member x xs then xs else xs ++ x ∷ []

-- The two dictionaries of `_category_rows`.
pub record Groups : Type 0 where
  pub quantity_by_type : Dict ℕ ℕ
  pub locations_by_type : Dict ℕ (List ℕ)

-- One asset that belongs to the category.
unfoldable pub add_asset : Asset → ℕ → Groups → Groups
unfolding add_once
add_asset asset location groups = record {
  quantity_by_type = add_to asset.type_id asset.quantity groups.quantity_by_type;
  locations_by_type =
      put asset.type_id (add_once location (get_or (get asset.type_id groups.locations_by_type) []))
        groups.locations_by_type;
}

-- The loop over the assets; `belongs` says of a type that it has a document that matches.
unfoldable pub group_assets : Dict ℕ ℕ → (ℕ → Bool) → List Asset → Groups → Result Groups
group_assets resolved_location_by_item_id belongs [] groups = ok groups
group_assets resolved_location_by_item_id belongs (asset ∷ assets) groups =
    elim (belongs asset.type_id) [
      | false ↦ group_assets resolved_location_by_item_id belongs assets groups
      | true ↦ elim (get asset.item_id resolved_location_by_item_id) [
        | none ↦ raise key_error
        | some location ↦
            group_assets resolved_location_by_item_id belongs assets
              (add_asset asset location groups)
      ]
    ]

-- `_CategoryRow`, with what its card shows.
pub record CategoryRow (F : Type 0) : Type 0 where
  pub type_id : ℕ
  pub name : String
  pub quantity : ℕ
  pub volume : F
  pub location_count : ℕ
  pub value : F

pub record OverviewPage (F : Type 0) : Type 0 where
  pub total_quantity : ℕ
  pub total_locations : ℕ
  pub total_volume : F
  pub total_value : F
  pub sections : List (String × List (CategoryRow F))

-- `{asset.item_id: resolve_container_chain(...) for asset in todo}`
unfoldable pub resolve_each : List Asset → List Asset → Dict ℕ ℕ → Result (Dict ℕ ℕ)
resolve_each assets [] resolved = ok resolved
resolve_each assets (asset ∷ todo) resolved = do
  location ← place assets asset
  resolve_each assets todo (put asset.item_id location resolved)

-- Of the floats: `0.0`, `volume * quantity`, `sum` and `a <= b`; a type's price, and the answers of the
-- lookups of types and locations.
module _ {F : Type 0} (zero : F) (times : F → ℕ → F) (sum : List F → F) (le : F → F → Bool)
    (compressed : String → Bool) (type_docs : List ℕ → Dict ℕ (TypeDoc F)) (unit_price : ℕ → F)
    (location_info : List ℕ → Result (Dict ℕ (LocationInfo F))) where
  -- The rows of the grouped types, before they are sorted.
  unfoldable pub rows_of : Dict ℕ (TypeDoc F) → Groups → Dict ℕ ℕ → Result (List (CategoryRow F))
  rows_of docs groups [] = ok []
  rows_of docs groups ((type_id_, quantity_) ∷ todo) =
      elim (get type_id_ (Groups.locations_by_type groups)) [
        | none ↦ raise key_error
        | some locations ↦ do
          rows ← rows_of docs groups todo
          ok (
              record {
                type_id = type_id_;
                name = name_of type_id_ (get type_id_ docs);
                quantity = quantity_;
                volume = times (unit_volume zero (get type_id_ docs)) quantity_;
                location_count = length locations;
                value = times (unit_price type_id_) quantity_;
              }
              ∷ rows)
      ]

  abbrev pub belongs_to : Dict ℕ (TypeDoc F) → (TypeDoc F → Bool) → ℕ → Bool
  belongs_to docs matches type_id = elim (get type_id docs) [
    | none ↦ false
    | some type_doc ↦ matches type_doc
  ]

  -- `_category_rows`
  unfoldable pub category_rows :
      List Asset
      → Dict ℕ ℕ
      → Dict ℕ (TypeDoc F)
      → (TypeDoc F → Bool)
      → Result (List (CategoryRow F))
  category_rows assets resolved docs matches = do
    groups ←
        group_assets resolved (belongs_to docs matches) assets
          (record { quantity_by_type = []; locations_by_type = [] })
    rows ← rows_of docs groups (Groups.quantity_by_type groups)
    ok (sorted (λ x y. le (CategoryRow.volume y) (CategoryRow.volume x)) rows)

  -- `cards_by_title`, with the sections that are shown of it.
  unfoldable pub sections_of :
      List Asset
      → Dict ℕ ℕ
      → Dict ℕ (TypeDoc F)
      → List (String × (TypeDoc F → Bool))
      → Result (List (String × List (CategoryRow F)))
  sections_of assets resolved docs [] = ok []
  sections_of assets resolved docs ((title, matches) ∷ titles) = do
    rows ← category_rows assets resolved docs matches
    rest ← sections_of assets resolved docs titles
    ok (if is_empty rows && title == "Compressed Ore" then rest else (title, rows) ∷ rest)

  -- The totals over all assets, with the sections.
  unfoldable pub overview_page :
      List Asset
      → Dict ℕ ℕ
      → Dict ℕ (TypeDoc F)
      → List (String × List (CategoryRow F))
      → OverviewPage F
  overview_page assets resolved docs sections_ = record {
    total_quantity = sum_of (map Asset.quantity assets);
    total_locations = length (frozenset (values resolved));
    total_volume =
        sum (map (λ a. times (unit_volume zero (get (Asset.type_id a) docs)) a.quantity) assets);
    total_value = sum (map (λ a. times (unit_price (Asset.type_id a)) a.quantity) assets);
    sections = sections_;
  }

  -- `list_assets`; `none` is the page without assets.
  unfoldable pub list_assets : List Asset → Result (Option (OverviewPage F))
  list_assets assets =
      let docs = type_docs (map Asset.type_id assets) in
      if is_empty assets then ok none else (do
        resolved ← resolve_each assets assets []
        sections ← sections_of assets resolved docs (categories compressed)
        ok (some (overview_page assets resolved docs sections)))
