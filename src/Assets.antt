-- ===== src/Assets.antt =====
-- app/routes/assets.py: the overview of a character's assets, the page of one type and the page of one
-- location. The lookups of types, prices and locations are answers that the pages are given; floats
-- are a type `F` with the operations that the pages use.
pub mod Categories
pub mod Details
pub mod Quantities
pub mod Agreement
pub mod Grouping
pub mod Overview
mod Tests
use aobp.Prelude.{
  ℕ, ◌+◌, ◌*◌, String, Bool, true, false, ◌||◌, not, Option, none, some, List, [], ◌∷◌, ◌++◌, map,
  nat_eq, string_eq, member, leb, keep, length, frozenset, if◌then◌else◌, ◌==◌, get_or, ◌&&◌,
}
use aobp.Result.{Result, ok, raise, http_exception, key_error, ◌>>=◌}
use aobp.Text.{str, ◌⧺◌, sorted}
use aobp.Dict.{Dict, get, put, keys, values, update, set_default}
use aobp.Dict.Amounts.{add_to}
use aobp.Cache.{is_empty}
use aobp.Locations.{Asset as PlacedAsset, resolve_container_chain, LocationInfo}

-- An `esi.AssetEntry`, by the fields that the pages read.
pub record Asset : Type 0 where
  pub item_id : ℕ
  pub type_id : ℕ
  pub quantity : ℕ
  pub location_id : ℕ
  pub location_type : String

-- `{asset.item_id: asset for asset in assets}`
unfoldable pub assets_by_item_id : List Asset → Dict ℕ PlacedAsset
assets_by_item_id assets = update [] (
    map
      (λ a. (
        Asset.item_id a,
        record { location_id = Asset.location_id a; location_type = Asset.location_type a },
      ))
      assets)

-- Where an asset is.
abbrev pub place : List Asset → Asset → Result ℕ
place assets asset = resolve_container_chain (assets_by_item_id assets) asset.location_id

-- A document of `sde_types`; a field is `none` where the document has none.
pub record TypeDoc (F : Type 0) : Type 0 where
  pub name : Option String
  pub group_id : Option ℕ
  pub category_id : Option ℕ
  pub volume : Option F

-- `value == n` for the value of a field.
abbrev pub is : Option ℕ → ℕ → Bool
is none n = false
is (some m) n = m == n

module _ {F : Type 0} where
  -- `compressed name` is `"compressed" in name.lower()`.
  unfoldable pub is_compressed_ore : (String → Bool) → TypeDoc F → Bool
  is_compressed_ore compressed type_doc =
      is type_doc.category_id 25 && compressed (get_or type_doc.name "")

  unfoldable pub is_uncompressed_ore : (String → Bool) → TypeDoc F → Bool
  is_uncompressed_ore compressed type_doc =
      is type_doc.category_id 25 && not (compressed (get_or type_doc.name ""))

  -- `_CATEGORIES`
  unfoldable pub categories : (String → Bool) → List (String × (TypeDoc F → Bool))
  categories compressed =
      ("Minerals", λ d. is (TypeDoc.group_id d) 18)
      ∷ ("Planetary Materials", λ d. is (TypeDoc.category_id d) 42 || is (TypeDoc.category_id d) 43)
      ∷ ("Compressed Ore", is_compressed_ore compressed)
      ∷ ("Ore", is_uncompressed_ore compressed)
      ∷ ("Datacores", λ d. is (TypeDoc.group_id d) 333)
      ∷ ("Decrypters", λ d. is (TypeDoc.group_id d) 1304)
      ∷ []

  -- `str(type_doc.get("name", f"Type {type_id}"))`
  unfoldable pub name_of : ℕ → Option (TypeDoc F) → String
  name_of type_id none = "Type " ⧺ str type_id
  name_of type_id (some type_doc) = get_or type_doc.name ("Type " ⧺ str type_id)

  -- `_unit_volume(type_docs.get(type_id, {}))`, with `0.0`
  unfoldable pub unit_volume : F → Option (TypeDoc F) → F
  unit_volume zero none = zero
  unit_volume zero (some type_doc) = get_or type_doc.volume zero

abbrev pub sum_of : List ℕ → ℕ
sum_of [] = 0
sum_of (n ∷ ns) = n + sum_of ns
