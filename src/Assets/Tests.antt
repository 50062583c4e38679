-- ===== src/Assets/Tests.antt =====
-- Ore in a ship's hold and in a hangar, a ship, and the pages that show them.
use aobp.Prelude.{
  ℕ, ◌&&◌, ◌+◌, ◌*◌, ◌≡◌, refl, false, none, some, List, [], ◌∷◌, map, nat_eq, string_eq, leb, keep,
  member, ◌==◌, if◌then◌else◌,
}
use aobp.Result.{Result, ok, raise, http_exception}
use aobp.Text.{str, sorted}
use aobp.Dict.{Dict, get, put, update, values}
use aobp.Dict.Amounts.{add_to, total}
use aobp.Cache.{is_empty}
use aobp.Locations.{LocationInfo, resolve_container_chain, chain_loop}
use aobp.Assets.{Asset, TypeDoc, assets_by_item_id, name_of, unit_volume, categories}
use aobp.Assets.Categories.{OverviewPage, list_assets}
use aobp.Assets.Details.{
  ItemPage, LocationPage, sum_by_location, sum_by_type, located_at, location_page, item_detail,
  location_detail,
}
use aobp.Assets.Quantities.{owned, at}
use aobp.Assets.Agreement.{card_line, row_line, item_detail-eq-location_detail}
use aobp.Assets.Overview.{Shows, list_assets-Shows}

-- The ship (item 10) stands in the hangar 60; 5 ore are in the ship, 7 in the hangar and 2 elsewhere.
abbrev owned_assets : List Asset
owned_assets =
    record { item_id = 10; type_id = 1; quantity = 1; location_id = 60; location_type = "station" }
    ∷ record { item_id = 11; type_id = 9; quantity = 5; location_id = 10; location_type = "item" }
    ∷ record {
      item_id = 12;
      type_id = 9;
      quantity = 7;
      location_id = 60;
      location_type = "station";
    }
    ∷ record {
      item_id = 13;
      type_id = 9;
      quantity = 2;
      location_id = 61;
      location_type = "station";
    }
    ∷ []

abbrev sum : List ℕ → ℕ
sum [] = 0
sum (x ∷ xs) = x + sum xs

abbrev ore_doc : TypeDoc ℕ
ore_doc = record { name = some "Ore"; group_id = none; category_id = some 25; volume = some 3 }

abbrev docs : List ℕ → Dict ℕ (TypeDoc ℕ)
docs ids = if member 9 ids then (9, ore_doc) ∷ [] else []

abbrev no_info : List ℕ → Result (Dict ℕ (LocationInfo ℕ))
no_info ids = ok []

abbrev ore_page : ItemPage ℕ
ore_page = record {
  name = "Ore";
  unit_volume = 3;
  total_quantity = 14;
  total_volume = 42;
  total_value = 28;
  locations =
      record { location_id = 60; info = none; quantity = 12 }
      ∷ record { location_id = 61; info = none; quantity = 2 }
      ∷ [];
}

abbrev hangar_page : LocationPage ℕ
hangar_page = record {
  info = none;
  total_quantity = 13;
  distinct_items = 2;
  total_volume = 36;
  total_value = 26;
  rows =
      record { type_id = 9; name = "Ore"; quantity = 12; volume = 36; value = 24 }
      ∷ record { type_id = 1; name = "Type 1"; quantity = 1; volume = 0; value = 2 }
      ∷ [];
}

ore_run : item_detail 0 ◌*◌ sum leb (λ s. false) docs (λ t. 2) no_info owned_assets 9 ≡ ok ore_page
unfolding item_detail is_empty keep sum_by_location resolve_container_chain chain_loop get
    assets_by_item_id update put member name_of unit_volume values sorted add_to
ore_run = refl

hangar_run :
    location_detail 0 ◌*◌ sum leb (λ s. false) docs (λ t. 2) no_info owned_assets 60
    ≡ ok hangar_page
unfolding location_detail located_at resolve_container_chain chain_loop get assets_by_item_id update
    put member location_page is_empty values sum_by_type sorted add_to unit_volume name_of str
hangar_run = refl

not_owned :
    item_detail 0 ◌*◌ sum leb (λ s. false) docs (λ t. 2) no_info owned_assets 8
    ≡ raise (http_exception 404)
unfolding item_detail keep is_empty
not_owned = refl

item_detail-eq-location_detail_example :
    let there = owned (λ a. a.type_id == 9 && at owned_assets a == 60) owned_assets in
    (total 60 (map card_line (ItemPage.locations ore_page)) ≡ there)
    × (total 9 (map row_line (LocationPage.rows hangar_page)) ≡ there)
    × (ItemPage.total_quantity ore_page ≡ owned (λ a. a.type_id == 9) owned_assets)
    × (LocationPage.total_quantity hangar_page ≡ owned (λ a. at owned_assets a == 60) owned_assets)
item_detail-eq-location_detail_example =
    item_detail-eq-location_detail 0 ◌*◌ sum leb (λ s. false) docs (λ t. 2) no_info owned_assets 9
      60 ore_page hangar_page ore_run hangar_run

list_assets-Shows_example :
    (page : OverviewPage ℕ) × (list_assets 0 ◌*◌ sum leb
        (λ s. false)
        docs
        (λ t. 2)
        no_info
        owned_assets
      ≡ ok (some page))
    × Shows 0 ◌*◌ sum leb
        (λ s. false)
        docs
        (λ t. 2)
        no_info
        owned_assets
        (docs (map Asset.type_id owned_assets))
        (categories (λ s. false))
        page.sections
list_assets-Shows_example =
    list_assets-Shows 0 ◌*◌ sum leb (λ s. false) docs (λ t. 2) no_info owned_assets
      (unfold is_empty in refl)
