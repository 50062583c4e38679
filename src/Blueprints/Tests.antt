-- ===== src/Blueprints/Tests.antt =====
-- A blueprint of plates and wire with some of both at hand, and the theorem on its page applied to it.
use mathlib.Core.List.{Permᴰ}
use aobp.Text.{sorted, str}
use aobp.Blueprints.Listing.{
  ℤ, pos, negsuc, Blueprint as Owned, TypeDoc, Request, Row, visible_rows, sort_link, read_request,
  sort_of, direction_of, in_order, is_visible, row_of, selected_of, by_column, last_of, values_of,
  query_params,
}
use aobp.Blueprints.Listing.Rows.{
  IsInLine, Chain, other_direction, visible_rows-sort_link, visible_rows-sort_link_twice,
}
use aobp.Prelude.{
  String, some, none, map, if◌then◌else◌, string_eq, member, keep, ◌==◌, ℕ, ◌+◌, ◌-◌, ◌*◌, ◌/◌, ◌≤◌,
  ◌≡◌, ◌↔◌, refl, List, [], ◌∷◌, All, nat_eq,
}
use aobp.Dict.{Dict, get, put}
use aobp.Dict.Amounts.{add_to}
use aobp.Cache.{is_empty}
use aobp.BuildChain.{Material}
use aobp.Blueprints.{
  Asset, asset_totals, material_quantity_per_run, min_runs, material_card, materials_loop,
  blueprint_page,
}
use aobp.Blueprints.Buildable.{IsEnough, owned, owned_at, blueprint_page-buildable}

-- The exact quotient, rounded up.
abbrev rounded_up : ℕ → ℕ → ℕ
rounded_up base me = (base * (100 - me) + 99) / 100

abbrev plates : Material
plates = record { type_id = 1; quantity = 30 }

abbrev wire : Material
wire = record { type_id = 2; quantity = 1 }

abbrev asset : ℕ → ℕ → ℕ → Asset
asset t q location = record { type_id = t; quantity = q; location_id = location }

abbrev assets : List Asset
assets = asset 1 60 7 ∷ asset 2 5 7 ∷ asset 1 25 8 ∷ []

-- 27 plates a run at 10 percent: two runs on site, three with the plates from elsewhere.
page_runs :
    let page = blueprint_page rounded_up 10 7 (plates ∷ wire ∷ []) assets in
    (page.on_site_buildable ≡ 2) × (page.global_buildable ≡ 3)
unfolding blueprint_page asset_totals materials_loop material_card material_quantity_per_run
    min_runs get put add_to is_empty
page_runs = (refl, refl)

nothing_to_build : (blueprint_page rounded_up 10 7 [] assets).global_buildable ≡ 0
unfolding blueprint_page is_empty
nothing_to_build = refl

abbrev two : ℕ
two = 2

blueprint_page-buildable_example :
    let page = blueprint_page rounded_up 10 7 (plates ∷ wire ∷ []) assets in
    let all = plates ∷ wire ∷ [] in
    ((two ≤ page.on_site_buildable)
      ↔ All (IsEnough rounded_up 10 (λ t. owned_at 7 t assets) two) all)
    × ((two ≤ page.global_buildable) ↔ All (IsEnough rounded_up 10 (λ t. owned t assets) two) all)
blueprint_page-buildable_example =
    blueprint_page-buildable rounded_up 10 7 plates (wire ∷ []) assets two

-- An original and two copies, of which one is T2.
abbrev of_item : ℕ → ℕ → ℤ → ℕ → ℕ → Owned
of_item item type runs_ me te = record {
  item_id = item;
  type_id = type;
  quantity = if type == 1 then negsuc 0 else negsuc 1;
  runs = runs_;
  material_efficiency = me;
  time_efficiency = te;
  location_id = 60;
}

abbrev three : List Owned
three = of_item 5 1 (negsuc 0) 10 20 ∷ of_item 6 2 (pos 3) 8 0 ∷ of_item 7 3 (pos 1) 9 4 ∷ []

abbrev two_docs : Dict ℕ TypeDoc
two_docs =
    (1, record { name = some "Raven"; tech_level = some 1 })
    ∷ (3, record { name = some "Golem"; tech_level = some 2 })
    ∷ []

abbrev same_text : String → String
same_text s = s

abbrev copies_by_me : Request
copies_by_me = record {
  f = some "1";
  show = "t2" ∷ "copy" ∷ "x" ∷ [];
  sort = "me";
  dir = "asc";
  location = "60";
  search = "";
}

-- The copies in the order of their ME, and the link that turns it around.
copies_run :
    map Row.me (visible_rows same_text same_text same_text copies_by_me two_docs three) ≡ 8 ∷ 9 ∷ []
unfolding visible_rows sorted keep is_visible row_of member selected_of get str in_order
    direction_of by_column sort_of
copies_run = refl

turned_run :
    read_request (sort_link "me" copies_by_me)
    ≡ record copies_by_me { show = "copy" ∷ "t2" ∷ []; dir = "desc" }
unfolding read_request last_of values_of sort_link query_params selected_of keep member sort_of
    direction_of
turned_run = refl

-- Without the form's `f`, only originals are shown.
default_run :
    map Row.name
      (visible_rows same_text same_text same_text (record copies_by_me { f = none }) two_docs three)
    ≡ "Raven" ∷ []
unfolding visible_rows sorted keep is_visible row_of member selected_of get str
default_run = refl

visible_rows-sort_link_example :
    let q' = read_request (sort_link "te" copies_by_me) in
    let rows = visible_rows same_text same_text same_text q' two_docs three in
    Permᴰ rows (visible_rows same_text same_text same_text copies_by_me two_docs three)
    × (sort_of q' ≡ "te")
    × (direction_of q' ≡ other_direction "te" copies_by_me)
    × Chain (IsInLine same_text "te" (other_direction "te" copies_by_me)) rows
visible_rows-sort_link_example =
    visible_rows-sort_link same_text same_text same_text "te" copies_by_me two_docs three
      (unfold member in refl)

visible_rows-sort_link_twice_example :
    let q' = read_request (sort_link (sort_of copies_by_me) copies_by_me) in
    visible_rows same_text same_text same_text
      (read_request (sort_link (sort_of copies_by_me) q'))
      two_docs
      three
    ≡ visible_rows same_text same_text same_text copies_by_me two_docs three
visible_rows-sort_link_twice_example =
    visible_rows-sort_link_twice same_text same_text same_text copies_by_me two_docs three
