-- ===== src/Planets/Tests.antt =====
-- A planet that extracts ore, refines it and stores the plates, and the theorems on pi.py applied to it.
use aobp.Prelude.{
  ℕ, ◌+◌, ◌≡◌, refl, String, true, ◌&&◌, not, none, some, List, [], ◌∷◌, nat_eq, string_eq, member,
  ltb, length, keep, All,
}
use aobp.Result.{ok, raise, http_status_error, http_exception, transport_error}
use aobp.Text.{sorted, insert_sorted}
use aobp.Dict.{Dict, get, put, keys, update}
use aobp.Cache.{is_empty}
use aobp.Planets.{
  Line, Schematic, Pin, Colony, extracting, expired, get_colonies_or_none, schematic_by_id,
  known_schematic, has_details, produced_type_ids, produced_from, product_of, status, expiry_times,
  soonest, extractor_count, factory_count, storage_count, empty_slots,
}
use aobp.Planets.Detail.{
  add_pins, add_pin, add_inputs, add_flow, add_direction, add_extraction, colony_page,
  colony_detail, colony_of, select_flow, resource_names, is_import, is_export, card_count,
}
use aobp.Planets.Flow.{consumes, makes, pin_sum, colony_page-flows}
use aobp.Planets.Counts.{counts, listed, is_regular, colony_page-counts}

abbrev line : ℕ → ℕ → Line
line t q = record { type_id = t; quantity = q }

-- Ore (1) becomes metal (2), metal and gas (4) become plates (3).
abbrev schematics : List Schematic
schematics =
    record {
      schematic_id = 10;
      name = "Metal";
      cycle_time_seconds = 1800;
      output = line 2 20;
      inputs = line 1 3000 ∷ [];
    }
    ∷ record {
      schematic_id = 11;
      name = "Plates";
      cycle_time_seconds = 3600;
      output = line 3 5;
      inputs = line 2 40 ∷ line 4 40 ∷ [];
    }
    ∷ []

abbrev extractor : Pin
extractor = record {
  type_id = 2848;
  extractor_details = some (("product_type_id", 1) ∷ ("qty_per_cycle", 900) ∷ []);
  schematic_id = none;
  expiry_time = some 50;
}

abbrev factory : ℕ → ℕ → Pin
factory t schematic = record {
  type_id = t;
  extractor_details = none;
  schematic_id = some schematic;
  expiry_time = none;
}

abbrev storage : Pin
storage = record {
  type_id = 2541;
  extractor_details = none;
  schematic_id = none;
  expiry_time = none;
}

abbrev planet : Colony
planet = record {
  planet_id = 7;
  pins = extractor ∷ factory 2470 10 ∷ factory 2471 11 ∷ storage ∷ [];
}

abbrev plain_name : ℕ → String
plain_name t = ""

abbrev same : String → String
same s = s

-- The known schematics.
abbrev known : Dict ℕ Schematic
unfolding schematic_by_id update put
known = schematic_by_id schematics

abbrev metal : ℕ
metal = 2

products_run : produced_type_ids known planet ≡ 1 ∷ 2 ∷ 3 ∷ []
unfolding produced_type_ids produced_from product_of known_schematic get member known
products_run = refl

status_runs : status 40 planet.pins ≡ extracting 50
unfolding status expiry_times soonest keep is_empty
status_runs = refl

status_expires : status 50 planet.pins ≡ expired
unfolding status expiry_times soonest keep is_empty
status_expires = refl

scope_refused : get_colonies_or_none [] (raise transport_error) ≡ ok none
unfolding get_colonies_or_none member
scope_refused = refl

status_refused :
    get_colonies_or_none ("esi-planets.manage_planets.v1" ∷ []) (raise (http_status_error 403))
    ≡ ok none
unfolding get_colonies_or_none member
status_refused = refl

unknown_colony :
    colony_detail plain_name same
      ("esi-planets.manage_planets.v1" ∷ [])
      (ok (planet ∷ []))
      schematics
      40
      8
    ≡ raise (http_exception 404)
unfolding colony_detail colony_of get_colonies_or_none member
unknown_colony = refl

-- A factory whose schematic the collection does not have counts as a factory on the list page, and as
-- storage on the page of its colony.
unknown_schematic :
    (listed (factory 2470 99 ∷ []) ≡ (0, 1, 0))
    × (counts
          (colony_page plain_name same known 40
            (record { planet_id = 7; pins = factory 2470 99 ∷ [] })).sections
        ≡ (0, 0, 1))
unfolding extractor_count factory_count storage_count has_details keep is_empty colony_page add_pins
    add_pin known_schematic get card_count known
unknown_schematic = (refl, refl)

colony_page-flows_example :
    let page = colony_page plain_name same known 40 planet in
    let consumed = pin_sum (consumes known metal) planet.pins in
    let made = pin_sum (makes known metal) planet.pins in
    (member metal page.import_type_ids ≡ (ltb 0 consumed && not (ltb 0 made)))
    × (member metal page.export_type_ids ≡ (ltb 0 made && not (ltb 0 consumed)))
colony_page-flows_example = colony_page-flows plain_name same known 40 planet metal

regular : All (λ pin. is_regular known pin ≡ true) planet.pins
unfolding is_regular known_schematic get is_empty known
regular = (refl, (refl, (refl, (refl, tt))))

colony_page-counts_example :
    let page = counts (colony_page plain_name same known 40 planet).sections in
    (page ≡ listed planet.pins) × (page.0 + page.1 + page.2 ≡ length planet.pins)
colony_page-counts_example = colony_page-counts known plain_name same 40 planet regular

flows_run :
    let page = colony_page plain_name same known 40 planet in
    (page.import_type_ids ≡ 4 ∷ []) × (page.export_type_ids ≡ 3 ∷ [])
unfolding colony_page select_flow resource_names is_import is_export add_pins add_pin add_inputs
    add_flow add_direction add_extraction known_schematic get put keys keep sorted insert_sorted
    known
flows_run = (refl, refl)

slots_run : (empty_slots 4 ≡ 2) × (empty_slots 7 ≡ 0)
unfolding empty_slots
slots_run = (refl, refl)
