-- ===== src/Planets/Detail.antt =====
-- The page of one colony, `colony_detail` of app/routes/pi.py: its pins in sections, and what flows in
-- and out of the planet.
use aobp.Prelude.{
  ℕ, ◌+◌, String, Bool, ◌&&◌, not, Option, none, some, List, [], ◌∷◌, ◌++◌, if◌then◌else◌, nat_eq,
  string_eq, ◌==◌, get_or, length, keep, ltb,
}
use aobp.Result.{Result, ok, raise, http_exception, ◌>>=◌}
use aobp.Text.{str_leb, sorted}
use aobp.Dict.{Dict, get, put, keys}
use aobp.Planets.{
  Line, Schematic, Pin, Colony, Status, get_colonies_or_none, schematic_by_id, known_schematic,
  status,
}

-- `_FACILITY_TIER_ORDER.get(type_id, 99)`
unfoldable pub facility_tier : ℕ → ℕ
facility_tier type_id =
    if type_id == 2470 then 0 else if type_id == 2471 then 1 else if type_id == 2477 then 2 else 99

-- An entry of `resource_flow`, `{"in": ..., "out": ...}`. The floats are sums of whole numbers.
pub record ResourceFlow : Type 0 where
  pub into : ℕ
  pub out : ℕ

pub data Direction : Type 0 where
  inward outward : Direction

-- `entry[direction] += quantity`
unfoldable pub add_direction : Direction → ℕ → ResourceFlow → ResourceFlow
add_direction inward quantity entry = record entry { into = entry.into + quantity }
add_direction outward quantity entry = record entry { out = entry.out + quantity }

abbrev pub no_flow : ResourceFlow
no_flow = record { into = 0; out = 0 }

-- `_add_flow`
unfoldable pub add_flow : ℕ → Direction → ℕ → Dict ℕ ResourceFlow → Dict ℕ ResourceFlow
unfolding add_direction
add_flow type_id direction quantity flow =
    put type_id (add_direction direction quantity (get_or (get type_id flow) no_flow)) flow

-- `for material in inputs`
unfoldable pub add_inputs : List Line → Dict ℕ ResourceFlow → Dict ℕ ResourceFlow
add_inputs [] flow = flow
add_inputs (material ∷ inputs) flow =
    add_inputs inputs (add_flow material.type_id inward material.quantity flow)

-- The local variables of the loop over the pins.
pub record Sections : Type 0 where
  pub extractor_cards : List Pin
  pub factory_cards_by_type : Dict ℕ (List Pin)
  pub storage_cards : List Pin
  pub resource_flow : Dict ℕ ResourceFlow

-- The flow out of an extractor. `qty_per_cycle` may be missing.
unfoldable pub add_extraction : Dict String ℕ → Dict ℕ ResourceFlow → Dict ℕ ResourceFlow
add_extraction details flow = elim (get "product_type_id" details) [
  | none ↦ flow
  | some t ↦ add_flow t outward (get_or (get "qty_per_cycle" details) 0) flow
]

-- The body of `for pin in colony.pins`.
unfoldable pub add_pin : Dict ℕ Schematic → Pin → Sections → Sections
unfolding add_inputs add_extraction
add_pin schematics pin s = elim pin.extractor_details [
  | some details ↦ record s {
    extractor_cards = s.extractor_cards ++ pin ∷ [];
    resource_flow = add_extraction details s.resource_flow;
  }
  | none ↦ elim (known_schematic schematics pin) [
    | some schematic ↦ record s {
      factory_cards_by_type =
          put pin.type_id (get_or (get pin.type_id s.factory_cards_by_type) [] ++ pin ∷ [])
            s.factory_cards_by_type;
      resource_flow =
          add_flow (Line.type_id (Schematic.output schematic)) outward
            (Line.quantity (Schematic.output schematic))
            (add_inputs (Schematic.inputs schematic) s.resource_flow);
    }
    | none ↦ record s { storage_cards = s.storage_cards ++ pin ∷ [] }
  ]
]

unfoldable pub add_pins : Dict ℕ Schematic → List Pin → Sections → Sections
add_pins schematics [] s = s
add_pins schematics (pin ∷ pins) s = add_pins schematics pins (add_pin schematics pin s)

abbrev pub no_sections : Sections
no_sections = record {
  extractor_cards = [];
  factory_cards_by_type = [];
  storage_cards = [];
  resource_flow = [];
}

-- What is imported is consumed and not made here, what is exported the other way round.
unfoldable pub is_import : ResourceFlow → Bool
is_import entry = ltb 0 entry.into && not (ltb 0 entry.out)

unfoldable pub is_export : ResourceFlow → Bool
is_export entry = ltb 0 entry.out && not (ltb 0 entry.into)

-- The sum of the lengths of the groups.
unfoldable pub card_count : Dict ℕ (List Pin) → ℕ
card_count [] = 0
card_count ((_, cards) ∷ groups) = length cards + card_count groups

pub record ColonyPage : Type 0 where
  pub sections : Sections
  pub facility_groups : List ℕ
  pub import_type_ids : List ℕ
  pub export_type_ids : List ℕ
  pub extraction : Status

-- `_type_name`, and `str.lower`.
module _ (type_name : ℕ → String) (lower : String → String) where
  -- The key `(_FACILITY_TIER_ORDER.get(type_id, 99), _type_name(type_id))` of two groups, compared.
  unfoldable pub group_leb : ℕ → ℕ → Bool
  unfolding facility_tier
  group_leb a b =
      if facility_tier a == facility_tier b
      then str_leb (type_name a) (type_name b)
      else ltb (facility_tier a) (facility_tier b)

  -- `sorted(resource_flow, key=lambda type_id: _type_name(type_id).lower())`
  unfoldable pub resource_names : Dict ℕ ResourceFlow → List ℕ
  resource_names flow =
      sorted (λ a b. str_leb (lower (type_name a)) (lower (type_name b))) (keys flow)

  unfoldable pub select_flow : (ResourceFlow → Bool) → Dict ℕ ResourceFlow → List ℕ
  select_flow wanted flow = keep (λ t. wanted (get_or (get t flow) no_flow)) (resource_names flow)

  unfoldable pub colony_page : Dict ℕ Schematic → ℕ → Colony → ColonyPage
  colony_page schematics now colony =
      let s = add_pins schematics colony.pins no_sections in
      record {
        sections = s;
        facility_groups = sorted group_leb (keys s.factory_cards_by_type);
        import_type_ids = select_flow is_import s.resource_flow;
        export_type_ids = select_flow is_export s.resource_flow;
        extraction = status now colony.pins;
      }

  -- `next((c for c in colonies if c.planet_id == planet_id), None)`
  unfoldable pub colony_of : ℕ → List Colony → Option Colony
  colony_of planet_id [] = none
  colony_of planet_id (colony ∷ colonies) =
      if colony.planet_id == planet_id then some colony else colony_of planet_id colonies

  -- The handler, from what the scopes allow: `none` is the notice of the missing scope.
  unfoldable pub colony_detail :
      List String → Result (List Colony) → List Schematic → ℕ → ℕ → Result (Option ColonyPage)
  colony_detail scopes answer schematics now planet_id = do
    colonies ← get_colonies_or_none scopes answer
    elim colonies [
      | none ↦ ok none
      | some list ↦ elim (colony_of planet_id list) [
        | none ↦ raise (http_exception 404)
        | some colony ↦ ok (some (colony_page (schematic_by_id schematics) now colony))
      ]
    ]
