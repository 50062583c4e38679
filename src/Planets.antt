-- ===== src/Planets.antt =====
-- app/routes/pi.py: a character's colonies on planets. A page's cards stand for the pins they show.
pub mod Detail
pub mod Flow
pub mod Counts
mod Tests
use aobp.Prelude.{
  ℕ, zero, suc, ◌+◌, ◌-◌, String, Bool, true, false, ◌&&◌, ◌||◌, not, Option, none, some, List, [],
  ◌∷◌, ◌++◌, map, if◌then◌else◌, nat_eq, string_eq, ◌==◌, get_or, is_some, member, length, keep,
  ltb,
}
use aobp.Result.{Result, ok, raise, http_status_error, http_exception, ◌>>=◌}
use aobp.Text.{str_leb, sorted}
use aobp.Dict.{Dict, get, put, keys, has, update}
use aobp.Cache.{is_empty}

-- A line of a schematic: what a cycle takes or makes.
pub record Line : Type 0 where
  pub type_id : ℕ
  pub quantity : ℕ

-- A document of `sde_planet_schematics`.
pub record Schematic : Type 0 where
  pub schematic_id : ℕ
  pub name : String
  pub cycle_time_seconds : ℕ
  pub output : Line
  pub inputs : List Line

-- A pin of ESI's answer; `none` where the key is missing or null. An expiry time is the instant that
-- the text stands for.
pub record Pin : Type 0 where
  pub type_id : ℕ
  pub extractor_details : Option (Dict String ℕ)
  pub schematic_id : Option ℕ
  pub expiry_time : Option ℕ

pub record Colony : Type 0 where
  pub planet_id : ℕ
  pub pins : List Pin

-- `_PI_SCOPE`
abbrev pub pi_scope : String
pi_scope = "esi-planets.manage_planets.v1"

-- `_MAX_COLONY_SLOTS`
abbrev pub max_colony_slots : ℕ
max_colony_slots = 6

-- `_get_colonies_or_none`; `answer` is what get_character_colonies returns or raises.
unfoldable pub get_colonies_or_none :
    List String → Result (List Colony) → Result (Option (List Colony))
get_colonies_or_none scopes (ok colonies) =
    if member pi_scope scopes then ok (some colonies) else ok none
get_colonies_or_none scopes (raise (http_status_error code)) =
    if not (member pi_scope scopes)
    then ok none
    else if code == 401 || code == 403
    then ok none
    else raise (http_status_error code)
get_colonies_or_none scopes (raise e) = if member pi_scope scopes then raise e else ok none

-- `{schematic["_id"]: schematic for schematic in schematics}`
unfoldable pub schematic_by_id : List Schematic → Dict ℕ Schematic
schematic_by_id schematics = update [] (map (λ s. (Schematic.schematic_id s, s)) schematics)

-- The schematic of a pin, where it has one that is known.
unfoldable pub known_schematic : Dict ℕ Schematic → Pin → Option Schematic
known_schematic schematics pin = elim pin.schematic_id [
  | none ↦ none
  | some schematic_id ↦ get schematic_id schematics
]

-- `pin.get("extractor_details")` as a condition: an empty object is false.
unfoldable pub has_details : Pin → Bool
has_details pin = elim pin.extractor_details [
  | none ↦ false
  | some details ↦ not (is_empty details)
]

-- The product of a pin in `_produced_type_ids`.
unfoldable pub product_of : Dict ℕ Schematic → Pin → Option ℕ
product_of schematics pin = elim pin.extractor_details [
  | some details ↦ get "product_type_id" details
  | none ↦ elim (known_schematic schematics pin) [
    | none ↦ none
    | some schematic ↦ some (Line.type_id (Schematic.output schematic))
  ]
]

-- The loop of `_produced_type_ids`, with `seen` and `produced` as one list.
unfoldable pub produced_from : Dict ℕ Schematic → List ℕ → List Pin → List ℕ
produced_from schematics produced [] = produced
produced_from schematics produced (pin ∷ pins) = elim (product_of schematics pin) [
  | none ↦ produced_from schematics produced pins
  | some t ↦
      produced_from schematics (if member t produced then produced else produced ++ t ∷ []) pins
]

unfoldable pub produced_type_ids : Dict ℕ Schematic → Colony → List ℕ
produced_type_ids schematics colony = produced_from schematics [] colony.pins

-- What the page says of the extraction: the soonest expiry that is to come, or that all have passed.
pub data Status : Type 0 where
  extracting : ℕ → Status
  expired idle : Status

unfoldable pub expiry_times : List Pin → List ℕ
expiry_times [] = []
expiry_times (pin ∷ pins) = elim pin.expiry_time [
  | none ↦ expiry_times pins
  | some t ↦ t ∷ expiry_times pins
]

-- `min(t, *ts)`
unfoldable pub soonest : ℕ → List ℕ → ℕ
soonest t [] = t
soonest t (u ∷ ts) = soonest (if ltb u t then u else t) ts

unfoldable pub status : ℕ → List Pin → Status
status now pins =
    let times = expiry_times pins in
    elim (keep (λ t. ltb now t) times) [
      | t ∷ future ↦ extracting (soonest t future)
      | [] ↦ if is_empty times then idle else expired
    ]

-- The counts of the list page.
unfoldable pub extractor_count : List Pin → ℕ
extractor_count pins = length (keep has_details pins)

unfoldable pub factory_count : List Pin → ℕ
factory_count pins =
    length (keep (λ pin. is_some (Pin.schematic_id pin) && not (has_details pin)) pins)

unfoldable pub storage_count : List Pin → ℕ
storage_count pins = (length pins - extractor_count pins) - factory_count pins

unfoldable pub empty_slots : ℕ → ℕ
empty_slots rows = max_colony_slots - rows
