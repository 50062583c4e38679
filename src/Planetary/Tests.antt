-- ===== src/Planetary/Tests.antt =====
-- Ore, metal and plates on two tiers, and the theorems on planetary.py applied to them. Whole numbers
-- stand for the floats.
use aobp.Prelude.{
  ℕ, ◌+◌, ◌-◌, ◌*◌, ◌/◌, ◌≡◌, refl, String, true, none, some, List, [], ◌∷◌, ◌++◌, map, arith,
  nat_eq, member, keep, any, not, ◌&&◌, if◌then◌else◌, frozenset,
}
use aobp.Result.{ok, raise, http_exception}
use aobp.Text.{str, str_leb, sorted, insert_sorted}
use aobp.Dict.{Dict, get, put}
use aobp.Sde.Names.{TypeDoc}
use aobp.Planets.{Line, Schematic}
use aobp.Planetary.{
  Floats, merge, expansion, expand_lines, expand_to_tier, collect_price_type_ids,
  raw_material_type_ids, input_type_ids,
}
use aobp.Planetary.Leaves.{IsTiered, IsProductive, Expanded, expand_to_tier-Expanded}
use aobp.Planetary.Pages.{
  schematic_of, planet_schematic_detail, raw_section, tier_section, raw_rows, sections,
  rows_by_group_id, group_of, tier_order, other_group_id,
}
use aobp.Planetary.Pages.Sections.{is_input, is_output, belongs, sections-eq-belongs}
use aobp.Text.Sorting.{ascending}
use aobp.Cache.{is_empty}

abbrev whole : Floats ℕ
whole = record {
  zero_float = 0;
  plus = λ x y. x + y;
  minus = λ x y. x - y;
  mul = λ x y. x * y;
  over = λ x n. x / n;
  by = λ x n. x * n;
  of_int = λ n. n;
  sum = add_all;
}
  where
    add_all : List ℕ → ℕ
    add_all [] = 0
    add_all (x ∷ xs) = x + add_all xs

abbrev line : ℕ → ℕ → Line
line t q = record { type_id = t; quantity = q }

-- Metal (2) of ore (1), plates (3) of metal.
abbrev metal_schematic : Schematic
metal_schematic = record {
  schematic_id = 10;
  name = "Metal";
  cycle_time_seconds = 1800;
  output = line 2 20;
  inputs = line 1 3000 ∷ [];
}

abbrev plate_schematic : Schematic
plate_schematic = record {
  schematic_id = 11;
  name = "Plates";
  cycle_time_seconds = 3600;
  output = line 3 5;
  inputs = line 2 40 ∷ [];
}

abbrev schematics : List Schematic
schematics = metal_schematic ∷ plate_schematic ∷ []

abbrev by_output : Dict ℕ Schematic
by_output = (2, metal_schematic) ∷ (3, plate_schematic) ∷ []

abbrev tiers : Dict ℕ ℕ
tiers = (2, 1) ∷ (3, 2) ∷ []

abbrev in_group : ℕ → TypeDoc
in_group g = record { name = none; group_id = some g; category_id = none }

abbrev type_docs : Dict ℕ TypeDoc
type_docs = (2, in_group 1042) ∷ (3, in_group 1034) ∷ []

raw_materials_run : raw_material_type_ids schematics ≡ 1 ∷ []
unfolding raw_material_type_ids input_type_ids keep member
raw_materials_run = refl

price_ids_run : collect_price_type_ids schematics ≡ 2 ∷ 1 ∷ 3 ∷ 2 ∷ []
unfolding collect_price_type_ids
price_ids_run = refl

-- 10 plates from ore: 2 runs of 40 metal, each 20 of it a run of 3000 ore.
from_ore : expand_to_tier whole 0 by_output tiers 5 3 10 ≡ ok ((1, 12000) ∷ [])
unfolding expand_to_tier expand_lines merge expansion get put
from_ore = refl

from_metal : expand_to_tier whole 1 by_output tiers 5 3 10 ≡ ok ((2, 80) ∷ [])
unfolding expand_to_tier expand_lines merge expansion get put
from_metal = refl

-- Plates come from the second tier, metal from the first.
sections_run :
    sections (λ a b. true) (λ t. str t) type_docs (plate_schematic ∷ metal_schematic ∷ [])
    ≡ raw_section (1 ∷ [])
      ∷ tier_section 1042 (metal_schematic ∷ [])
      ∷ tier_section 1034 (plate_schematic ∷ [])
      ∷ []
unfolding sections raw_rows raw_material_type_ids input_type_ids rows_by_group_id group_of get put
    keep sorted insert_sorted member frozenset is_empty str
sections_run = refl

tiers-IsTiered : IsTiered by_output tiers
unfolding get member
tiers-IsTiered t i s found above i_in = ground arith

by_output-IsProductive : IsProductive by_output
unfolding get
by_output-IsProductive t s found = ground arith

expand_to_tier-Expanded_example :
    Expanded whole 0 by_output tiers 3 (expand_to_tier whole 0 by_output tiers 5 3 10)
expand_to_tier-Expanded_example =
    expand_to_tier-Expanded whole 0 by_output tiers 5 3 10 tiers-IsTiered by_output-IsProductive
      (unfold get in omega arith)

abbrev price : ℕ → ℕ
price t = t

abbrev key : ℕ → String
key t = ""

unknown_schematic :
    planet_schematic_detail whole price key schematics type_docs 99 ≡ raise (http_exception 404)
unfolding planet_schematic_detail schematic_of
unknown_schematic = refl

sections-eq-belongs_example :
    let raw = raw_rows (λ t. str t) schematics in
    (sections (λ a b. true) (λ t. str t) type_docs schematics
      ≡ (if is_empty raw then [] else raw_section raw ∷ [])
        ++ map
            (λ g. tier_section g (sorted (λ a b. true) (keep (belongs type_docs g) schematics)))
            (keep (λ g. any (belongs type_docs g) schematics) (tier_order ++ other_group_id ∷ [])))
    × (ascending (λ a b. str_leb (str a) (str b)) raw ≡ true)
    × ((t : ℕ) → member t raw ≡ (is_input t schematics && not (is_output t schematics)))
sections-eq-belongs_example = sections-eq-belongs type_docs (λ a b. true) (λ t. str t) schematics
