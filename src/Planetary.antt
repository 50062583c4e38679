-- ===== src/Planetary.antt =====
-- app/routes/planetary.py: what a planetary schematic costs when its inputs are made from a lower tier.
-- Quantities and prices are of a type `F` with the float operations that the code uses.
pub mod Leaves
pub mod Pages
mod Tests
use aobp.Prelude.{
  ℕ, zero, suc, ◌+◌, String, Bool, true, false, ◌||◌, not, Option, none, some, List, [], ◌∷◌, ◌++◌,
  map, if◌then◌else◌, nat_eq, string_eq, ◌==◌, get_or, is_some, member, leb, ltb, keep,
}
use aobp.Result.{Result, ok, raise, out_of_fuel, zero_division_error, http_exception, ◌>>=◌}
use aobp.Text.{str_leb, sorted}
use aobp.Dict.{Dict, get, put, keys, update}
use aobp.Sde.Names.{TypeDoc}
use aobp.Planets.{Line, Schematic}

-- `_TIER_INDEX_BY_GROUP_ID`
abbrev pub tier_index_by_group_id : Dict ℕ ℕ
tier_index_by_group_id = (1042, 1) ∷ (1034, 2) ∷ (1040, 3) ∷ (1041, 4) ∷ []

-- `_collect_price_type_ids`
unfoldable pub collect_price_type_ids : List Schematic → List ℕ
collect_price_type_ids [] = []
collect_price_type_ids (s ∷ schematics) =
    (Line.type_id s.output ∷ map Line.type_id s.inputs) ++ collect_price_type_ids schematics

-- `input_type_ids`, with repetitions
unfoldable pub input_type_ids : List Schematic → List ℕ
input_type_ids [] = []
input_type_ids (s ∷ rest) = map Line.type_id s.inputs ++ input_type_ids rest

-- `input_type_ids - output_type_ids`
unfoldable pub raw_material_type_ids : List Schematic → List ℕ
raw_material_type_ids schematics =
    let output_type_ids = map (λ s. Line.type_id (Schematic.output s)) schematics in
    keep (λ t. not (member t output_type_ids)) (input_type_ids schematics)

unfoldable pub schematic_by_output_type_id : List Schematic → Dict ℕ Schematic
schematic_by_output_type_id schematics =
    update [] (map (λ s. (Line.type_id (Schematic.output s), s)) schematics)

-- The tier of an output, where its type's group has one.
unfoldable pub tier_of : Dict ℕ TypeDoc → ℕ → Option ℕ
tier_of type_docs output_type_id = elim (get output_type_id type_docs) [
  | none ↦ none
  | some doc ↦ elim (TypeDoc.group_id doc) [
    | none ↦ none
    | some group_id ↦ get group_id tier_index_by_group_id
  ]
]

-- The loop that fills `tier_index_by_type_id`, over the keys of `schematic_by_output_type_id`.
unfoldable pub tier_index_by_type_id : Dict ℕ TypeDoc → List ℕ → Dict ℕ ℕ → Dict ℕ ℕ
tier_index_by_type_id type_docs [] tiers = tiers
tier_index_by_type_id type_docs (output_type_id ∷ outputs) tiers =
    elim (tier_of type_docs output_type_id) [
      | none ↦ tier_index_by_type_id type_docs outputs tiers
      | some index ↦ tier_index_by_type_id type_docs outputs (put output_type_id index tiers)
    ]

-- The float operations: `0.0 + x`, `x + y`, `x / n` and `x * n` for a number that is not 0, `float(n)`.
pub record Floats (F : Type 0) : Type 0 where
  pub zero_float : F
  pub plus : F → F → F
  pub minus : F → F → F
  pub mul : F → F → F
  pub over : F → ℕ → F
  pub by : F → ℕ → F
  pub of_int : ℕ → F
  pub sum : List F → F

-- The schematic by which a type is expanded: none at the floor and below.
unfoldable pub expansion : ℕ → Dict ℕ Schematic → Dict ℕ ℕ → ℕ → Option Schematic
expansion floor_tier schematics tiers type_id =
    if leb (get_or (get type_id tiers) 0) floor_tier then none else get type_id schematics

module _ {F : Type 0} (fl : Floats F) where
  -- `for key, quantity in sub.items(): result[key] = result.get(key, 0.0) + quantity`
  unfoldable pub merge : Dict ℕ F → Dict ℕ F → Dict ℕ F
  merge [] result = result
  merge ((t, q) ∷ sub) result =
      merge sub (put t (fl.plus (get_or (get t result) fl.zero_float) q) result)

  -- `for material in inputs`, with the recursive call and the quantity of a material.
  unfoldable pub expand_lines :
      (ℕ → F → Result (Dict ℕ F)) → (ℕ → F) → List Line → Dict ℕ F → Result (Dict ℕ F)
  expand_lines expand amount [] result = ok result
  expand_lines expand amount (material ∷ inputs) result = do
    sub ← expand material.type_id (amount material.quantity)
    expand_lines expand amount inputs (merge sub result)

  module _ (floor_tier : ℕ) (schematics : Dict ℕ Schematic) (tiers : Dict ℕ ℕ) where
    -- `_expand_to_tier`; the fuel bounds the depth of the recursion. An output of 0 items divides by 0.
    unfoldable pub expand_to_tier : ℕ → ℕ → F → Result (Dict ℕ F)
    expand_to_tier zero type_id quantity = raise out_of_fuel
    expand_to_tier (suc fuel) type_id quantity =
        elim (expansion floor_tier schematics tiers type_id) [
          | none ↦ ok ((type_id, quantity) ∷ [])
          | some schematic ↦
              if Line.quantity (Schematic.output schematic) == 0
              then raise zero_division_error
              else (let runs_needed =
                    fl.over quantity (Line.quantity (Schematic.output schematic)) in
                  expand_lines (expand_to_tier fuel) (fl.by runs_needed)
                    (Schematic.inputs schematic) [])
        ]
