-- ===== src/Planetary/Pages.antt =====
-- The two pages of app/routes/planetary.py: the schematics in sections by tier, and for one schematic
-- its cost and profit from each tier below its own.
pub mod Floors
pub mod Sections
use aobp.Prelude.{
  ℕ, zero, suc, ◌+◌, String, Bool, true, false, not, Option, none, some, List, [], ◌∷◌, ◌++◌, map,
  if◌then◌else◌, nat_eq, ◌==◌, get_or, member, ltb, keep, frozenset,
}
use aobp.Result.{Result, ok, raise, zero_division_error, http_exception, ◌>>=◌}
use aobp.Text.{str_leb, sorted}
use aobp.Dict.{Dict, get, put, keys, has}
use aobp.Cache.{is_empty}
use aobp.Sde.Names.{TypeDoc}
use aobp.Planets.{Line, Schematic}
use aobp.Planetary.{
  raw_material_type_ids, Floats, expand_lines, expand_to_tier, schematic_by_output_type_id,
  tier_index_by_type_id,
}

-- One more than the highest tier of `_TIER_INDEX_BY_GROUP_ID`: the depth of the expansions.
abbrev pub max_depth : ℕ
max_depth = 5

-- `next((s for s in schematics if s["_id"] == schematic_id), None)`
unfoldable pub schematic_of : ℕ → List Schematic → Option Schematic
schematic_of schematic_id [] = none
schematic_of schematic_id (s ∷ schematics) =
    if s.schematic_id == schematic_id then some s else schematic_of schematic_id schematics

-- A row of the summary, with its table of materials: type, quantity and unit price.
pub record FloorRow (F : Type 0) : Type 0 where
  pub floor : ℕ
  pub cost : F
  pub profit : F
  pub profit_per_day : F
  pub material_lines : List (ℕ × F × F)

-- The float operations, the unit price of a type, and the key by which types are listed,
-- `_type_name(type_id).lower()`.
module _ {F : Type 0} (fl : Floats F) (unit_price : ℕ → F) (name_key : ℕ → String) where
  -- `_profit_per_day`
  unfoldable pub profit_per_day : F → ℕ → Result F
  profit_per_day profit cycle_time_seconds =
      if cycle_time_seconds == 0
      then raise zero_division_error
      else ok (fl.over (fl.by profit 86400) cycle_time_seconds)

  -- The body of `for floor in range(own_tier)`.
  unfoldable pub floor_row : Dict ℕ Schematic → Dict ℕ ℕ → Schematic → ℕ → Result (FloorRow F)
  floor_row schematics tiers schematic floor = do
    expanded ←
        expand_lines fl (expand_to_tier fl floor schematics tiers max_depth) fl.of_int
          schematic.inputs []
    let cost_ = fl.sum (map (λ e. fl.mul e.1 (unit_price e.0)) expanded)
    let output = schematic.output
    let output_value = fl.by (unit_price (Line.type_id output)) (Line.quantity output)
    let profit_ = fl.minus output_value cost_
    per_day ← profit_per_day profit_ schematic.cycle_time_seconds
    ok (record {
      floor = floor;
      cost = cost_;
      profit = profit_;
      profit_per_day = per_day;
      material_lines =
          sorted (λ a b. str_leb (name_key a.0) (name_key b.0))
            (map (λ e. (e.0, e.1, unit_price e.0)) expanded);
    })

  -- The floors from `floor` on, `count` of them.
  unfoldable pub floor_rows :
      Dict ℕ Schematic → Dict ℕ ℕ → Schematic → ℕ → ℕ → Result (List (FloorRow F))
  floor_rows schematics tiers schematic zero floor = ok []
  floor_rows schematics tiers schematic (suc count) floor = do
    row ← floor_row schematics tiers schematic floor
    rows ← floor_rows schematics tiers schematic count (suc floor)
    ok (row ∷ rows)

  -- The handler; no rows stand for the notice that there is no tier data.
  unfoldable pub planet_schematic_detail :
      List Schematic → Dict ℕ TypeDoc → ℕ → Result (List (FloorRow F))
  planet_schematic_detail schematics type_docs schematic_id =
      elim (schematic_of schematic_id schematics) [
        | none ↦ raise (http_exception 404)
        | some schematic ↦
            let by_output = schematic_by_output_type_id schematics in
            let tiers = tier_index_by_type_id type_docs (keys by_output) [] in
            let own_tier = get_or (get (Line.type_id (Schematic.output schematic)) tiers) 0 in
            floor_rows by_output tiers schematic own_tier 0
      ]

-- `_TIER_ORDER`, whose members are the keys of `_TIER_LABELS`, and `_OTHER_GROUP_ID`
abbrev pub tier_order : List ℕ
tier_order = 1042 ∷ 1034 ∷ 1040 ∷ 1041 ∷ []

abbrev pub other_group_id : ℕ
other_group_id = 0

-- The group of a schematic's row: its output's, if that is a tier.
unfoldable pub group_of : Dict ℕ TypeDoc → Schematic → ℕ
group_of type_docs schematic = elim (get (Line.type_id (Schematic.output schematic)) type_docs) [
  | none ↦ other_group_id
  | some doc ↦ elim (TypeDoc.group_id doc) [
    | none ↦ other_group_id
    | some group_id ↦ if member group_id tier_order then group_id else other_group_id
  ]
]

-- `rows_by_group_id.setdefault(group_id, []).append(row)` for every row.
unfoldable pub rows_by_group_id :
    Dict ℕ TypeDoc → List Schematic → Dict ℕ (List Schematic) → Dict ℕ (List Schematic)
rows_by_group_id type_docs [] groups = groups
rows_by_group_id type_docs (s ∷ schematics) groups =
    let g = group_of type_docs s in
    rows_by_group_id type_docs schematics (put g (get_or (get g groups) [] ++ s ∷ []) groups)

-- A section of the list page: the raw materials, or the schematics of a tier or of the rest.
pub data Section : Type 0 where
  raw_section : List ℕ → Section
  tier_section : ℕ → List Schematic → Section

-- `raw_rows`, by the key `_type_name(tid).lower()`
unfoldable pub raw_rows : (ℕ → String) → List Schematic → List ℕ
raw_rows name_key schematics =
    sorted (λ a b. str_leb (name_key a) (name_key b)) (frozenset (raw_material_type_ids schematics))

-- The sections of the list page: the raw materials, if there are any, the tiers in their order, then the
-- rest, each sorted by `r.name.lower()`, which `name_leb` compares.
unfoldable pub sections :
    (Schematic → Schematic → Bool) → (ℕ → String) → Dict ℕ TypeDoc → List Schematic → List Section
unfolding raw_rows
sections name_leb name_key type_docs schematics =
    let groups = rows_by_group_id type_docs schematics [] in
    let ids = keep (λ g. has g groups) (tier_order ++ other_group_id ∷ []) in
    let raw = raw_rows name_key schematics in
    (if is_empty raw then [] else raw_section raw ∷ [])
    ++ map (λ g. tier_section g (sorted name_leb (get_or (get g groups) []))) ids
