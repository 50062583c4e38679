-- ===== src/Planetary/Pages/Sections.antt =====
-- The sections of the list page, against a filter of the schematics for each tier.
use aobp.Prelude.{
  ℕ, ◌≡◌, refl, ◌∙◌, sym, ap, String, Bool, true, false, not, none, some, ◌&&◌, ◌||◌, if◌then◌else◌,
  frozenset, member, member-append, member-frozenset, member-keep, Option-cases, inl, inr, All,
  List, [], ◌∷◌, ◌++◌, map, arith, nat_eq, nat_beq_iff, ◌==◌, get_or, any, keep,
}
use mathlib.Core.List.{append-nil, append_assoc}
use aobp.Text.{str_leb, sorted}
use aobp.Text.Sorting.{member-sorted, ascending, ascending-sorted, str_leb_total}
use aobp.Cache.{is_empty}
use aobp.Planetary.{input_type_ids, raw_material_type_ids}
use aobp.Dict.{Dict, get, put, has, get-put}
use aobp.Sde.Names.{TypeDoc}
use aobp.Planets.{Line, Schematic}
use aobp.Planetary.Pages.{
  raw_section, tier_section, raw_rows, group_of, rows_by_group_id, sections, tier_order,
  other_group_id,
}

-- Whether a type is an input, or the output, of one of the schematics.
unfoldable pub is_input : ℕ → List Schematic → Bool
is_input t = any (λ s. any (λ line. Line.type_id line == t) s.inputs)

unfoldable pub is_output : ℕ → List Schematic → Bool
is_output t = any (λ s. Line.type_id s.output == t)

member-map_types :
    (t : ℕ) (lines : List Line)
    → member t (map Line.type_id lines) ≡ any (λ l. l.type_id == t) lines
unfolding member any
member-map_types t [] = refl
member-map_types t (l ∷ lines) = ground (arith, member-map_types t lines)

member-input_type_ids :
    (t : ℕ) (schematics : List Schematic)
    → member t (input_type_ids schematics) ≡ is_input t schematics
unfolding input_type_ids is_input any
member-input_type_ids t [] = unfold member in refl
member-input_type_ids t (s ∷ rest) = ground (
  arith,
  member-append t (map Line.type_id s.inputs) (input_type_ids rest),
  member-map_types t s.inputs,
  member-input_type_ids t rest,
)

member-map_outputs :
    (t : ℕ) (schematics : List Schematic)
    → member t (map (λ s. Line.type_id (Schematic.output s)) schematics) ≡ is_output t schematics
unfolding member is_output any
member-map_outputs t [] = refl
member-map_outputs t (s ∷ rest) = ground (arith, member-map_outputs t rest)

member-raw_rows :
    (name_key : ℕ → String) (t : ℕ) (schematics : List Schematic)
    → member t (raw_rows name_key schematics)
      ≡ (is_input t schematics && not (is_output t schematics))
unfolding raw_rows raw_material_type_ids
member-raw_rows name_key t schematics =
    let outputs = map (λ s. Line.type_id (Schematic.output s)) schematics in
    let raw = keep (λ u. not (member u outputs)) (input_type_ids schematics) in
    member-sorted (λ a b. str_leb (name_key a) (name_key b)) t (frozenset raw)
    ∙ member-frozenset t raw
    ∙ member-keep (λ u. not (member u outputs)) t (input_type_ids schematics)
    ∙ ground (arith, member-map_outputs t schematics, member-input_type_ids t schematics)

-- Two lists by tests and functions that agree on their common items.
map-keep {ℓ} :
    {B : Type ℓ} (f f' : ℕ → B) (test test' : ℕ → Bool) (ids : List ℕ)
    → All (λ g. (f g ≡ f' g) × (test g ≡ test' g)) ids
    → map f (keep test ids) ≡ map f' (keep test' ids)
unfolding keep
map-keep f f' test test' [] h = refl
map-keep f f' test test' (g ∷ ids) h =
    let rest = map-keep f f' test test' ids h.1 in ground (arith, rest, h.0.0, h.0.1)

module _ (type_docs : Dict ℕ TypeDoc) where
  -- Whether a schematic's output is a type of the group.
  unfoldable pub is_type_of : ℕ → Schematic → Bool
  is_type_of g s = elim (get (Line.type_id (Schematic.output s)) type_docs) [
    | none ↦ false
    | some doc ↦ elim (TypeDoc.group_id doc) [ none ↦ false | some h ↦ h == g ]
  ]

  -- What a section lists: the outputs of its tier, and the rest those of none of the four tiers.
  unfoldable pub belongs : ℕ → Schematic → Bool
  belongs g s =
      if g == 0
      then not (is_type_of 1042 s || is_type_of 1034 s || is_type_of 1040 s || is_type_of 1041 s)
      else is_type_of g s

  abbrev of : ℕ → Schematic → Bool
  of g s = group_of type_docs s == g

  group_of-belongs :
      (g : ℕ) (s : Schematic)
      → member g (tier_order ++ other_group_id ∷ []) ≡ true
      → of g s ≡ belongs g s
  unfolding group_of belongs is_type_of member
  group_of-belongs g s h = elim (Option-cases (get (Line.type_id s.output) type_docs)) [
    | inl absent ↦ ground (arith, absent, h)
    | inr (doc, present) ↦ elim (Option-cases doc.group_id) [
      | inl absent ↦ ground (arith, present, absent, h)
      | inr (id, known) ↦ ground (arith, present, known, h)
    ]
  ]

  rows_by_group_id-group :
      (g : ℕ) (schematics : List Schematic) (groups : Dict ℕ (List Schematic))
      → let after = rows_by_group_id type_docs schematics groups in
        (get_or (get g after) [] ≡ get_or (get g groups) [] ++ keep (of g) schematics)
        × (has g after ≡ (has g groups || any (of g) schematics))
  unfolding rows_by_group_id keep any
  rows_by_group_id-group g [] groups = (sym (append-nil _), ground arith)
  rows_by_group_id-group g (s ∷ schematics) groups =
      let k = group_of type_docs s in
      let grown = get_or (get k groups) [] ++ s ∷ [] in
      let (rest, known) = rows_by_group_id-group g schematics (put k grown groups) in
      let step = get-put k g grown groups in
      let assoc = append_assoc (get_or (get k groups) []) (s ∷ []) (keep (of g) schematics) in
      let same_key = ap (λ j. get_or (get j groups) []) {x = k} {y = g} in
      (
        ground (arith, rest, step, assoc, same_key, nat_beq_iff k g),
        ground (arith, known, step, nat_beq_iff k g),
      )

  -- What is filed under a group of the page, and whether anything is.
  section-belongs :
      (name_leb : Schematic → Schematic → Bool) (schematics : List Schematic) (g : ℕ)
      → member g (tier_order ++ other_group_id ∷ []) ≡ true
      → let groups = rows_by_group_id type_docs schematics [] in
        (tier_section g (sorted name_leb (get_or (get g groups) []))
          ≡ tier_section g (sorted name_leb (keep (belongs g) schematics)))
        × (has g groups ≡ any (belongs g) schematics)
  unfolding get
  section-belongs name_leb schematics g h =
      let (listed, known) = rows_by_group_id-group g schematics [] in
      (
        ap (λ l. tier_section g (sorted name_leb l))
            (listed ∙ (λ i. keep (λ s. group_of-belongs g s h i) schematics)),
        known ∙ (λ i. any (λ s. group_of-belongs g s h i) schematics),
      )

  -- The list page has first a section of the raw materials, if there are any, sorted by name: the types
  -- that are an input of a schematic and the output of none. It has a section for each tier, in their
  -- order, and one for the rest, but none without schematics; and a section lists exactly the schematics
  -- whose output is of its tier's group, or for the rest of none of the four, sorted by name.
  pub sections-eq-belongs :
      (name_leb : Schematic → Schematic → Bool) (name_key : ℕ → String)
      (schematics : List Schematic)
      → let raw = raw_rows name_key schematics in
        (sections name_leb name_key type_docs schematics
          ≡ (if is_empty raw then [] else raw_section raw ∷ [])
            ++ map
                (λ g. tier_section g (sorted name_leb (keep (belongs g) schematics)))
                (keep (λ g. any (belongs g) schematics) (tier_order ++ other_group_id ∷ [])))
        × (ascending (λ a b. str_leb (name_key a) (name_key b)) raw ≡ true)
        × ((t : ℕ) → member t raw ≡ (is_input t schematics && not (is_output t schematics)))
  unfolding sections get member
  sections-eq-belongs name_leb name_key schematics =
      let raw = raw_rows name_key schematics in
      let agree = section-belongs name_leb schematics in
      (
        ap (λ l. (if is_empty raw then [] else raw_section raw ∷ []) ++ l)
            (map-keep _ _ _ _ (tier_order ++ other_group_id ∷ []) (
              (
                agree 1042 refl,
                (agree 1034 refl, (agree 1040 refl, (agree 1041 refl, (agree 0 refl, tt)))),
              ))),
        unfold raw_rows in
            ascending-sorted _ (λ a b. str_leb_total (name_key a) (name_key b))
              (frozenset (raw_material_type_ids schematics)),
        λ t. member-raw_rows name_key t schematics,
      )
