-- ===== src/Migrations/Schematics/Imported.antt =====
-- What the import of the schematics leaves, whatever the collection held before.
use mathlib.Core.List.{append-nil, append_assoc}
use aobp.Prelude.{
  ℕ, ◌≡◌, refl, sym, ap, ◌∙◌, true, ◌&&◌, not, Option, none, some, List, [], ◌∷◌, ◌++◌, map, arith,
  nat_eq, nat_beq_iff, ◌==◌, keep, if◌then◌else◌, get_or, inl, inr, Bool-cases, Option-cases,
}
use aobp.Result.{ok}
use aobp.Dict.{Dict, get, put, get-put}
use aobp.Dict.Distinct.{distinct}
use aobp.Migrations.Schematics.{
  Entry, TypeMapRow, SchematicRow, SchematicDoc, read_type_map, schematic_docs, build_schematics,
  schematics_batch_size,
}
use aobp.Migrations.Schematics.Batches.{replace_all-eq}

-- The rows of the type map of a schematic: its inputs in their order, and the last of its outputs.
unfoldable pub inputs_of : ℕ → List TypeMapRow → List Entry
inputs_of id rows =
    map TypeMapRow.entry (keep (λ r. r.is_input && TypeMapRow.schematic_id r == id) rows)

unfoldable pub last_output : ℕ → List TypeMapRow → Option Entry
last_output id [] = none
last_output id (row ∷ rows) = elim (last_output id rows) [
  | some later ↦ some later
  | none ↦ if not row.is_input && row.schematic_id == id then some row.entry else none
]

read_type_map-inputs :
    (rows : List TypeMapRow) (inputs : Dict ℕ (List Entry)) (outputs : Dict ℕ Entry) (id : ℕ)
    → get_or (get id (read_type_map rows inputs outputs).0) []
      ≡ get_or (get id inputs) [] ++ inputs_of id rows
unfolding read_type_map inputs_of keep
read_type_map-inputs [] inputs outputs id = sym (append-nil (get_or (get id inputs) []))
read_type_map-inputs (row ∷ rows) inputs outputs id =
    let k = row.schematic_id in
    let before = get_or (get k inputs) [] in
    let after = before ++ row.entry ∷ [] in
    elim (Bool-cases row.is_input) [
      | inr output ↦ rw output (read_type_map-inputs rows inputs (put k row.entry outputs) id)
      | inl input ↦ elim (Bool-cases (k == id)) [
        | inl same ↦ ground (
          arith,
          input,
          same,
          read_type_map-inputs rows (put k after inputs) outputs id,
          get-put k id after inputs,
          append_assoc before (row.entry ∷ []) (inputs_of id rows),
          ap (λ j. get_or (get j inputs) []) ((nat_beq_iff k id).0 same),
        )
        | inr other ↦ ground (
          arith,
          input,
          other,
          read_type_map-inputs rows (put k after inputs) outputs id,
          get-put k id after inputs,
        )
      ]
    ]

read_type_map-outputs :
    (rows : List TypeMapRow) (inputs : Dict ℕ (List Entry)) (outputs : Dict ℕ Entry) (id : ℕ)
    → get id (read_type_map rows inputs outputs).1
      ≡ (elim (last_output id rows) [ some later ↦ some later | none ↦ get id outputs ])
unfolding read_type_map last_output
read_type_map-outputs [] inputs outputs id = refl
read_type_map-outputs (row ∷ rows) inputs outputs id =
    let k = row.schematic_id in
    let after = get_or (get k inputs) [] ++ row.entry ∷ [] in
    ground (
      arith,
      read_type_map-outputs rows (put k after inputs) outputs id,
      read_type_map-outputs rows inputs (put k row.entry outputs) id,
      get-put k id row.entry outputs,
      Option-cases (last_output id rows),
    )

-- The rows of the schematics under their ids.
abbrev pub by_id : List SchematicRow → Dict ℕ SchematicRow
by_id = map (λ row. (SchematicRow.schematic_id row, row))

-- What is stored of a schematic, if it has a row and an output.
unfoldable pub document_of : Option SchematicRow → Option Entry → List Entry → Option SchematicDoc
document_of none output_ inputs_ = none
document_of (some row) none inputs_ = none
document_of (some row) (some output_) inputs_ = some (record {
  name = row.schematic_name;
  cycle_time_seconds = row.cycle_time;
  output = output_;
  inputs = inputs_;
})

module _ (inputs_ : Dict ℕ (List Entry)) (outputs : Dict ℕ Entry) where
  get-schematic_docs :
      (rows : List SchematicRow) (id : ℕ)
      → distinct (by_id rows) ≡ true
      → get id (schematic_docs inputs_ outputs rows)
        ≡ document_of (get id (by_id rows)) (get id outputs) (get_or (get id inputs_) [])
  unfolding schematic_docs get distinct document_of
  get-schematic_docs [] id h = refl
  get-schematic_docs (row ∷ rows) id h =
      let k = row.schematic_id in
      elim (Bool-cases (k == id)) [
        | inr other ↦ elim (Option-cases (get k outputs)) [
          | inl absent ↦ ground (arith, other, absent, get-schematic_docs rows id, h)
          | inr (o, present) ↦ ground (arith, other, present, get-schematic_docs rows id, h)
        ]
        | inl same ↦
            let e = (nat_beq_iff k id).0 same in
            let output = ap (λ j. get j outputs) e in
            let inputs = ap (λ j. get j inputs_) e in
            elim (Option-cases (get k outputs)) [
              | inl absent ↦ ground (
                arith,
                same,
                absent,
                output,
                get-schematic_docs rows id,
                h,
                ap (λ j. get j (by_id rows)) e,
              )
              | inr (o, present) ↦ ground (arith, same, present, output, inputs)
            ]
      ]

  distinct-schematic_docs :
      (rows : List SchematicRow)
      → distinct (by_id rows) ≡ true
      → distinct (schematic_docs inputs_ outputs rows) ≡ true
  unfolding schematic_docs distinct document_of
  distinct-schematic_docs [] h = refl
  distinct-schematic_docs (row ∷ rows) h =
      let k = row.schematic_id in
      elim (Option-cases (get k outputs)) [
        | inl absent ↦ ground (arith, absent, distinct-schematic_docs rows, h)
        | inr (o, present) ↦
            ground (arith, present, distinct-schematic_docs rows, get-schematic_docs rows k, h)
      ]

-- For schematics with different ids, the import ends well, whatever the collection held before. Then it
-- holds a document of a schematic exactly if the type map has an output of it, with the schematic's
-- name and time, the last of its outputs, and all of its inputs, in their order.
pub build_schematics-Imported :
    (type_map_rows : List TypeMapRow) (schematic_rows : List SchematicRow)
    (collection : Dict ℕ SchematicDoc) (id : ℕ)
    → distinct (by_id schematic_rows) ≡ true
    → let (answer, collection') = build_schematics type_map_rows schematic_rows collection in
      (answer ≡ ok tt)
      × (get id collection'
          ≡ document_of
              (get id (by_id schematic_rows))
              (last_output id type_map_rows)
              (inputs_of id type_map_rows))
unfolding build_schematics get
build_schematics-Imported type_map_rows schematic_rows collection id h =
    let (inputs, outputs) = read_type_map type_map_rows [] [] in
    let whole =
      replace_all-eq schematics_batch_size (schematic_docs inputs outputs schematic_rows) collection
        (omega arith) (distinct-schematic_docs inputs outputs schematic_rows h) in
    let output : get id outputs ≡ last_output id type_map_rows = ground (
      arith,
      read_type_map-outputs type_map_rows [] [] id,
      Option-cases (last_output id type_map_rows),
    ) in
    let found = get id (by_id schematic_rows) in
    (
      ap (λ a. a.0) whole,
      ap (λ a. get id a.1) whole
          ∙ get-schematic_docs inputs outputs schematic_rows id h
          ∙ ap (document_of found (get id outputs)) (read_type_map-inputs type_map_rows [] [] id)
          ∙ ap (λ o. document_of found o (inputs_of id type_map_rows)) output,
    )
