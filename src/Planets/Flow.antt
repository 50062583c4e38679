-- ===== src/Planets/Flow.antt =====
-- What the page of a colony says of its imports and exports, against the sums over its pins.
use aobp.Prelude.{
  ℕ, ◌+◌, ◌≡◌, refl, ap, ◌∙◌, String, Bool, false, ◌&&◌, not, none, some, List, [], ◌∷◌, arith,
  if◌then◌else◌, nat_eq, string_eq, nat_beq_iff, ◌==◌, get_or, member, keep, ltb, inl, inr,
  Option-cases,
}
use aobp.Text.{str_leb}
use aobp.Text.Sorting.{member-sorted}
use aobp.Dict.{Dict, get, keys, get-put, member-keys}
use aobp.Planets.{Line, Schematic, Pin, Colony, known_schematic}
use aobp.Planets.Detail.{
  ResourceFlow, Direction, inward, outward, add_direction, no_flow, add_flow, add_inputs, Sections,
  add_extraction, add_pin, add_pins, no_sections, is_import, is_export, resource_names, select_flow,
  colony_page,
}

-- The quantity of a type in a list of lines.
unfoldable pub line_total : ℕ → List Line → ℕ
line_total t [] = 0
line_total t (line ∷ lines) = (if line.type_id == t then line.quantity else 0) + line_total t lines

-- What a pin consumes of a type in a cycle: a factory with a known schematic takes its inputs.
unfoldable pub consumes : Dict ℕ Schematic → ℕ → Pin → ℕ
consumes schematics t pin = elim pin.extractor_details [
  | some details ↦ 0
  | none ↦ elim (known_schematic schematics pin) [
    | none ↦ 0
    | some schematic ↦ line_total t (Schematic.inputs schematic)
  ]
]

-- What a pin makes of a type in a cycle: an extractor its product, a factory its output.
unfoldable pub makes : Dict ℕ Schematic → ℕ → Pin → ℕ
makes schematics t pin = elim pin.extractor_details [
  | some details ↦ elim (get "product_type_id" details) [
    | none ↦ 0
    | some k ↦ if k == t then get_or (get "qty_per_cycle" details) 0 else 0
  ]
  | none ↦ elim (known_schematic schematics pin) [
    | none ↦ 0
    | some schematic ↦ line_total t (Schematic.output schematic ∷ [])
  ]
]

unfoldable pub pin_sum : (Pin → ℕ) → List Pin → ℕ
pin_sum amount [] = 0
pin_sum amount (pin ∷ pins) = amount pin + pin_sum amount pins

abbrev pub entry : ℕ → Dict ℕ ResourceFlow → ResourceFlow
entry t flow = get_or (get t flow) no_flow

entry-add_flow :
    (t k : ℕ) (direction : Direction) (q : ℕ) (flow : Dict ℕ ResourceFlow)
    → entry t (add_flow k direction q flow)
      ≡ (if k == t then add_direction direction q (entry t flow) else entry t flow)
unfolding add_flow
entry-add_flow t k direction q flow = ground (
  arith,
  get-put k t (add_direction direction q (entry k flow)) flow,
  nat_beq_iff k t,
  ap (λ j. entry j flow) {x = k} {y = t},
)

entry-add_inputs :
    (t : ℕ) (lines : List Line) (flow : Dict ℕ ResourceFlow)
    → ((entry t (add_inputs lines flow)).into ≡ (entry t flow).into + line_total t lines)
      × ((entry t (add_inputs lines flow)).out ≡ (entry t flow).out)
unfolding add_inputs line_total add_direction
entry-add_inputs t [] flow = (omega arith, refl)
entry-add_inputs t (line ∷ lines) flow =
    let (taken, kept) =
      entry-add_inputs t lines (add_flow line.type_id inward line.quantity flow) in
    let step = entry-add_flow t line.type_id inward line.quantity flow in
    (ground (arith, taken, step), ground (arith, kept, step))

module _ (schematics : Dict ℕ Schematic) (t : ℕ) where
  entry-add_pin :
      (pin : Pin) (s : Sections)
      → let after = entry t (add_pin schematics pin s).resource_flow in
        (after.into ≡ (entry t s.resource_flow).into + consumes schematics t pin)
        × (after.out ≡ (entry t s.resource_flow).out + makes schematics t pin)
  unfolding add_pin consumes makes add_extraction line_total add_direction
  entry-add_pin pin s = elim (Option-cases pin.extractor_details) [
    | inr (details, present) ↦ elim (Option-cases (get "product_type_id" details)) [
      | inl nothing ↦ (ground (arith, present, nothing), ground (arith, present, nothing))
      | inr (k, product) ↦
          let step =
            entry-add_flow t k outward (get_or (get "qty_per_cycle" details) 0) s.resource_flow in
          (ground (arith, present, product, step), ground (arith, present, product, step))
    ]
    | inl absent ↦ elim (Option-cases (known_schematic schematics pin)) [
      | inl nothing ↦ (ground (arith, absent, nothing), ground (arith, absent, nothing))
      | inr (schematic, known) ↦
          let (taken, kept) = entry-add_inputs t schematic.inputs s.resource_flow in
          let step =
            entry-add_flow t schematic.output.type_id outward schematic.output.quantity
              (add_inputs schematic.inputs s.resource_flow) in
          (
            ground (arith, absent, known, taken, kept, step),
            ground (arith, absent, known, taken, kept, step),
          )
    ]
  ]

  entry-add_pins :
      (pins : List Pin) (s : Sections)
      → let after = entry t (add_pins schematics pins s).resource_flow in
        (after.into ≡ (entry t s.resource_flow).into + pin_sum (consumes schematics t) pins)
        × (after.out ≡ (entry t s.resource_flow).out + pin_sum (makes schematics t) pins)
  unfolding add_pins pin_sum
  entry-add_pins [] s = (omega arith, omega arith)
  entry-add_pins (pin ∷ pins) s =
      let (first_in, first_out) = entry-add_pin pin s in
      let (rest_in, rest_out) = entry-add_pins pins (add_pin schematics pin s) in
      (omega (arith, first_in, rest_in), omega (arith, first_out, rest_out))

member-keep :
    (t : ℕ) (test : ℕ → Bool) (xs : List ℕ) → member t (keep test xs) ≡ (member t xs && test t)
unfolding member keep
member-keep t test [] = refl
member-keep t test (x ∷ xs) =
    ground (arith, member-keep t test xs, nat_beq_iff x t, ap test {x = x} {y = t})

module _ (type_name : ℕ → String) (lower : String → String) where
  member-select_flow :
      (wanted : ResourceFlow → Bool) (flow : Dict ℕ ResourceFlow) (t : ℕ)
      → wanted no_flow ≡ false
      → member t (select_flow type_name lower wanted flow) ≡ wanted (entry t flow)
  unfolding select_flow resource_names
  member-select_flow wanted flow t h =
      let test : ℕ → Bool = λ j. wanted (entry j flow) in
      let listed =
        member-sorted (λ (a b : ℕ). str_leb (lower (type_name a)) (lower (type_name b))) t
          (keys flow)
        ∙ member-keys t flow in
      let kept = member-keep t test (resource_names type_name lower flow) in
      elim (Option-cases (get t flow)) [
        | inl absent ↦ ground (arith, kept, listed, absent, h)
        | inr (f, present) ↦ ground (arith, kept, listed, present)
      ]

  -- The page of a colony lists a type as an import exactly if the colony's pins together consume some of
  -- it in a cycle and make none, and as an export exactly if they make some and consume none: an
  -- intermediate product is in neither list.
  pub colony_page-flows :
      (schematics : Dict ℕ Schematic) (now : ℕ) (colony : Colony) (t : ℕ)
      → let page = colony_page type_name lower schematics now colony in
        let consumed = pin_sum (consumes schematics t) colony.pins in
        let made = pin_sum (makes schematics t) colony.pins in
        (member t page.import_type_ids ≡ (ltb 0 consumed && not (ltb 0 made)))
        × (member t page.export_type_ids ≡ (ltb 0 made && not (ltb 0 consumed)))
  unfolding colony_page is_import is_export get
  colony_page-flows schematics now colony t =
      let flow = (add_pins schematics colony.pins no_sections).resource_flow in
      let (taken, given) = entry-add_pins schematics t colony.pins no_sections in
      (
        member-select_flow is_import flow t refl ∙ ground (arith, taken, given),
        member-select_flow is_export flow t refl ∙ ground (arith, taken, given),
      )
