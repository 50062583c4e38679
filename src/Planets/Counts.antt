-- ===== src/Planets/Counts.antt =====
-- The counts of extractors, factories and storage, on the list page and on the page of a colony.
use aobp.Prelude.{
  ℕ, suc, ◌+◌, ◌≤◌, ◌≡◌, refl, String, Bool, true, ◌&&◌, not, none, some, List, [], ◌∷◌, ◌++◌,
  arith, if◌then◌else◌, nat_eq, get_or, is_some, length, length-append, keep, All, inl, inr,
  Option-cases,
}
use aobp.Dict.{Dict, get, put}
use aobp.Cache.{is_empty}
use aobp.Planets.{
  Schematic, Pin, Colony, known_schematic, has_details, extractor_count, factory_count,
  storage_count,
}
use aobp.Planets.Detail.{Sections, add_pin, add_pins, no_sections, card_count, colony_page}

-- One pin as a number of the three counts of the page of a colony.
abbrev pub counts : Sections → ℕ × ℕ × ℕ
counts s = (length s.extractor_cards, card_count s.factory_cards_by_type, length s.storage_cards)

-- The list page's counts of a colony.
abbrev pub listed : List Pin → ℕ × ℕ × ℕ
listed pins = (extractor_count pins, factory_count pins, storage_count pins)

-- A pin on which both pages agree: its extractor's details are not an empty object, and the schematic
-- of a factory is known.
unfoldable pub is_regular : Dict ℕ Schematic → Pin → Bool
is_regular schematics pin = elim pin.extractor_details [
  | some details ↦ not (is_empty details)
  | none ↦ if is_some pin.schematic_id then is_some (known_schematic schematics pin) else true
]

card_count-put :
    (k : ℕ) (pin : Pin) (groups : Dict ℕ (List Pin))
    → card_count (put k (get_or (get k groups) [] ++ pin ∷ []) groups) ≡ suc (card_count groups)
unfolding card_count put get
card_count-put k pin [] = refl
card_count-put k pin ((j, cards) ∷ groups) =
    ground (arith, card_count-put k pin groups, length-append cards (pin ∷ []))

module _ (schematics : Dict ℕ Schematic) where
  -- The three sections together.
  abbrev cards : Sections → ℕ
  cards s = length s.extractor_cards + card_count s.factory_cards_by_type + length s.storage_cards

  cards-add_pin : (pin : Pin) (s : Sections) → cards (add_pin schematics pin s) ≡ suc (cards s)
  unfolding add_pin
  cards-add_pin pin s = elim (Option-cases pin.extractor_details) [
    | inr (details, present) ↦ ground (arith, present, length-append s.extractor_cards (pin ∷ []))
    | inl absent ↦ elim (Option-cases (known_schematic schematics pin)) [
      | inl nothing ↦ ground (arith, absent, nothing, length-append s.storage_cards (pin ∷ []))
      | inr (schematic, known) ↦
          ground (arith, absent, known, card_count-put pin.type_id pin s.factory_cards_by_type)
    ]
  ]

  cards-add_pins :
      (pins : List Pin) (s : Sections) → cards (add_pins schematics pins s) ≡ cards s + length pins
  unfolding add_pins
  cards-add_pins [] s = omega arith
  cards-add_pins (pin ∷ pins) s =
      omega (arith, cards-add_pins pins (add_pin schematics pin s), cards-add_pin pin s)

  -- A regular pin is counted in the same place by both pages.
  regular-add_pin :
      (pin : Pin) (s : Sections)
      → is_regular schematics pin ≡ true
      → let after = add_pin schematics pin s in
        (length after.extractor_cards
          ≡ length s.extractor_cards + (if has_details pin then 1 else 0))
        × (card_count after.factory_cards_by_type
            ≡ card_count s.factory_cards_by_type
              + (if is_some pin.schematic_id && not (has_details pin) then 1 else 0))
  unfolding add_pin is_regular has_details known_schematic
  regular-add_pin pin s h = elim (Option-cases pin.extractor_details) [
    | inr (details, present) ↦
        let added = length-append s.extractor_cards (pin ∷ []) in
        (ground (arith, present, added), ground (arith, present, added))
    | inl absent ↦ elim (Option-cases (known_schematic schematics pin)) [
      | inl nothing ↦ (ground (arith, absent, nothing), ground (arith, absent, nothing))
      | inr (schematic, known) ↦
          let added = card_count-put pin.type_id pin s.factory_cards_by_type in
          (ground (arith, absent, known, added), ground (arith, absent, known, added))
    ]
  ]

  regular-add_pins :
      (pins : List Pin) (s : Sections)
      → All (λ pin. is_regular schematics pin ≡ true) pins
      → let after = add_pins schematics pins s in
        (length after.extractor_cards ≡ length s.extractor_cards + extractor_count pins)
        × (card_count after.factory_cards_by_type
            ≡ card_count s.factory_cards_by_type + factory_count pins)
  unfolding add_pins extractor_count factory_count keep
  regular-add_pins [] s h = (omega arith, omega arith)
  regular-add_pins (pin ∷ pins) s h =
      let (here, here') = regular-add_pin pin s h.0 in
      let (rest, rest') = regular-add_pins pins (add_pin schematics pin s) h.1 in
      (ground (arith, here, rest), ground (arith, here', rest'))

  counted : (pins : List Pin) → extractor_count pins + factory_count pins ≤ length pins
  unfolding extractor_count factory_count keep
  counted [] = omega arith
  counted (pin ∷ pins) = ground (arith, counted pins)

  -- Where no extractor's details are an empty object and every factory's schematic is known, the list
  -- page and the page of a colony show the same three counts, and these make up all of its pins.
  pub colony_page-counts :
      (type_name : ℕ → String) (lower : String → String) (now : ℕ) (colony : Colony)
      → All (λ pin. is_regular schematics pin ≡ true) colony.pins
      → let page = counts (colony_page type_name lower schematics now colony).sections in
        (page ≡ listed colony.pins) × (page.0 + page.1 + page.2 ≡ length colony.pins)
  unfolding colony_page storage_count card_count
  colony_page-counts type_name lower now colony regular =
      let all = cards-add_pins colony.pins no_sections in
      let (extractors, factories) = regular-add_pins colony.pins no_sections regular in
      (ground (arith, all, extractors, factories, counted colony.pins), omega (arith, all))
