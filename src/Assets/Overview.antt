-- ===== src/Assets/Overview.antt =====
-- The overview of the assets is always shown, with the quantities that the pages of the types show.
use aobp.Prelude.{
  ℕ, ◌+◌, ◌≡◌, refl, sym, ap, ◌∙◌, String, Bool, true, false, ◌&&◌, some, List, [], ◌∷◌, map, arith,
  nat_eq, if◌then◌else◌, ◌==◌, length, All, inl, inr, Bool-cases, Option-cases, string_eq,
}
use aobp.Result.{Result, ok}
use aobp.Text.{sorted}
use aobp.Dict.{Dict, get, has}
use aobp.Dict.Amounts.{total}
use aobp.Cache.{is_empty}
use aobp.Locations.{LocationInfo}
use aobp.Assets.{Asset, TypeDoc, categories, name_of, unit_volume}
use aobp.Assets.Categories.{
  CategoryRow, OverviewPage, Groups, rows_of, belongs_to, category_rows, sections_of, list_assets,
  overview_page,
}
use aobp.Assets.Quantities.{owned, total-sorted}
use aobp.Assets.Grouping.{
  Placed, resolve_each-Resolves, group_assets-Grouped, no_groups-Paired, listed,
}

-- The type and the quantity of a row.
abbrev pub category_line : {F : Type 0} → CategoryRow F → ℕ × ℕ
category_line r = (r.type_id, r.quantity)

no_rows :
    {F : Type 0} (t : ℕ) (rows : List (CategoryRow F))
    → is_empty rows ≡ true
    → total t (map category_line rows) ≡ 0
unfolding total is_empty
no_rows t [] h = refl
no_rows t (row ∷ rows) h = absurd (cc)

module _ {F : Type 0} (zero : F) (times : F → ℕ → F) (sum : List F → F) (le : F → F → Bool)
    (compressed : String → Bool) (type_docs : List ℕ → Dict ℕ (TypeDoc F)) (unit_price : ℕ → F)
    (location_info : List ℕ → Result (Dict ℕ (LocationInfo F))) where
  record RowsFor (docs : Dict ℕ (TypeDoc F)) (g : Groups) (todo : Dict ℕ ℕ) : Type 0 where
    result : List (CategoryRow F)
    made :
        rows_of zero times sum le compressed type_docs unit_price location_info docs g todo
        ≡ ok result
    totals : (t : ℕ) → total t (map category_line result) ≡ total t todo

  rows_of-RowsFor :
      (docs : Dict ℕ (TypeDoc F)) (g : Groups) (todo : Dict ℕ ℕ)
      → All (λ e. has (e.0) g.locations_by_type ≡ true) todo
      → RowsFor docs g todo
  unfolding rows_of total
  rows_of-RowsFor docs g [] h = record { result = []; made = refl; totals = λ t. refl }
  rows_of-RowsFor docs g ((k, n) ∷ todo) h = elim (Option-cases (get k g.locations_by_type)) [
    | inl absent ↦ absurd (ground (arith, absent, h.0))
    | inr (ls, present) ↦
        let rest = rows_of-RowsFor docs g todo h.1 in
        record {
          result =
              record {
                type_id = k;
                name = name_of k (get k docs);
                quantity = n;
                volume = times (unit_volume zero (get k docs)) n;
                location_count = length ls;
                value = times (unit_price k) n;
              }
              ∷ rest.result;
          made = rw (rows_of, present, rest.made) refl;
          totals = λ t. ap (λ m. (if k == t then n else 0) + m) (rest.totals t);
        }
  ]

  -- A category's rows.
  record IsComplete (assets : List Asset) (resolved : Dict ℕ ℕ) (docs : Dict ℕ (TypeDoc F))
      (matches : TypeDoc F → Bool) : Type 0 where
    rows : List (CategoryRow F)
    made :
        category_rows zero times sum le compressed type_docs unit_price location_info assets
          resolved docs matches
        ≡ ok rows
    totals :
        (t : ℕ)
        → total t (map category_line rows)
          ≡ owned
              (λ a.
                belongs_to zero times sum le compressed type_docs unit_price location_info docs
                  matches a.type_id
                && a.type_id == t)
              assets

  category_rows-IsComplete :
      (assets : List Asset) (resolved : Dict ℕ ℕ) (docs : Dict ℕ (TypeDoc F))
      (matches : TypeDoc F → Bool)
      → Placed resolved assets
      → IsComplete assets resolved docs matches
  unfolding category_rows total
  category_rows-IsComplete assets resolved docs matches placed =
      let belongs =
        belongs_to zero times sum le compressed type_docs unit_price location_info docs matches in
      let g =
        group_assets-Grouped resolved belongs assets
          (record { quantity_by_type = []; locations_by_type = [] }) placed no_groups-Paired in
      let r = rows_of-RowsFor docs g.result g.result.quantity_by_type (listed g.result g.paired) in
      let by_volume = λ (x y : CategoryRow F). le y.volume x.volume in
      record {
        rows = sorted by_volume r.result;
        made = rw (g.made, r.made) refl;
        totals = λ t.
            total-sorted by_volume category_line t r.result ∙ r.totals t ∙ g.totals t ∙ omega arith;
      }

  abbrev in_category : Dict ℕ (TypeDoc F) → (TypeDoc F → Bool) → ℕ → Asset → Bool
  in_category docs matches t a =
      belongs_to zero times sum le compressed type_docs unit_price location_info docs matches
        a.type_id
      && a.type_id == t

  -- The sections that are shown of the categories: their rows have, for every type, the quantity of its
  -- assets if it is in the category; only a category of compressed ore is hidden, when there is none.
  pub data Shows (assets : List Asset) (docs : Dict ℕ (TypeDoc F))
      : List (String × (TypeDoc F → Bool)) → List (String × List (CategoryRow F)) → Type 0 where
    all_shown : Shows assets docs [] []
    shown :
        {titles : List (String × (TypeDoc F → Bool))}
        {sections : List (String × List (CategoryRow F))} (title : String)
        (matches : TypeDoc F → Bool) (rows : List (CategoryRow F))
        → ((t : ℕ) → total t (map category_line rows) ≡ owned (in_category docs matches t) assets)
        → Shows assets docs titles sections
        → Shows assets docs ((title, matches) ∷ titles) ((title, rows) ∷ sections)
    hidden :
        {titles : List (String × (TypeDoc F → Bool))}
        {sections : List (String × List (CategoryRow F))} (title : String)
        (matches : TypeDoc F → Bool)
        → (title == "Compressed Ore") ≡ true
        → ((t : ℕ) → owned (in_category docs matches t) assets ≡ 0)
        → Shows assets docs titles sections
        → Shows assets docs ((title, matches) ∷ titles) sections

  abbrev sections_for :
      List Asset
      → Dict ℕ ℕ
      → Dict ℕ (TypeDoc F)
      → List (String × (TypeDoc F → Bool))
      → Result (List (String × List (CategoryRow F)))
  sections_for = sections_of zero times sum le compressed type_docs unit_price location_info

  sections_of-Shows :
      (assets : List Asset) (resolved : Dict ℕ ℕ) (docs : Dict ℕ (TypeDoc F))
      (titles : List (String × (TypeDoc F → Bool)))
      → Placed resolved assets
      → (sections : List (String × List (CategoryRow F))) × (sections_for assets resolved docs
            titles
          ≡ ok sections)
        × Shows assets docs titles sections
  unfolding sections_of
  sections_of-Shows assets resolved docs [] placed = ([], refl, all_shown)
  sections_of-Shows assets resolved docs ((title, matches) ∷ titles) placed =
      let c = category_rows-IsComplete assets resolved docs matches placed in
      let (rest, made, shows) = sections_of-Shows assets resolved docs titles placed in
      elim (Bool-cases (is_empty c.rows && title == "Compressed Ore")) [
        | inr displayed ↦ (
          (title, c.rows) ∷ rest,
          rw (c.made, made, displayed) refl,
          shown title matches c.rows c.totals shows,
        )
        | inl left ↦ (
          rest,
          rw (c.made, made, left) refl,
          hidden title matches (ground (arith, left))
              (λ t. sym (c.totals t) ∙ no_rows t c.rows (ground (arith, left))) shows,
        )
      ]

  -- The overview of a character with assets is always shown: no lookup of a place or of a type's places
  -- misses its key. For every type, the row of its category has the sum of the quantities of its
  -- assets; a type without a document, or outside the category, has no quantity there.
  pub list_assets-Shows :
      (assets : List Asset)
      → is_empty assets ≡ false
      → (page : OverviewPage F) × (list_assets zero times sum le compressed type_docs unit_price
            location_info assets
          ≡ ok (some page))
        × Shows assets (type_docs (map Asset.type_id assets)) (categories compressed) page.sections
  unfolding list_assets
  list_assets-Shows assets filled =
      let places = resolve_each-Resolves assets assets [] in
      let (sections, made, shows) =
        sections_of-Shows assets places.result (type_docs (map Asset.type_id assets))
          (categories compressed) places.placed in
      (
        overview_page zero times sum le compressed type_docs unit_price location_info assets
            places.result (type_docs (map Asset.type_id assets)) sections,
        rw (filled, places.made, made) refl,
        unfold overview_page in shows,
      )
