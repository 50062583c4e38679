-- ===== src/Assets/Agreement.antt =====
-- The page of a type and the page of a location show the same quantities.
use aobp.Prelude.{
  ℕ, ◌+◌, ◌≡◌, refl, sym, ap, ◌∙◌, String, Bool, ◌&&◌, Option, List, [], ◌∷◌, map, arith, nat_eq,
  keep, if◌then◌else◌, ◌==◌, leb, inl, inr, Bool-cases,
}
use aobp.Result.{Result, ok, raise, http_exception, >>=-eq-ok}
use aobp.Text.{sorted}
use aobp.Dict.{Dict, get, values, keys}
use aobp.Dict.Amounts.{total}
use aobp.Cache.{is_empty}
use aobp.Locations.{LocationInfo}
use aobp.Assets.{Asset, TypeDoc, sum_of}
use aobp.Assets.Details.{
  ItemPage, LocationPage, LocationCard, TypeRow, item_detail, location_detail, location_page,
  type_row, sum_by_type,
}
use aobp.Assets.Quantities.{
  owned, owned-keep, total-sorted, total-sum_by_type, sum_of-sum_by_type, at, located_at-keep,
  sum_by_location-Sums,
}

sum_of-keep :
    (test : Asset → Bool) (assets : List Asset)
    → sum_of (map Asset.quantity (keep test assets)) ≡ owned test assets
unfolding keep owned
sum_of-keep test [] = refl
sum_of-keep test (a ∷ assets) = ground (arith, sum_of-keep test assets)

from_no_total : (l n : ℕ) → total l [] + n ≡ n
unfolding total
from_no_total l n = omega arith

from_no_sum : (n : ℕ) → sum_of (values {K = ℕ} []) + n ≡ n
unfolding values
from_no_sum n = omega arith

total-map_self : (l : ℕ) (d : Dict ℕ ℕ) → total l (map (λ e. e) d) ≡ total l d
unfolding total
total-map_self l [] = refl
total-map_self l ((k, n) ∷ d) = ap (λ m. (if k == l then n else 0) + m) (total-map_self l d)

owned_and :
    (test test' : Asset → Bool) (assets : List Asset)
    → owned (λ a. test a && test' a) assets ≡ owned (λ a. test' a && test a) assets
unfolding owned
owned_and test test' [] = refl
owned_and test test' (a ∷ assets) = ground (arith, owned_and test test' assets)

module _ {F : Type 0} where
  -- The location and the quantity of a card, and the type and the quantity of a row.
  abbrev pub card_line : LocationCard F → ℕ × ℕ
  card_line c = (c.location_id, c.quantity)

  abbrev pub row_line : TypeRow F → ℕ × ℕ
  row_line r = (r.type_id, r.quantity)

  -- What a page of a type, or of a location, says of the assets.
  pub record IsItemPage (assets : List Asset) (type_id : ℕ) (page : ItemPage F) : Type 0 where
    pub quantities :
        (l : ℕ)
        → total l (map card_line page.locations)
          ≡ owned (λ a. a.type_id == type_id && at assets a == l) assets
    pub whole : page.total_quantity ≡ owned (λ a. a.type_id == type_id) assets

  pub record IsLocationPage (assets : List Asset) (location_id : ℕ) (page : LocationPage F)
      : Type 0 where
    pub quantities :
        (t : ℕ)
        → total t (map row_line page.rows)
          ≡ owned (λ a. at assets a == location_id && a.type_id == t) assets
    pub whole : page.total_quantity ≡ owned (λ a. at assets a == location_id) assets

  item_page_of : Result (ItemPage F) → List (LocationCard F) × ℕ
  item_page_of (ok page) = (page.locations, page.total_quantity)
  item_page_of (raise e) = ([], 0)

  location_page_of : Result (LocationPage F) → List (TypeRow F) × ℕ
  location_page_of (ok page) = (page.rows, page.total_quantity)
  location_page_of (raise e) = ([], 0)

  total-map_cards :
      (info : ℕ → Option (LocationInfo F)) (l : ℕ) (d : Dict ℕ ℕ)
      → total l (
          map card_line
            (map (λ e. record { location_id = e.0; info = info e.0; quantity = e.1 }) d))
        ≡ total l d
  unfolding total
  total-map_cards info l [] = refl
  total-map_cards info l ((k, n) ∷ d) =
      ap (λ m. (if k == l then n else 0) + m) (total-map_cards info l d)

module _ {F : Type 0} (zero : F) (times : F → ℕ → F) (sum : List F → F) (le : F → F → Bool)
    (compressed : String → Bool) (type_docs : List ℕ → Dict ℕ (TypeDoc F)) (unit_price : ℕ → F)
    (location_info : List ℕ → Result (Dict ℕ (LocationInfo F))) (assets : List Asset) where
  abbrev item_page : ℕ → Result (ItemPage F)
  item_page = item_detail zero times sum le compressed type_docs unit_price location_info assets

  abbrev place_page : ℕ → Result (LocationPage F)
  place_page =
      location_detail zero times sum le compressed type_docs unit_price location_info assets

  item_detail-IsItemPage :
      (t : ℕ) (page : ItemPage F) → item_page t ≡ ok page → IsItemPage assets t page
  unfolding item_detail item_page_of
  item_detail-IsItemPage t page h =
      let matching = keep (λ a. Asset.type_id a == t) assets in
      let sums = sum_by_location-Sums assets matching [] in
      elim (Bool-cases (is_empty matching)) [
        | inl nothing ↦ absurd (
            let failed : ◌≡◌ {A = Result (ItemPage F)} (raise (http_exception 404)) (ok page) =
              rw (item_detail, nothing) at h in
            cc)
        | inr there ↦
            let opened = rw (item_detail, there, sums.made) at h in
            let (info, asked, last) = >>=-eq-ok (location_info (keys sums.result)) _ opened in
            let shown = ap item_page_of last in
            record {
              quantities = λ l.
                  sym (ap (λ z. total l (map card_line z.0)) shown)
                  ∙ total-map_cards (λ k. get k info) l (sorted (λ x y. leb y.1 x.1) sums.result)
                  ∙ sym (total-map_self l (sorted (λ x y. leb y.1 x.1) sums.result))
                  ∙ total-sorted (λ x y. leb y.1 x.1) (λ e. e) l sums.result
                  ∙ total-map_self l sums.result
                  ∙ sums.totals l
                  ∙ from_no_total l _
                  ∙ owned-keep (λ a. at assets a == l) (λ a. a.type_id == t) assets;
              whole =
                  sym (ap (λ z. z.1) shown)
                  ∙ sums.whole
                  ∙ from_no_sum _
                  ∙ sum_of-keep (λ a. a.type_id == t) assets;
            }
      ]

  total-map_rows :
      (docs : Dict ℕ (TypeDoc F)) (t : ℕ) (d : Dict ℕ ℕ)
      → total t (
          map row_line
            (map (type_row zero times sum le compressed type_docs unit_price location_info docs) d))
        ≡ total t d
  unfolding total type_row
  total-map_rows docs t [] = refl
  total-map_rows docs t ((k, n) ∷ d) =
      ap (λ m. (if k == t then n else 0) + m) (total-map_rows docs t d)

  location_detail-IsLocationPage :
      (l : ℕ) (page : LocationPage F) → place_page l ≡ ok page → IsLocationPage assets l page
  unfolding location_detail location_page location_page_of
  location_detail-IsLocationPage l page h =
      let matching = keep (λ a. at assets a == l) assets in
      let sums = sum_by_type matching [] in
      let by_volume = λ (x y : TypeRow F). le y.volume x.volume in
      let rows =
        map
          (type_row zero times sum le compressed type_docs unit_price location_info
            (type_docs (map Asset.type_id matching)))
          sums in
      let found = rw (location_detail, located_at-keep) at h in
      elim (Bool-cases (is_empty matching)) [
        | inl nothing ↦ absurd (
            let failed : ◌≡◌ {A = Result (LocationPage F)} (raise (http_exception 404)) (ok page) =
              rw (location_page, nothing) at found in
            cc)
        | inr there ↦
            let opened = rw (location_page, there) at found in
            let (info, asked, last) = >>=-eq-ok (location_info (l ∷ [])) _ opened in
            let shown = ap location_page_of last in
            record {
              quantities = λ t.
                  sym (ap (λ z. total t (map row_line z.0)) shown)
                  ∙ total-sorted by_volume row_line t rows
                  ∙ total-map_rows (type_docs (map Asset.type_id matching)) t sums
                  ∙ total-sum_by_type t matching []
                  ∙ from_no_total t _
                  ∙ owned-keep (λ a. a.type_id == t) (λ a. at assets a == l) assets;
              whole =
                  sym (ap (λ z. z.1) shown)
                  ∙ sum_of-sum_by_type matching []
                  ∙ from_no_sum _
                  ∙ sum_of-keep (λ a. at assets a == l) assets;
            }
      ]

  -- Whenever both pages are shown, what the type's page shows at the location, and what the location's page
  -- shows of the type, are both the sum of the quantities of the type's assets whose chain of containers
  -- and ships ends there; and each page's total is the sum over all assets of the type, or there.
  pub item_detail-eq-location_detail :
      (t l : ℕ) (page : ItemPage F) (page' : LocationPage F)
      → item_page t ≡ ok page
      → place_page l ≡ ok page'
      → let there = owned (λ a. a.type_id == t && at assets a == l) assets in
        (total l (map card_line page.locations) ≡ there)
        × (total t (map row_line page'.rows) ≡ there)
        × (page.total_quantity ≡ owned (λ a. a.type_id == t) assets)
        × (page'.total_quantity ≡ owned (λ a. at assets a == l) assets)
  item_detail-eq-location_detail t l page page' h h' =
      let item = item_detail-IsItemPage t page h in
      let here = location_detail-IsLocationPage l page' h' in
      (
        item.quantities l,
        here.quantities t ∙ owned_and (λ a. at assets a == l) (λ a. a.type_id == t) assets,
        item.whole,
        here.whole,
      )
