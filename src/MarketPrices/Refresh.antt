-- ===== src/MarketPrices/Refresh.antt =====
-- What a refresh leaves in the collection, in whichever order its updates arrive.
use mathlib.Core.List.{Permᴰ}
use aobp.Prelude.{
  ℕ, ◌≡◌, refl, ◌∙◌, ap, Bool, true, Option, none, some, List, [], ◌∷◌, map, arith, if◌then◌else◌,
  nat_eq, string_eq, nat_beq_iff, is_some, any, not, member, keep, inl, inr, Option-cases,
}
use aobp.Result.{is_ok, ok, Error}
use aobp.Dict.{Dict, get, put, get-put}
use mathlib.Core.List.Permᴰ
use aobp.Dict.Distinct.{distinct, get-update-nil, get-Permᴰ, distinct-put, get-keep, distinct-keep}
use aobp.MarketPrices.{
  MarketPriceEntry, PriceDoc, price_doc, upsert_prices, refresh_market_prices, list_market_prices,
  price_by_type_id,
}

module _ {P : Type 0} where
  -- The entries under their types.
  unfoldable pub by_type : List (MarketPriceEntry P) → Dict ℕ (MarketPriceEntry P)
  by_type = map (λ entry. (entry.type_id, entry))

  -- What the collection should answer for a type.
  unfoldable pub refreshed :
      (ℕ → Option Error)
      → ℕ
      → List (MarketPriceEntry P)
      → Dict ℕ (PriceDoc P)
      → ℕ
      → Option (PriceDoc P)
  refreshed refused now entries db t =
      if is_some (refused t) then get t db else elim (get t (by_type entries)) [
        | none ↦ get t db
        | some entry ↦ some (price_doc now entry)
      ]

  get-upsert_prices :
      (refused : ℕ → Option Error) (now : ℕ) (entries : List (MarketPriceEntry P))
      (db : Dict ℕ (PriceDoc P)) (t : ℕ)
      → distinct (by_type entries) ≡ true
      → get t (upsert_prices refused now entries db).1 ≡ refreshed refused now entries db t
  unfolding upsert_prices refreshed by_type distinct get
  get-upsert_prices refused now [] db t h = ground arith
  get-upsert_prices refused now (entry ∷ entries) db t h =
      elim (Option-cases (refused entry.type_id)) [
        | inl accepted ↦
            let doc = price_doc now entry in
            rw (accepted, upsert_prices)
              (ground (
                arith,
                get-upsert_prices refused now entries (put entry.type_id doc db) t,
                get-put entry.type_id t doc db,
                accepted,
                nat_beq_iff entry.type_id t,
                Option-cases (get t (by_type entries)),
              ))
        | inr (e, failed) ↦
            rw (failed, upsert_prices)
              (ground (
                arith,
                get-upsert_prices refused now entries db t,
                failed,
                nat_beq_iff entry.type_id t,
              ))
      ]

  by_type-Permᴰ :
      {entries entries' : List (MarketPriceEntry P)}
      → Permᴰ entries entries'
      → Permᴰ (by_type entries) (by_type entries')
  unfolding by_type
  by_type-Permᴰ p = Permᴰ.map (λ entry. (MarketPriceEntry.type_id entry, entry)) p

  distinct-upsert_prices :
      (refused : ℕ → Option Error) (now : ℕ) (entries : List (MarketPriceEntry P))
      (db : Dict ℕ (PriceDoc P))
      → distinct db ≡ true
      → distinct (upsert_prices refused now entries db).1 ≡ true
  unfolding upsert_prices
  distinct-upsert_prices refused now [] db h = h
  distinct-upsert_prices refused now (entry ∷ entries) db h =
      elim (Option-cases (refused entry.type_id)) [
        | inl accepted ↦
            rw (accepted, upsert_prices)
              (distinct-upsert_prices refused now entries _ (distinct-put entry.type_id _ db h))
        | inr (e, failed) ↦
            rw (failed, upsert_prices) (distinct-upsert_prices refused now entries db h)
      ]

  -- A page finds a document for the types it asks for.
  pub get-price_by_type_id :
      (type_ids : List ℕ) (db : Dict ℕ (PriceDoc P)) (t : ℕ)
      → distinct db ≡ true
      → member t type_ids ≡ true
      → get t (price_by_type_id type_ids db) ≡ get t db
  unfolding price_by_type_id list_market_prices member
  get-price_by_type_id [] db t h m = cc
  get-price_by_type_id (type_id ∷ type_ids) db t h m =
      let test : ℕ → Bool = λ j. member j (type_id ∷ type_ids) in
      get-update-nil t (keep (λ doc. test doc.0) db) (distinct-keep test db h)
      ∙ get-keep test t db
      ∙ ap (λ b. if b then get t db else none) m

  is_ok-upsert_prices :
      (refused : ℕ → Option Error) (now : ℕ) (entries : List (MarketPriceEntry P))
      (db : Dict ℕ (PriceDoc P))
      → is_ok (upsert_prices refused now entries db).0
        ≡ not (any (λ entry. is_some (refused entry.type_id)) entries)
  unfolding upsert_prices any
  is_ok-upsert_prices refused now [] db = refl
  is_ok-upsert_prices refused now (entry ∷ entries) db =
      elim (Option-cases (refused entry.type_id)) [
        | inl accepted ↦ rw (accepted, upsert_prices) (is_ok-upsert_prices refused now entries _)
        | inr (e, failed) ↦ rw (failed, upsert_prices) refl
      ]

  -- For entries of different types and a collection with one document for each type, in whichever order
  -- the updates arrive, and whichever of them MongoDB refuses: a page that asks for a type after the
  -- refresh finds the new document, if ESI listed the type and its update was not refused, and else
  -- the old document, or none. The refresh fails exactly if one of its updates was refused.
  pub refresh_market_prices-price_by_type_id :
      (refused : ℕ → Option Error) (arrival : List (MarketPriceEntry P) → List (MarketPriceEntry P))
      (now : ℕ) (entries : List (MarketPriceEntry P)) (db : Dict ℕ (PriceDoc P)) (t : ℕ)
      (type_ids : List ℕ)
      → Permᴰ entries (arrival entries)
      → distinct (by_type entries) ≡ true
      → distinct db ≡ true
      → member t type_ids ≡ true
      → let (answer, db') = refresh_market_prices refused arrival now (ok entries) db in
        (get t (price_by_type_id type_ids db') ≡ refreshed refused now entries db t)
        × (is_ok answer ≡ not (any (λ entry. is_some (refused entry.type_id)) (arrival entries)))
  unfolding refresh_market_prices refreshed
  refresh_market_prices-price_by_type_id refused arrival now entries db t type_ids p h hdb m =
      let (same, h') = get-Permᴰ (by_type-Permᴰ p) h in
      let after = (upsert_prices refused now (arrival entries) db).1 in
      (
        ground (
          arith,
          get-price_by_type_id type_ids after t
              (distinct-upsert_prices refused now (arrival entries) db hdb) m,
          get-upsert_prices refused now (arrival entries) db t h',
          same t,
        ),
        ground (arith, is_ok-upsert_prices refused now (arrival entries) db),
      )
