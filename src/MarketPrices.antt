-- ===== src/MarketPrices.antt =====
-- app/services/market_prices.py and app/routes/market_prices.py: the collection of average prices, its
-- refresh from ESI, and what the pages read of it. A stored price is a value of its own type `P`, and
-- the floats, with the operations that the pages use, are a parameter.
pub mod Refresh
mod Tests
use Prim.Native.Char.{code}
use Prim.Native.String.{String}
use aobp.Prelude.{
  ℕ, Bool, true, false, ◌&&◌, ltb, not, Option, none, some, List, [], ◌∷◌, map, if◌then◌else◌,
  nat_eq, string_eq, ◌==◌, get_or, member, length, keep,
}
use aobp.Result.{Result, ok, raise, Error, http_exception, type_error, ◌>>=◌}
use aobp.Dict.{Dict, get, put, update}

unfoldable pub is_ascii : String → Bool
is_ascii String.[] = true
is_ascii (String.◌∷◌ c s) = ltb (code c) 128 && is_ascii s

-- An `esi.MarketPriceEntry`.
pub record MarketPriceEntry (P : Type 0) : Type 0 where
  pub type_id : ℕ
  pub adjusted_price : P
  pub average_price : P

-- A document of `market_prices`; its `_id` is its key in the collection.
pub record PriceDoc (P : Type 0) : Type 0 where
  pub adjusted_price : P
  pub average_price : P
  pub updated_at : ℕ

module _ {P : Type 0} where
  abbrev pub price_doc : ℕ → MarketPriceEntry P → PriceDoc P
  price_doc now entry = record {
    adjusted_price = entry.adjusted_price;
    average_price = entry.average_price;
    updated_at = now;
  }

  -- `_upsert_price` for each entry. `refused` says which updates fail. The answer is what `asyncio.gather`
  -- returns or raises: the first error, at the moment of that failure. The collection is the one when
  -- all updates have ended: `gather` cancels none of them, so that those still in flight run on.
  unfoldable pub upsert_prices :
      (ℕ → Option Error)
      → ℕ
      → List (MarketPriceEntry P)
      → Dict ℕ (PriceDoc P)
      → Result (Unit {0}) × Dict ℕ (PriceDoc P)
  upsert_prices refused now [] db = (ok tt, db)
  upsert_prices refused now (entry ∷ entries) db = elim (refused entry.type_id) [
    | none ↦ upsert_prices refused now entries (put entry.type_id (price_doc now entry) db)
    | some e ↦ let (_, db') = upsert_prices refused now entries db in (raise e, db')
  ]

  -- `refresh_market_prices`. The coroutines that `asyncio.gather` starts reach MongoDB in the order
  -- `arrival` of the entries.
  unfoldable pub refresh_market_prices :
      (ℕ → Option Error)
      → (List (MarketPriceEntry P) → List (MarketPriceEntry P))
      → ℕ
      → Result (List (MarketPriceEntry P))
      → Dict ℕ (PriceDoc P)
      → Result ℕ × Dict ℕ (PriceDoc P)
  refresh_market_prices refused arrival now (raise e) db = (raise e, db)
  refresh_market_prices refused arrival now (ok entries) db =
      let (done, db') = upsert_prices refused now (arrival entries) db in
      (done >>= (λ _. ok (length entries)), db')

  -- `list_market_prices`: no ids, or an empty set of them, ask for every document.
  unfoldable pub list_market_prices : Option (List ℕ) → Dict ℕ (PriceDoc P) → Dict ℕ (PriceDoc P)
  list_market_prices none db = db
  list_market_prices (some []) db = db
  list_market_prices (some (type_id ∷ type_ids)) db =
      keep (λ doc. member doc.0 (type_id ∷ type_ids)) db

  unfoldable pub get_market_price : ℕ → Dict ℕ (PriceDoc P) → Option (PriceDoc P)
  get_market_price type_id db = get type_id db

  -- `{p["_id"]: p for p in prices}`, as the pages keep what they have read.
  unfoldable pub price_by_type_id : List ℕ → Dict ℕ (PriceDoc P) → Dict ℕ (PriceDoc P)
  price_by_type_id type_ids db = update [] (list_market_prices (some type_ids) db)

  -- `unit_price`; `float` is Python's `float(price or 0.0)`, and `zero` is `0.0`.
  unfoldable pub unit_price : {F : Type 0} → (P → F) → F → Option (PriceDoc P) → F
  unit_price float zero none = zero
  unit_price float zero (some doc) = float doc.average_price

  -- `get_price` of the route
  unfoldable pub get_price : ℕ → Dict ℕ (PriceDoc P) → Result (PriceDoc P)
  get_price type_id db = elim (get_market_price type_id db) [
    | none ↦ raise (http_exception 404)
    | some price ↦ ok price
  ]

  -- `refresh_prices` of the route; `compare_digest` refuses text that is not ASCII. With the settings' key and the header's.
  unfoldable pub refresh_prices :
      String
      → Option String
      → (ℕ → Option Error)
      → (List (MarketPriceEntry P) → List (MarketPriceEntry P))
      → ℕ
      → Result (List (MarketPriceEntry P))
      → Dict ℕ (PriceDoc P)
      → Result ℕ × Dict ℕ (PriceDoc P)
  refresh_prices api_key x_api_key refused arrival now answer db =
      if api_key == ""
      then (raise (http_exception 401), db)
      else if not (is_ascii (get_or x_api_key "") && is_ascii api_key)
      then (raise type_error, db)
      else if not (get_or x_api_key "" == api_key)
      then (raise (http_exception 401), db)
      else refresh_market_prices refused arrival now answer db
