-- ===== src/MarketPrices/Tests.antt =====
-- Two prices from ESI that arrive in the other order, and the theorem on the refresh applied to them.
use mathlib.Core.List.{Permᴰ}
use aobp.Prelude.{
  ℕ, ◌≡◌, refl, Option, none, some, List, [], ◌∷◌, if◌then◌else◌, nat_eq, string_eq, ◌==◌, member,
  any, is_some, not,
}
use aobp.Result.{is_ok, ok, raise, Error, transport_error, http_exception}
use aobp.Dict.{Dict, get, put}
use aobp.Dict.Distinct.{distinct}
use aobp.MarketPrices.{
  MarketPriceEntry, PriceDoc, upsert_prices, refresh_market_prices, list_market_prices,
  price_by_type_id, is_ascii, unit_price, get_price, get_market_price, refresh_prices,
}
use aobp.MarketPrices.Refresh.{by_type, refreshed, refresh_market_prices-price_by_type_id}

abbrev entry : ℕ → ℕ → MarketPriceEntry ℕ
entry type_id price = record { type_id = type_id; adjusted_price = 0; average_price = price }

abbrev esi_entries : List (MarketPriceEntry ℕ)
esi_entries = entry 34 5 ∷ entry 35 11 ∷ []

-- The two updates overtake one another.
abbrev swapped : List (MarketPriceEntry ℕ) → List (MarketPriceEntry ℕ)
swapped (a ∷ b ∷ rest) = b ∷ a ∷ rest
swapped other = other

abbrev one_refused : ℕ → Option Error
one_refused t = if t == 35 then some transport_error else none

abbrev old_prices : Dict ℕ (PriceDoc ℕ)
old_prices = (36, record { adjusted_price = 1; average_price = 2; updated_at = 0 }) ∷ []

upserts_run : upsert_prices one_refused 7 (swapped esi_entries) old_prices ≡ (
  raise transport_error,
  (36, record { adjusted_price = 1; average_price = 2; updated_at = 0 })
      ∷ (34, record { adjusted_price = 0; average_price = 5; updated_at = 7 })
      ∷ [],
)
unfolding upsert_prices put
upserts_run = refl

-- A key that is not set lets nobody in, an empty header included.
no_key_refuses :
    refresh_prices "" (some "") one_refused swapped 7 (ok esi_entries) old_prices
    ≡ (raise (http_exception 401), old_prices)
unfolding refresh_prices
no_key_refuses = refl

wrong_key_refuses :
    refresh_prices "key" (some "kez") one_refused swapped 7 (ok esi_entries) old_prices
    ≡ (raise (http_exception 401), old_prices)
unfolding refresh_prices is_ascii
wrong_key_refuses = refl

missing_price : get_price 34 old_prices ≡ raise (http_exception 404)
unfolding get_price get_market_price get
missing_price = refl

-- Without ids every price is listed.
all_listed : list_market_prices (some []) old_prices ≡ old_prices
unfolding list_market_prices
all_listed = refl

unit_price_runs : unit_price (λ p. p) 0 (get 36 old_prices) ≡ 2
unfolding unit_price get
unit_price_runs = refl

abbrev tritanium : ℕ
tritanium = 34

refresh_market_prices-price_by_type_id_example :
    let (answer, db') = refresh_market_prices one_refused swapped 7 (ok esi_entries) old_prices in
    (get tritanium (price_by_type_id (34 ∷ 36 ∷ []) db')
      ≡ refreshed one_refused 7 esi_entries old_prices tritanium)
    × (is_ok answer
        ≡ not (any (λ entry. is_some (one_refused entry.type_id)) (swapped esi_entries)))
refresh_market_prices-price_by_type_id_example =
    refresh_market_prices-price_by_type_id one_refused swapped 7 esi_entries old_prices tritanium
      (34 ∷ 36 ∷ []) (Permᴰ.swap refl refl) (unfold distinct by_type get in refl)
      (unfold distinct get in refl) (unfold member in refl)
