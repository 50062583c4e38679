-- ===== src/Esi/Fetch.antt =====
-- The endpoints of esi.py. An argument `page`, `answer` or `server` is what ESI answers to the
-- endpoint's request: by page, to the one request, or by attempt.
use aobp.Prelude.{
  ℕ, ◌*◌, ◌^◌, String, true, false, Option, none, some, List, [], if◌then◌else◌, nat_eq, string_eq,
  ◌==◌, get_or, ltb,
}
use aobp.Result.{Result, ok, raise, http_status_error, ◌>>=◌}
use aobp.Dict.{Dict, get}
use aobp.Esi.{Answer, Response, timed_get, get_all_pages, get_with_retry, RetrySettings}
use aobp.Esi.Entries.{
  Json, null, number, text, truth, each, AssetEntry, asset_entry, BlueprintEntry, blueprint_entry,
  IndustryJobEntry, industry_job_entry,
}
use aobp.Esi.Market.{
  MarketPriceEntry, market_price_entry, MarketOrderEntry, market_order_entry, ColonyEntry,
  colony_entry,
}

abbrev pub Object : Type 0
Object = Dict String Json

-- The entries of a listing in pages.
module _ (page : ℕ → Answer (List Object)) where
  unfoldable pub get_character_blueprints : Result (List BlueprintEntry)
  get_character_blueprints = do raw_entries ← get_all_pages page; each blueprint_entry raw_entries

  unfoldable pub get_character_assets : Result (List AssetEntry)
  get_character_assets = do raw_entries ← get_all_pages page; each asset_entry raw_entries

  unfoldable pub get_corporation_assets : Result (List AssetEntry)
  get_corporation_assets = do raw_entries ← get_all_pages page; each asset_entry raw_entries

  unfoldable pub get_corporation_blueprints : Result (List BlueprintEntry)
  get_corporation_blueprints = do raw_entries ← get_all_pages page; each blueprint_entry raw_entries

  unfoldable pub get_corporation_industry_jobs : Result (List IndustryJobEntry)
  get_corporation_industry_jobs = do
    raw_entries ← get_all_pages page
    each industry_job_entry raw_entries

-- The entries of one answer.
module _ (answer : Answer (List Object)) where
  unfoldable pub get_character_industry_jobs : Result (List IndustryJobEntry)
  get_character_industry_jobs = do
    response ← timed_get answer
    each industry_job_entry response.body

  unfoldable pub get_character_colonies : Result (List ColonyEntry)
  get_character_colonies = do response ← timed_get answer; each colony_entry response.body

  unfoldable pub get_market_prices : Result (List MarketPriceEntry)
  get_market_prices = do response ← timed_get answer; each market_price_entry response.body

-- `isinstance(..., str)`, `int` and a number as the test for a field of an answer. A Python `bool` is an
-- `int`; decimals stand as their text, so that a security status is kept as a JSON value.
abbrev pub as_text : Json → Option String
as_text (text s) = some s
as_text _ = none

abbrev pub as_number : Json → Option ℕ
as_number (number n) = some n
as_number (truth true) = some 1
as_number (truth false) = some 0
as_number _ = none

-- A lookup for which a status error means that there is no value.
unfoldable pub or_default {ℓ κ} :
    {A : Type ℓ} {B : Type κ} → B → (A → B) → Result (Response A) → Result B
or_default missing read (ok response) = ok (read (Response.body response))
or_default missing read (raise (http_status_error code)) = ok missing
or_default missing read (raise e) = raise e

abbrev pub name_of : Object → Option String
name_of data_ = as_text (get_or (get "name" data_) null)

unfoldable pub get_planet_name : Answer Object → Result (Option String)
get_planet_name answer = or_default none name_of (timed_get answer)

unfoldable pub get_system_name : Answer Object → Result (Option String)
get_system_name answer = or_default none name_of (timed_get answer)

unfoldable pub get_corporation_name : Answer Object → Result (Option String)
get_corporation_name answer = or_default none name_of (timed_get answer)

pub record LocationDetails : Type 0 where
  pub name : Option String
  pub system_id : Option ℕ

-- `_STATION_ID_MAX`
abbrev pub station_id_max : ℕ
station_id_max = 64 * 10 ^ 9

abbrev pub details_of : Object → LocationDetails
details_of data_ = record {
  name = name_of data_;
  system_id = as_number (get_or (get "system_id" data_) null);
}

-- Stations are public, structures are asked with the access token.
unfoldable pub get_location_details :
    (ℕ → Answer Object) → (String → ℕ → Answer Object) → String → ℕ → Result LocationDetails
get_location_details stations structures access_token location_id =
    or_default (record { name = none; system_id = none }) details_of
      (timed_get (
        if ltb location_id station_id_max
        then stations location_id
        else structures access_token location_id))

unfoldable pub get_region_ids : RetrySettings → (ℕ → ℕ) → (ℕ → Answer (List ℕ)) → Result (List ℕ)
get_region_ids settings jitter server = do
  response ← (get_with_retry settings jitter server).result
  ok response.body

-- A region without a market answers 404: no orders and no pages.
unfoldable pub get_market_orders_page :
    RetrySettings → (ℕ → ℕ) → (ℕ → Answer (List Object)) → Result (List MarketOrderEntry × ℕ)
get_market_orders_page settings jitter server =
    elim (get_with_retry settings jitter server).result [
      | raise (http_status_error code) ↦
          if code == 404 then ok ([], 0) else raise (http_status_error code)
      | raise e ↦ raise e
      | ok response ↦ do
        entries ← each market_order_entry response.body
        ok (entries, get_or response.x_pages 1)
    ]
