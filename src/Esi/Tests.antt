-- ===== src/Esi/Tests.antt =====
-- A server that is overloaded at first, a listing of two pages, and the theorems on esi.py applied to them.
use aobp.Prelude.{
  ℕ, ◌≡◌, refl, false, none, some, List, [], ◌∷◌, nat_eq, ◌==◌, if◌then◌else◌, arith,
}
use aobp.Result.{ok}
use aobp.Esi.{Response, Answer, reply, RetrySettings, get_with_retry, get_all_pages}
use aobp.Esi.Pages.{listing, get_all_pages-eq-listing}
use aobp.Esi.Retry.{Tried, get_with_retry-Tried}
use aobp.Esi.Entries.{null, number, text, truth, AssetEntry, BlueprintEntry, IndustryJobEntry}

abbrev response : ℕ → List ℕ → Response (List ℕ)
response status body = record {
  status_code = status;
  body = body;
  x_pages = some 2;
  retry_after = none;
  error_limit_remain = none;
  error_limit_reset = none;
}

abbrev page_response : ℕ → Response (List ℕ)
page_response n = if n == 1 then response 200 (7 ∷ []) else response 200 (8 ∷ 9 ∷ [])

get_all_pages-eq-listing_example :
    get_all_pages (λ n. reply (page_response n)) ≡ ok (listing (λ i. (page_response i).body) 2 1)
get_all_pages-eq-listing_example =
    get_all_pages-eq-listing (λ n. reply (page_response n)) page_response 2 (λ n h k. refl)
      (λ n h k. ground arith) (omega arith) refl

abbrev settings : RetrySettings
settings = record { page_retry_max_attempts = 3; error_limit_threshold = 20 }

-- Overloaded twice.
abbrev server : ℕ → Answer (List ℕ)
server n = if n == 3 then reply (response 200 []) else reply (response 503 [])

get_with_retry-Tried_example :
    Tried settings (λ n. 0) server 1 (get_with_retry settings (λ n. 0) server)
get_with_retry-Tried_example = get_with_retry-Tried settings (λ n. 0) server

abbrev asset : AssetEntry
asset = record {
  item_id = number 1;
  type_id = number 34;
  location_id = number 60000004;
  location_flag = text "Hangar";
  location_type = text "station";
  quantity = number 5;
  is_singleton = truth false;
}

abbrev blueprint : BlueprintEntry
blueprint = record {
  item_id = number 2;
  type_id = number 35;
  location_id = number 60000004;
  location_flag = text "Hangar";
  quantity = number 1;
  runs = number 10;
  material_efficiency = number 10;
  time_efficiency = number 20;
}

abbrev industry_job : IndustryJobEntry
industry_job = record {
  job_id = number 3;
  activity_id = number 1;
  blueprint_id = number 2;
  blueprint_type_id = number 35;
  product_type_id = null;
  facility_id = number 60000004;
  runs = number 1;
  status = text "active";
  start_date = text "a";
  end_date = text "b";
}
