-- ===== src/MarketOrders/Pipeline/Tests.antt =====
-- Two regions scraped by workers that crash, and the theorems on the pipeline applied to them.
use aobp.Prelude.{
  ℕ, ◌≡◌, refl, true, false, none, some, List, [], ◌∷◌, All, arith, nat_eq, string_eq, ◌==◌,
  if◌then◌else◌, String,
}
use aobp.Result.{Result, ok, raise, transport_error, http_status_error}
use aobp.MarketOrders.{
  ScrapeJobMessage, OrderRow, orders_from, region_orders, run_fetch_job, apply_orders_chunk,
  is_duplicate, insert_unordered, any_other, chunks_from, chunked, publish_all,
}
use aobp.MarketOrders.Apply.{all_distinct}
use aobp.MarketOrders.Pipeline.{
  Pipeline, Event, fetched, written, nth, drop_at, fetch_round, write_round, step, run,
}
use aobp.MarketOrders.Pipeline.Rounds.{stored}
use aobp.MarketOrders.Pipeline.View.{IsHonest, view, view-run}
use aobp.MarketOrders.Pipeline.Settles.{settle, settle-Stores}

abbrev job : ℕ → ScrapeJobMessage
job region = record { region_id = region; scrape_run_id = "run" }

-- Orders are their ids here. Region 10 lists three, the other regions one.
abbrev listing : ℕ → List ℕ
listing region = if region == 10 then 1 ∷ 2 ∷ 3 ∷ [] else 7 ∷ []

abbrev server : ℕ → ℕ → Result (List ℕ × ℕ)
server region page = ok (listing region, 1)

abbrev order_id : ℕ → ℕ
order_id o = o

answers : (region : ℕ) → region_orders (server region) ≡ ok (listing region)
unfolding region_orders orders_from
answers region = ground arith

abbrev begun : Pipeline ℕ
begun = record { jobs = job 10 ∷ job 20 ∷ []; results = []; rows = [] }

-- The second publication of the first worker fails; the next one ends before its acknowledgement;
-- ESI fails for a third; and a chunk is refused in part, then written without an acknowledgement.
abbrev mishaps : List (Event ℕ)
mishaps =
    fetched 0 true (λ n. if n == 1 then some transport_error else none) server
    ∷ fetched 0 false (λ _. none) server
    ∷ fetched 1 true (λ _. none) (λ _ _. raise (http_status_error 502))
    ∷ written 0 true (λ doc. if OrderRow.order doc == 2 then some 121 else none) 5
    ∷ written 1 false (λ _. none) 6
    ∷ []

mishaps_end : (run order_id 2 mishaps begun).jobs ≡ begun.jobs
unfolding run step nth drop_at fetch_round write_round run_fetch_job region_orders orders_from
    chunked chunks_from publish_all apply_orders_chunk insert_unordered is_duplicate any_other
mishaps_end = refl

listed :
    (region : ℕ) (orders : List ℕ)
    → region_orders (server region) ≡ ok orders
    → orders ≡ listing region
unfolding region_orders orders_from
listed region orders h = ground (arith, h)

mishaps-All : All (IsHonest listing) mishaps
unfolding region_orders orders_from
mishaps-All = (
  listed,
  (listed, ((λ region orders h. cc), ((λ doc h. ground (arith, h)), ((λ doc h. cc), tt)))),
)

abbrev the_run : String
the_run = "run"

view-run_example :
    view order_id 2 listing 7 the_run (run order_id 2 mishaps begun)
    ≡ view order_id 2 listing 7 the_run begun
view-run_example = view-run order_id 2 listing mishaps begun 7 the_run mishaps-All

settle-Stores_example :
    let q = settle order_id 2 server 9 (run order_id 2 mishaps begun) in
    (q.jobs ≡ [])
    × (q.results ≡ [])
    × (all_distinct order_id q.rows ≡ true)
    × ((id : ℕ) (scrape_run : String)
        → stored order_id id scrape_run q.rows ≡ view order_id 2 listing id scrape_run begun)
settle-Stores_example =
    settle-Stores order_id 2 server 9 listing (omega arith) answers mishaps begun mishaps-All
      (unfold all_distinct in refl)
