-- ===== src/MarketOrders.antt =====
-- app/services/market_orders.py with the messages of app/db/rabbitmq.py: the scrape of the market's
-- orders from the regions to the database. An order is kept as it is, with its id.
pub mod Apply
pub mod Chunks
pub mod Pipeline
mod Tests
use aobp.Prelude.{
  ℕ, zero, suc, ◌+◌, ◌-◌, String, Bool, true, false, Option, none, some, List, [], ◌∷◌, ◌++◌, map,
  if◌then◌else◌, nat_eq, string_eq, ◌==◌, ◌&&◌, ◌||◌, not, ltb, length, take, drop,
}
use aobp.Result.{Result, ok, raise, Error, value_error, bulk_write_error, ◌>>=◌}

pub record ScrapeJobMessage : Type 0 where
  pub region_id : ℕ
  pub scrape_run_id : String

pub record OrdersChunkMessage {ℓ} (O : Type ℓ) : Type ℓ where
  pub region_id : ℕ
  pub scrape_run_id : String
  pub orders : List O

-- A queue's messages so far, and which publications fail: the n-th raises where `broken n` is an error.
unfoldable pub publish_all {ℓ} :
    {M : Type ℓ} → (ℕ → Option Error) → List M → List M → Result (Unit {0}) × List M
publish_all broken [] queue = (ok tt, queue)
publish_all broken (m ∷ ms) queue = elim (broken (length queue)) [
  | some e ↦ (raise e, queue)
  | none ↦ publish_all broken ms (queue ++ m ∷ [])
]

-- `scrape_run_id` is the fresh uuid, `region_ids` what ESI answers.
unfoldable pub dispatch_scrape :
    (ℕ → Option Error)
    → String
    → Result (List ℕ)
    → List ScrapeJobMessage
    → Result String × List ScrapeJobMessage
dispatch_scrape broken scrape_run_id (raise e) queue = (raise e, queue)
dispatch_scrape broken scrape_run_id (ok region_ids) queue =
    let (sent, queue') =
      publish_all broken
        (map (λ id. record { region_id = id; scrape_run_id = scrape_run_id }) region_ids) queue in
    (sent >>= λ _. ok scrape_run_id, queue')

module _ {ℓ} {O : Type ℓ} where
  -- The pages from `page` on, `count` of them.
  unfoldable pub orders_from : (ℕ → Result (List O × ℕ)) → ℕ → ℕ → Result (List O)
  orders_from orders_page zero page = ok []
  orders_from orders_page (suc count) page = do
    (page_orders, _) ← orders_page page
    rest ← orders_from orders_page count (suc page)
    ok (page_orders ++ rest)

  unfoldable pub region_orders : (ℕ → Result (List O × ℕ)) → Result (List O)
  region_orders orders_page = do
    (first_page, total_pages) ← orders_page 1
    rest ← orders_from orders_page (total_pages - 1) 2
    ok (first_page ++ rest)

  -- `for start in range(0, len(orders), size)`; each round takes at least one order, so that the
  -- number of the orders is enough fuel.
  unfoldable pub chunks_from : ℕ → List O → ℕ → ℕ → List (List O)
  chunks_from size orders zero start = []
  chunks_from size orders (suc fuel) start =
      let rest = chunks_from size orders fuel (start + size) in
      if ltb start (length orders) then take size (drop start orders) ∷ rest else []

  -- `range` refuses a step of 0.
  unfoldable pub chunked : ℕ → List O → Result (List (List O))
  chunked size orders =
      if size == 0 then raise value_error else ok (chunks_from size orders (length orders) 0)

  -- `orders_page` is `esi.get_market_orders_page` for the job's region.
  unfoldable pub run_fetch_job :
      (ℕ → Option Error)
      → ℕ
      → (ℕ → Result (List O × ℕ))
      → ScrapeJobMessage
      → List (OrdersChunkMessage O)
      → Result (Unit {0}) × List (OrdersChunkMessage O)
  run_fetch_job broken size orders_page job queue =
      elim (do orders ← region_orders orders_page; chunked size orders) [
        | raise e ↦ (raise e, queue)
        | ok chunks ↦
            publish_all broken
              (map
                (λ chunk. record {
                  region_id = job.region_id;
                  scrape_run_id = job.scrape_run_id;
                  orders = chunk;
                })
                chunks)
              queue
      ]

-- A document of `market_orders`.
pub record OrderRow {ℓ} (O : Type ℓ) : Type ℓ where
  pub order : O
  pub region_id : ℕ
  pub scrape_run_id : String
  pub scraped_at : ℕ

-- `any(error.get("code") != 11000 for error in write_errors)`
unfoldable pub any_other : List ℕ → Bool
any_other [] = false
any_other (code ∷ codes) = not (code == 11000) || any_other codes

abbrev pub docs_of {ℓ} : {O : Type ℓ} → ℕ → OrdersChunkMessage O → List (OrderRow O)
docs_of now message =
    map
      (λ order. record {
        order = order;
        region_id = message.region_id;
        scrape_run_id = message.scrape_run_id;
        scraped_at = now;
      })
      message.orders

module _ {ℓ} {O : Type ℓ} (order_id : O → ℕ) where
  -- The unique index on (order_id, scrape_run_id).
  abbrev pub same_key : OrderRow O → OrderRow O → Bool
  same_key a b = (order_id a.order == order_id b.order) && (a.scrape_run_id == b.scrape_run_id)

  unfoldable pub is_duplicate : OrderRow O → List (OrderRow O) → Bool
  is_duplicate doc [] = false
  is_duplicate doc (row ∷ rows) = same_key row doc || is_duplicate doc rows

  -- `insert_many(..., ordered=False)`: every document is tried. `refused` is the code of another write
  -- error. The codes of the write errors come with the new content.
  unfoldable pub insert_unordered :
      (OrderRow O → Option ℕ) → List (OrderRow O) → List (OrderRow O) → List ℕ × List (OrderRow O)
  insert_unordered refused [] rows = ([], rows)
  insert_unordered refused (doc ∷ docs) rows =
      elim (if is_duplicate doc rows then some 11000 else refused doc) [
        | none ↦ insert_unordered refused docs (rows ++ doc ∷ [])
        | some code ↦
            let (codes, rows') = insert_unordered refused docs rows in (code ∷ codes, rows')
      ]

  unfoldable pub apply_orders_chunk :
      (OrderRow O → Option ℕ)
      → ℕ
      → OrdersChunkMessage O
      → List (OrderRow O)
      → Result ℕ × List (OrderRow O)
  apply_orders_chunk refused now message rows =
      let (write_errors, rows') = insert_unordered refused (docs_of now message) rows in
      (if any_other write_errors then raise bulk_write_error else ok (length message.orders), rows')
