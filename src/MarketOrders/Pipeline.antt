-- ===== src/MarketOrders/Pipeline.antt =====
-- The workers of the market orders, app/scripts/market_orders_fetch_worker.py and
-- market_orders_write_worker.py: the rounds of their loops over the two queues, and the sequences in
-- which several workers, crashes and redeliveries may interleave.
pub mod Rounds
pub mod View
pub mod Settles
mod Tests
use aobp.Prelude.{
  ℕ, zero, suc, Bool, true, false, ◌&&◌, Option, none, some, List, [], ◌∷◌, ◌++◌, if◌then◌else◌,
  length,
}
use aobp.Result.{Result, Error, is_ok}
use aobp.MarketOrders.{
  ScrapeJobMessage, OrdersChunkMessage, OrderRow, run_fetch_job, apply_orders_chunk,
}

module _ {ℓ} {A : Type ℓ} where
  unfoldable pub nth : ℕ → List A → Option A
  nth i [] = none
  nth zero (x ∷ xs) = some x
  nth (suc i) (x ∷ xs) = nth i xs

  unfoldable pub drop_at : ℕ → List A → List A
  drop_at i [] = []
  drop_at zero (x ∷ xs) = xs
  drop_at (suc i) (x ∷ xs) = x ∷ drop_at i xs

-- The messages of the two queues that are not acknowledged, and the collection `market_orders`.
pub record Pipeline {ℓ} (O : Type ℓ) : Type ℓ where
  pub jobs : List ScrapeJobMessage
  pub results : List (OrdersChunkMessage O)
  pub rows : List (OrderRow O)

-- A worker is handed a message, by its place in the queue. `survives` is false where the process ends
-- after its work and before `message.ack()`; the other arguments are the circumstances of the round:
-- which publications fail, what ESI answers for a region's page, which documents MongoDB refuses, and
-- the time.
pub data Event {ℓ} (O : Type ℓ) : Type ℓ where
  fetched :
      (place : ℕ) (survives : Bool) (broken : ℕ → Option Error)
      (orders_page : ℕ → ℕ → Result (List O × ℕ))
      → Event O
  written : (place : ℕ) (survives : Bool) (refused : OrderRow O → Option ℕ) (now : ℕ) → Event O

module _ {ℓ} {O : Type ℓ} where
  -- A round of the fetch worker's loop: whether the job is acknowledged, and the results queue.
  unfoldable pub fetch_round :
      ℕ
      → Bool
      → (ℕ → Option Error)
      → (ℕ → ℕ → Result (List O × ℕ))
      → ScrapeJobMessage
      → List (OrdersChunkMessage O)
      → Bool × List (OrdersChunkMessage O)
  fetch_round size survives broken orders_page job results =
      let (done, results') = run_fetch_job broken size (orders_page job.region_id) job results in
      (is_ok done && survives, results')

  -- A round of the write worker's loop: whether the chunk is acknowledged, and the collection.
  unfoldable pub write_round :
      (O → ℕ)
      → Bool
      → (OrderRow O → Option ℕ)
      → ℕ
      → OrdersChunkMessage O
      → List (OrderRow O)
      → Bool × List (OrderRow O)
  write_round order_id survives refused now message rows =
      let (count, rows') = apply_orders_chunk order_id refused now message rows in
      (is_ok count && survives, rows')

  -- A message that is not acknowledged stays in its queue, for another worker.
  unfoldable pub step : (O → ℕ) → ℕ → Event O → Pipeline O → Pipeline O
  step order_id size (fetched place survives broken orders_page) p = elim (nth place p.jobs) [
    | none ↦ p
    | some job ↦
        let (acked, results') = fetch_round size survives broken orders_page job p.results in
        record p { jobs = if acked then drop_at place p.jobs else p.jobs; results = results' }
  ]
  step order_id size (written place survives refused now) p = elim (nth place p.results) [
    | none ↦ p
    | some message ↦
        let (acked, rows') = write_round order_id survives refused now message p.rows in
        record p { results = if acked then drop_at place p.results else p.results; rows = rows' }
  ]

  unfoldable pub run : (O → ℕ) → ℕ → List (Event O) → Pipeline O → Pipeline O
  run order_id size [] p = p
  run order_id size (e ∷ events) p = run order_id size events (step order_id size e p)
