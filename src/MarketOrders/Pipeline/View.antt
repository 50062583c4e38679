-- ===== src/MarketOrders/Pipeline/View.antt =====
-- What the pipeline of the market orders promises: the set of the orders that are stored or that
-- will be. No round of a worker changes it.
use aobp.Prelude.{
  ℕ, ◌≡◌, ◌≢◌, refl, ◌∙◌, String, Bool, ◌&&◌, ◌||◌, some, List, [], ◌∷◌, nat_eq, string_eq, ◌==◌,
  any, All, arith, Option-cases, inl, inr,
}
use aobp.Result.{ok}
use aobp.MarketOrders.{ScrapeJobMessage, OrdersChunkMessage, OrderRow, region_orders}
use aobp.MarketOrders.Pipeline.{Pipeline, Event, fetched, written, nth, step, run}
use aobp.MarketOrders.Pipeline.Rounds.{
  any-drop_at, stored, offered, awaited, has_order, stored-write_round, offered-fetch_round,
}

module _ {ℓ} {O : Type ℓ} (order_id : O → ℕ) (size : ℕ) (listing : ℕ → List O) (id : ℕ)
    (scrape_run : String) where
  -- The orders that are stored, on offer or awaited.
  abbrev pub view : Pipeline O → Bool
  view p =
      stored order_id id scrape_run p.rows
      || offered order_id id scrape_run p.results
      || awaited order_id id scrape_run listing p.jobs

-- What the rounds of the workers may meet: ESI answers a region's listing or fails, and MongoDB
-- reports a duplicate only where the unique index has one.
abbrev pub IsHonest {ℓ} : {O : Type ℓ} → (ℕ → List O) → Event O → Type ℓ
IsHonest {O = O} listing (fetched place survives broken orders_page) =
    (region : ℕ) (orders : List O)
    → region_orders (orders_page region) ≡ ok orders
    → orders ≡ listing region
IsHonest {O = O} listing (written place survives refused now) =
    (doc : OrderRow O) → refused doc ≢ some 11000

module _ {ℓ} {O : Type ℓ} (order_id : O → ℕ) (size : ℕ) (listing : ℕ → List O) where
  view-step :
      (e : Event O) (p : Pipeline O) (id : ℕ) (scrape_run : String)
      → IsHonest listing e
      → view order_id size listing id scrape_run (step order_id size e p)
        ≡ view order_id size listing id scrape_run p
  unfolding step any
  view-step (fetched place survives broken orders_page) p id scrape_run honest =
      elim (Option-cases (nth place p.jobs)) [
        | inl nothing ↦ rw (nothing, step)
        | inr (job, handed) ↦
            let (part, all) =
              offered-fetch_round order_id size listing id scrape_run survives broken orders_page
                job p.results honest in
            let split =
              any-drop_at
                (λ (j : ScrapeJobMessage).
                  (j.scrape_run_id == scrape_run)
                  && has_order order_id id scrape_run (listing j.region_id))
                place p.jobs job handed in
            rw (handed, step) (ground (arith, part, all, split))
      ]
  view-step (written place survives refused now) p id scrape_run honest =
      elim (Option-cases (nth place p.results)) [
        | inl nothing ↦ rw (nothing, step)
        | inr (m, handed) ↦
            let (part, all) =
              stored-write_round order_id id scrape_run survives refused now m p.rows honest in
            let split =
              any-drop_at
                (λ (n : OrdersChunkMessage O).
                  (n.scrape_run_id == scrape_run) && has_order order_id id scrape_run n.orders)
                place p.results m handed in
            rw (handed, step) (ground (arith, part, all, split))
      ]

  -- For every sequence of rounds of any number of workers, with crashes before an acknowledgement,
  -- failing publications, refused documents and redeliveries at any place: if ESI answers each region's
  -- listing or fails, and MongoDB reports duplicates only where the index has one, then an order is
  -- stored, on offer or awaited in a run after the rounds exactly when it was before. No order is lost
  -- and none is invented.
  pub view-run :
      (events : List (Event O)) (p : Pipeline O) (id : ℕ) (scrape_run : String)
      → All (IsHonest listing) events
      → view order_id size listing id scrape_run (run order_id size events p)
        ≡ view order_id size listing id scrape_run p
  unfolding run
  view-run [] p id scrape_run honest = refl
  view-run (e ∷ events) p id scrape_run honest =
      view-run events (step order_id size e p) id scrape_run honest.1
      ∙ view-step e p id scrape_run honest.0
