-- ===== src/MarketOrders/Pipeline/Settles.antt =====
-- Workers that go on, with ESI and the database back, empty both queues: whatever went wrong before,
-- every order of the run ends in the collection, once.
use aobp.Prelude.{
  ℕ, zero, suc, ◌≤◌, ◌≡◌, refl, ◌∙◌, String, true, none, List, [], ◌∷◌, All, any, length, arith,
  Option-cases, inl, inr,
}
use aobp.Result.{Result, ok}
use aobp.MarketOrders.{ScrapeJobMessage, OrdersChunkMessage, region_orders}
use aobp.MarketOrders.Chunks.{run_fetch_job_sends}
use aobp.MarketOrders.Apply.{
  apply_orders_chunk-redelivered, all_distinct, apply_orders_chunk-all_distinct,
}
use aobp.MarketOrders.Pipeline.{
  Pipeline, Event, fetched, written, nth, drop_at, fetch_round, write_round, step, run,
}
use aobp.MarketOrders.Pipeline.View.{IsHonest, view, view-run}
use aobp.MarketOrders.Pipeline.Rounds.{stored}

unfoldable pub repeat {ℓ} : {A : Type ℓ} → ℕ → A → List A
repeat zero x = []
repeat (suc n) x = x ∷ repeat n x

All-repeat {ℓ κ} : {A : Type ℓ} (P : A → Type κ) (n : ℕ) (x : A) → P x → All P (repeat n x)
unfolding repeat
All-repeat P zero x h = tt
All-repeat P (suc n) x h = (h, All-repeat P n x h)

module _ {ℓ} {O : Type ℓ} (order_id : O → ℕ) (size : ℕ) where
  step-all_distinct :
      (e : Event O) (p : Pipeline O)
      → all_distinct order_id p.rows ≡ true
      → all_distinct order_id (step order_id size e p).rows ≡ true
  unfolding step write_round
  step-all_distinct (fetched place survives broken orders_page) p h =
      elim (Option-cases (nth place p.jobs)) [
        | inl nothing ↦ rw (nothing, step) h
        | inr (job, handed) ↦ rw (handed, step) h
      ]
  step-all_distinct (written place survives refused now) p h =
      elim (Option-cases (nth place p.results)) [
        | inl nothing ↦ rw (nothing, step) h
        | inr (m, handed) ↦
            rw (handed, step) (apply_orders_chunk-all_distinct order_id refused now m p.rows h)
      ]

  run-all_distinct :
      (events : List (Event O)) (p : Pipeline O)
      → all_distinct order_id p.rows ≡ true
      → all_distinct order_id (run order_id size events p).rows ≡ true
  unfolding run
  run-all_distinct [] p h = h
  run-all_distinct (e ∷ events) p h = run-all_distinct events _ (step-all_distinct e p h)

  module _ (server : ℕ → ℕ → Result (List O × ℕ)) (now : ℕ) where
    -- Rounds in which nothing fails, for the message that waits longest.
    abbrev good_fetch : Event O
    good_fetch = fetched 0 true (λ _. none) server

    abbrev good_write : Event O
    good_write = written 0 true (λ _. none) now

    unfoldable pub fetch_rest : Pipeline O → Pipeline O
    fetch_rest p = run order_id size (repeat (length p.jobs) good_fetch) p

    unfoldable pub write_rest : Pipeline O → Pipeline O
    write_rest p = run order_id size (repeat (length p.results) good_write) p

    -- One good round for each waiting job, then one for each waiting chunk.
    unfoldable pub settle : Pipeline O → Pipeline O
    settle p = write_rest (fetch_rest p)

    module _ (listing : ℕ → List O) (positive : 1 ≤ size)
        (answers : (region : ℕ) → region_orders (server region) ≡ ok (listing region)) where
      step-good_fetch :
          (job : ScrapeJobMessage) (jobs : List ScrapeJobMessage) (p : Pipeline O)
          → p.jobs ≡ job ∷ jobs
          → (step order_id size good_fetch p).jobs ≡ jobs
      unfolding step nth drop_at fetch_round
      step-good_fetch job jobs p h =
          let (ms, done, _, _) =
            run_fetch_job_sends job (λ _. none) size (server job.region_id) p.results
              (listing job.region_id) (λ _. refl) positive (answers job.region_id) in
          ground (arith, h, done)

      fetches-jobs :
          (jobs : List ScrapeJobMessage) (p : Pipeline O)
          → p.jobs ≡ jobs
          → (run order_id size (repeat (length jobs) good_fetch) p).jobs ≡ []
      unfolding repeat run
      fetches-jobs [] p h = h
      fetches-jobs (job ∷ jobs) p h = fetches-jobs jobs _ (step-good_fetch job jobs p h)

    step-good_write :
        (m : OrdersChunkMessage O) (ms : List (OrdersChunkMessage O)) (p : Pipeline O)
        → p.results ≡ m ∷ ms
        → let q = step order_id size good_write p in (q.results ≡ ms) × (q.jobs ≡ p.jobs)
    unfolding step nth drop_at write_round
    step-good_write m ms p h =
        let (done, _) = apply_orders_chunk-redelivered order_id now now m p.rows in
        (ground (arith, h, done), ground (arith, h, done))

    writes-results :
        (ms : List (OrdersChunkMessage O)) (p : Pipeline O)
        → p.results ≡ ms
        → let q = run order_id size (repeat (length ms) good_write) p in
          (q.results ≡ []) × (q.jobs ≡ p.jobs)
    unfolding repeat run
    writes-results [] p h = (h, refl)
    writes-results (m ∷ ms) p h =
        let (rest, kept) = step-good_write m ms p h in
        let (done, kept') = writes-results ms _ rest in (done, kept' ∙ kept)

  module _ (server : ℕ → ℕ → Result (List O × ℕ)) (now : ℕ) (listing : ℕ → List O)
      (positive : 1 ≤ size)
      (answers : (region : ℕ) → region_orders (server region) ≡ ok (listing region)) where
    IsHonest-good_fetch : IsHonest listing (good_fetch server now)
    IsHonest-good_fetch region orders h = ground (arith, answers region, h)

    view-settle :
        (p : Pipeline O) (id : ℕ) (scrape_run : String)
        → view order_id size listing id scrape_run (settle server now p)
          ≡ view order_id size listing id scrape_run p
    unfolding settle fetch_rest write_rest
    view-settle p id scrape_run =
        let fetches = repeat (length p.jobs) (good_fetch server now) in
        let q = run order_id size fetches p in
        view-run order_id size listing (repeat (length q.results) (good_write server now)) q id
          scrape_run
          (All-repeat (IsHonest listing) (length q.results) (good_write server now) (λ doc. cc))
        ∙ view-run order_id size listing fetches p id scrape_run (
            All-repeat (IsHonest listing) (length p.jobs) (good_fetch server now)
              IsHonest-good_fetch)

    settle_empties :
        (p : Pipeline O) → let q = settle server now p in (q.jobs ≡ []) × (q.results ≡ [])
    unfolding settle fetch_rest write_rest
    settle_empties p =
        let q = run order_id size (repeat (length p.jobs) (good_fetch server now)) p in
        let (none_left, kept) = writes-results server now q.results q refl in
        (kept ∙ fetches-jobs server now listing positive answers p.jobs p refl, none_left)

    -- With empty queues the view is the collection.
    stored-eq-view :
        (id : ℕ) (scrape_run : String) (q : Pipeline O)
        → q.jobs ≡ []
        → q.results ≡ []
        → stored order_id id scrape_run q.rows ≡ view order_id size listing id scrape_run q
    unfolding any
    stored-eq-view id scrape_run q no_jobs no_results = ground (arith, no_jobs, no_results)

    -- After any rounds in which ESI answered each region's listing or failed, and MongoDB reported
    -- duplicates only where the index has one: with a chunk size of at least 1 and an ESI that answers
    -- again, one good round for every job and then for every chunk that waits empties both queues, and
    -- then an order is stored in a run exactly when it was stored, on offer or awaited at the start;
    -- and no order has two rows in a run, if none had at the start.
    pub settle-Stores :
        (events : List (Event O)) (p : Pipeline O)
        → All (IsHonest listing) events
        → all_distinct order_id p.rows ≡ true
        → let q = settle server now (run order_id size events p) in
          (q.jobs ≡ [])
          × (q.results ≡ [])
          × (all_distinct order_id q.rows ≡ true)
          × ((id : ℕ) (scrape_run : String)
              → stored order_id id scrape_run q.rows ≡ view order_id size listing id scrape_run p)
    settle-Stores events p honest distinct =
        let r = run order_id size events p in
        let (jobs, results) = settle_empties r in
        (
          jobs,
          results,
          unfold settle fetch_rest write_rest in
              run-all_distinct _ _ (run-all_distinct _ r (run-all_distinct events p distinct)),
          λ id scrape_run.
              stored-eq-view id scrape_run (settle server now r) jobs results
              ∙ view-settle r id scrape_run
              ∙ view-run order_id size listing events p id scrape_run honest,
        )
