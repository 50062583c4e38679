-- ===== src/MarketOrders/Chunks.antt =====
-- A region's orders reach the results queue whole, in order and in chunks of the right size.
use mathlib.Core.List.{append-nil, append_assoc}
use aobp.Prelude.{
  ℕ, zero, suc, ◌+◌, ◌-◌, ◌≤◌, ◌≡◌, refl, ap, sym, ◌∙◌, false, Option, none, List, [], ◌∷◌, ◌++◌,
  map, nat_eq, ◌==◌, ltb, length, take, drop, take-append-drop, length-drop, length-take-le, All,
  arith, Bool-cases, inl, inr,
}
use aobp.Result.{Result, ok, Error}
use aobp.MarketOrders.{
  ScrapeJobMessage, OrdersChunkMessage, publish_all, orders_from, region_orders, chunks_from,
  chunked, run_fetch_job,
}

-- The orders of the chunks, one after the other.
unfoldable pub joined {ℓ} : {O : Type ℓ} → List (List O) → List O
joined [] = []
joined (c ∷ cs) = c ++ joined cs

-- The orders of the messages.
unfoldable pub delivered {ℓ} : {O : Type ℓ} → List (OrdersChunkMessage O) → List O
delivered [] = []
delivered (m ∷ ms) = m.orders ++ delivered ms

module _ {ℓ} {O : Type ℓ} where
  drop-nil : (n : ℕ) → drop {A = O} n [] ≡ []
  drop-nil zero = refl
  drop-nil (suc n) = refl

  drop-drop : (a b c : ℕ) (xs : List O) → a + b ≡ c → drop b (drop a xs) ≡ drop c xs
  drop-drop zero b c xs h = let e : b ≡ c = omega arith in ap (λ n. drop n xs) e
  drop-drop (suc a) b c [] h = drop-nil b ∙ sym (drop-nil c)
  drop-drop (suc a) b zero (x ∷ xs) h = absurd (omega arith)
  drop-drop (suc a) b (suc c) (x ∷ xs) h = drop-drop a b c xs (omega arith)

  drop-all : (n : ℕ) (xs : List O) → length xs ≤ n → drop n xs ≡ []
  drop-all zero [] h = refl
  drop-all zero (x ∷ xs) h = absurd (omega arith)
  drop-all (suc n) [] h = refl
  drop-all (suc n) (x ∷ xs) h = drop-all n xs (omega arith)

  pub joined-chunks_from :
      (size : ℕ) (orders : List O) (fuel start : ℕ)
      → 1 ≤ size
      → length orders ≤ start + fuel
      → joined (chunks_from size orders fuel start) ≡ drop start orders
  unfolding joined chunks_from
  joined-chunks_from size orders zero start p h = sym (drop-all start orders (omega arith))
  joined-chunks_from size orders (suc fuel) start p h =
      elim (Bool-cases (ltb start (length orders))) [
        | inl more ↦
            rw (more, chunks_from)
              (ap (λ l. take size (drop start orders) ++ l)
                  (joined-chunks_from size orders fuel (start + size) p (omega arith)
                    ∙ sym (drop-drop start size (start + size) orders refl))
                ∙ take-append-drop size (drop start orders))
        | inr done ↦ rw (done, chunks_from) (sym (drop-all start orders (ground (arith, done))))
      ]

  -- The orders of `count` pages from `page` on.
  unfoldable pub listing : (ℕ → List O) → ℕ → ℕ → List O
  listing page_orders zero page = []
  listing page_orders (suc count) page = page_orders page ++ listing page_orders count (suc page)

  orders_from-listing :
      (orders_page : ℕ → Result (List O × ℕ)) (page_orders : ℕ → List O) (named : ℕ → ℕ)
      (count page total : ℕ)
      → 1 ≤ page
      → page + count ≡ suc total
      → ((n : ℕ) → 1 ≤ n → n ≤ total → orders_page n ≡ ok (page_orders n, named n))
      → orders_from orders_page count page ≡ ok (listing page_orders count page)
  unfolding orders_from listing
  orders_from-listing orders_page page_orders named zero page total least e h = refl
  orders_from-listing orders_page page_orders named (suc count) page total least e h =
      rw
        (
          h page least (omega arith),
          orders_from-listing orders_page page_orders named count (suc page) total (omega arith)
              (omega arith) h,
        )
        refl

  region_orders-listing :
      (orders_page : ℕ → Result (List O × ℕ)) (page_orders : ℕ → List O) (named : ℕ → ℕ) (total : ℕ)
      → named 1 ≡ suc total
      → ((n : ℕ) → 1 ≤ n → n ≤ suc total → orders_page n ≡ ok (page_orders n, named n))
      → region_orders orders_page ≡ ok (listing page_orders (suc total) 1)
  unfolding region_orders listing
  region_orders-listing orders_page page_orders named total first h =
      let others : suc total - 1 ≡ total = omega arith in
      rw
        (
          h 1 (omega arith) (omega arith),
          first,
          others,
          orders_from-listing orders_page page_orders named total 2 (suc total) (omega arith)
              (omega arith) h,
        )
        refl

  -- What is true of each chunk.
  abbrev pub Fits : ℕ → List O → Type 0
  Fits size chunk = (1 ≤ length chunk) × (length chunk ≤ size)

  take-positive : (n : ℕ) (xs : List O) → 1 ≤ n → 1 ≤ length xs → 1 ≤ length (take n xs)
  take-positive zero xs h k = absurd (omega arith)
  take-positive (suc n) [] h k = absurd (omega arith)
  take-positive (suc n) (x ∷ xs) h k = omega arith

  chunks_from-Fits :
      (size : ℕ) (orders : List O) (fuel start : ℕ)
      → 1 ≤ size
      → All (Fits size) (chunks_from size orders fuel start)
  unfolding chunks_from
  chunks_from-Fits size orders zero start p = tt
  chunks_from-Fits size orders (suc fuel) start p = elim (Bool-cases (ltb start (length orders))) [
    | inl more ↦
        rw (more, chunks_from)
          (
            (
              take-positive size (drop start orders) p
                  (ground (arith, more, length-drop start orders)),
              length-take-le size (drop start orders),
            ),
            chunks_from-Fits size orders fuel (start + size) p,
          )
    | inr done ↦ rw (done, chunks_from) tt
  ]

publish_all-fine {ℓ} :
    {M : Type ℓ} (broken : ℕ → Option Error) (ms queue : List M)
    → ((n : ℕ) → broken n ≡ none)
    → publish_all broken ms queue ≡ (ok tt, queue ++ ms)
unfolding publish_all
publish_all-fine broken [] queue fine = ap (λ q. (ok tt, q)) (sym (append-nil queue))
publish_all-fine broken (m ∷ ms) queue fine =
    rw (fine (length queue), publish_all)
      (publish_all-fine broken ms (queue ++ m ∷ []) fine
        ∙ ap (λ q. (ok tt, q)) (append_assoc queue (m ∷ []) ms))

module _ {ℓ} {O : Type ℓ} (job : ScrapeJobMessage) where
  abbrev message_of : List O → OrdersChunkMessage O
  message_of chunk = record {
    region_id = job.region_id;
    scrape_run_id = job.scrape_run_id;
    orders = chunk;
  }

  -- What is true of each message.
  abbrev pub IsOf : ℕ → OrdersChunkMessage O → Type 0
  IsOf size m =
      (m.region_id ≡ job.region_id) × (m.scrape_run_id ≡ job.scrape_run_id) × Fits size m.orders

  delivered-map : (cs : List (List O)) → delivered (map message_of cs) ≡ joined cs
  unfolding delivered joined
  delivered-map [] = refl
  delivered-map (c ∷ cs) = ap (λ l. c ++ l) (delivered-map cs)

  map-IsOf :
      (size : ℕ) (cs : List (List O)) → All (Fits size) cs → All (IsOf size) (map message_of cs)
  map-IsOf size [] h = tt
  map-IsOf size (c ∷ cs) h = ((refl, refl, h.0), map-IsOf size cs h.1)

  -- What a job sends of the orders that `region_orders` found.
  pub run_fetch_job_sends :
      (broken : ℕ → Option Error) (size : ℕ) (orders_page : ℕ → Result (List O × ℕ))
      (queue : List (OrdersChunkMessage O)) (orders : List O)
      → ((n : ℕ) → broken n ≡ none)
      → 1 ≤ size
      → region_orders orders_page ≡ ok orders
      → (ms : List (OrdersChunkMessage O)) × (run_fetch_job broken size orders_page job queue
          ≡ (ok tt, queue ++ ms))
        × (delivered ms ≡ orders)
        × All (IsOf size) ms
  unfolding run_fetch_job chunked
  run_fetch_job_sends broken size orders_page queue orders fine p found =
      let chunks = chunks_from size orders (length orders) 0 in
      let nonzero : (size == 0) ≡ false = ground arith in
      (
        map message_of chunks,
        rw (found, run_fetch_job)
            (rw nonzero (publish_all-fine broken (map message_of chunks) queue fine)),
        delivered-map chunks ∙ joined-chunks_from size orders (length orders) 0 p (omega arith),
        map-IsOf size chunks (chunks_from-Fits size orders (length orders) 0 p),
      )

  -- If ESI answers every page from 1 to the number that the first page names, which is at least 1, the
  -- queue accepts the messages and the chunk size is not 0: the job ends well and publishes messages of
  -- this region and run, each with at least one and at most `size` orders, whose orders together are
  -- exactly the orders of these pages, page after page, each in its order.
  pub run_fetch_job_complete :
      (broken : ℕ → Option Error) (size : ℕ) (orders_page : ℕ → Result (List O × ℕ))
      (queue : List (OrdersChunkMessage O)) (page_orders : ℕ → List O) (named : ℕ → ℕ)
      (total_pages : ℕ)
      → ((n : ℕ) → broken n ≡ none)
      → 1 ≤ size
      → 1 ≤ total_pages
      → named 1 ≡ total_pages
      → ((n : ℕ) → 1 ≤ n → n ≤ total_pages → orders_page n ≡ ok (page_orders n, named n))
      → (ms : List (OrdersChunkMessage O)) × (run_fetch_job broken size orders_page job queue
          ≡ (ok tt, queue ++ ms))
        × (delivered ms ≡ listing page_orders total_pages 1)
        × All (IsOf size) ms
  run_fetch_job_complete broken size orders_page queue page_orders named zero fine p least first h =
      absurd (omega arith)
  run_fetch_job_complete broken size orders_page queue page_orders named (suc total) fine p least
        first h =
      run_fetch_job_sends broken size orders_page queue (listing page_orders (suc total) 1) fine p
        (region_orders-listing orders_page page_orders named total first h)
