-- ===== src/MarketOrders/Tests.antt =====
-- A region of two pages and a small chunk, and the theorems on market_orders.py applied to them.
use aobp.Prelude.{
  ℕ, ◌≡◌, ◌≤◌, Bool-cases, inl, inr, refl, Option, none, List, [], ◌∷◌, ◌++◌, All, arith, length,
  nat_eq, ◌==◌, if◌then◌else◌,
}
use aobp.Result.{Result, ok, Error}
use aobp.MarketOrders.{
  ScrapeJobMessage, OrdersChunkMessage, OrderRow, orders_from, region_orders, run_fetch_job,
  apply_orders_chunk,
}
use aobp.MarketOrders.Chunks.{listing, delivered, IsOf, run_fetch_job_complete}
use aobp.MarketOrders.Apply.{fine, apply_orders_chunk-redelivered}

abbrev job : ScrapeJobMessage
job = record { region_id = 10; scrape_run_id = "run" }

-- Orders are their ids here.
abbrev two_pages : ℕ → Result (List ℕ × ℕ)
two_pages page = if page == 1 then ok (1 ∷ 2 ∷ 3 ∷ [], 2) else ok (4 ∷ 5 ∷ [], 2)

abbrev all_orders : List ℕ
all_orders = 1 ∷ 2 ∷ 3 ∷ 4 ∷ 5 ∷ []

abbrev never_broken : ℕ → Option Error
never_broken _ = none

abbrev orders_of : ℕ → List ℕ
orders_of page = if page == 1 then 1 ∷ 2 ∷ 3 ∷ [] else 4 ∷ 5 ∷ []

region_runs : region_orders two_pages ≡ ok all_orders
unfolding region_orders orders_from
region_runs = refl

both_pages : listing orders_of 2 1 ≡ all_orders
unfolding listing
both_pages = refl

two_pages_answer : (n : ℕ) → 1 ≤ n → n ≤ 2 → two_pages n ≡ ok (orders_of n, 2)
two_pages_answer n least most = elim (Bool-cases (n == 1)) [
  | inl first ↦ rw first refl
  | inr other ↦ rw other refl
]

run_fetch_job_complete_example :
    (ms : List (OrdersChunkMessage ℕ)) × (run_fetch_job never_broken 2 two_pages job []
      ≡ (ok tt, [] ++ ms))
    × (delivered ms ≡ listing orders_of 2 1)
    × All (IsOf job 2) ms
run_fetch_job_complete_example =
    run_fetch_job_complete job never_broken 2 two_pages [] orders_of (λ n. 2) 2 (λ n. refl)
      (omega arith) (omega arith) refl two_pages_answer

abbrev chunk : OrdersChunkMessage ℕ
chunk = record { region_id = 10; scrape_run_id = "run"; orders = 1 ∷ 2 ∷ [] }

abbrev stored_row : OrderRow ℕ
stored_row = record { order = 2; region_id = 10; scrape_run_id = "run"; scraped_at = 3 }

apply_orders_chunk-redelivered_example :
    let first = apply_orders_chunk (λ o. o) (fine (λ o. o)) 5 chunk (stored_row ∷ []) in
    (first.0 ≡ ok (length chunk.orders))
    × (apply_orders_chunk (λ o. o) (fine (λ o. o)) 9 chunk first.1
        ≡ (ok (length chunk.orders), first.1))
apply_orders_chunk-redelivered_example =
    apply_orders_chunk-redelivered (λ o. o) 5 9 chunk (stored_row ∷ [])
