-- ===== src/MarketOrders/Pipeline/Rounds.antt =====
-- What one round of a worker does to the orders that are stored and to those on offer.
use mathlib.Core.Option.{some-injective}
use aobp.Prelude.{
  ℕ, zero, suc, ◌≡◌, ◌≢◌, refl, ap, ◌∙◌, String, Bool, true, false, ◌&&◌, ◌||◌, Option, some, List,
  [], ◌∷◌, ◌++◌, map, if◌then◌else◌, nat_eq, string_eq, nat_beq_iff, Eq, ◌==◌, any, length, arith,
  Bool-cases, Option-cases, inl, inr,
}
use aobp.Result.{Result, ok, Error, is_ok, Result-cases}
use aobp.MarketOrders.{
  ScrapeJobMessage, OrdersChunkMessage, OrderRow, is_duplicate, insert_unordered, any_other,
  docs_of, apply_orders_chunk, publish_all, region_orders, chunked, chunks_from, run_fetch_job,
}
use aobp.MarketOrders.Chunks.{joined, joined-chunks_from}
use aobp.MarketOrders.Pipeline.{nth, drop_at, fetch_round, write_round}

module _ {ℓ} {A : Type ℓ} (test : A → Bool) where
  any-append : (xs ys : List A) → any test (xs ++ ys) ≡ (any test xs || any test ys)
  unfolding any
  any-append [] ys = refl
  any-append (x ∷ xs) ys = ground (arith, any-append xs ys)

  pub any-drop_at :
      (i : ℕ) (xs : List A) (x : A)
      → nth i xs ≡ some x
      → any test xs ≡ (test x || any test (drop_at i xs))
  unfolding any nth drop_at
  any-drop_at i [] x h = cc
  any-drop_at zero (y ∷ xs) x h =
      let e : y ≡ x = some-injective y x h in ap (λ z. test z || any test xs) e
  any-drop_at (suc i) (y ∷ xs) x h = ground (arith, any-drop_at i xs x h)

module _ {ℓ} {O : Type ℓ} (order_id : O → ℕ) (id : ℕ) (scrape_run : String) where
  abbrev pub has_order : List O → Bool
  has_order = any (λ o. order_id o == id)

  -- A row of the order in the run.
  abbrev is_row : OrderRow O → Bool
  is_row r = (order_id r.order == id) && (r.scrape_run_id == scrape_run)

  abbrev pub stored : List (OrderRow O) → Bool
  stored = any is_row

  -- A message of the run with the order.
  abbrev pub offered : List (OrdersChunkMessage O) → Bool
  offered = any (λ m. (m.scrape_run_id == scrape_run) && has_order m.orders)

  -- A job of the run for a region that lists the order.
  abbrev pub awaited : (ℕ → List O) → List ScrapeJobMessage → Bool
  awaited listing =
      any (λ job. (job.scrape_run_id == scrape_run) && has_order (listing job.region_id))

  stored-of_duplicate :
      (x : OrderRow O) (rows : List (OrderRow O))
      → is_duplicate order_id x rows ≡ true
      → is_row x ≡ true
      → stored rows ≡ true
  unfolding is_duplicate any
  stored-of_duplicate x [] h r = cc
  stored-of_duplicate x (y ∷ rows) h r = ground (
    arith,
    stored-of_duplicate x rows,
    nat_beq_iff (order_id y.order) (order_id x.order),
    nat_beq_iff (order_id y.order) id,
    nat_beq_iff (order_id x.order) id,
    Eq.beq_iff string_eq y.scrape_run_id x.scrape_run_id,
    Eq.beq_iff string_eq y.scrape_run_id scrape_run,
    Eq.beq_iff string_eq x.scrape_run_id scrape_run,
  )

  stored-docs_of :
      (now : ℕ) (m : OrdersChunkMessage O) (orders : List O)
      → stored (docs_of now (record m { orders = orders }))
        ≡ ((m.scrape_run_id == scrape_run) && has_order orders)
  unfolding any
  stored-docs_of now m [] = ground arith
  stored-docs_of now m (o ∷ orders) = ground (arith, stored-docs_of now m orders)

  -- An insertion adds documents of the chunk only, and each of them where it reports no refusal.
  stored-insert :
      (refused : OrderRow O → Option ℕ) (docs rows : List (OrderRow O))
      → (stored (insert_unordered order_id refused docs rows).1 || stored docs)
        ≡ (stored rows || stored docs)
  unfolding insert_unordered any
  stored-insert refused [] rows = refl
  stored-insert refused (x ∷ docs) rows =
      elim (Option-cases (if is_duplicate order_id x rows then some 11000 else refused x)) [
        | inl new ↦
            rw (new, insert_unordered)
              (ground (
                arith,
                stored-insert refused docs (rows ++ x ∷ []),
                any-append is_row rows (x ∷ []),
              ))
        | inr (code, failed) ↦
            rw (failed, insert_unordered) (ground (arith, stored-insert refused docs rows))
      ]

  stored-insert_all :
      (refused : OrderRow O → Option ℕ) (docs rows : List (OrderRow O))
      → ((doc : OrderRow O) → refused doc ≢ some 11000)
      → any_other (insert_unordered order_id refused docs rows).0 ≡ false
      → stored (insert_unordered order_id refused docs rows).1 ≡ (stored rows || stored docs)
  unfolding insert_unordered any any_other
  stored-insert_all refused [] rows honest h = ground arith
  stored-insert_all refused (x ∷ docs) rows honest h =
      elim (Option-cases (if is_duplicate order_id x rows then some 11000 else refused x)) [
        | inl new ↦
            rw (new, insert_unordered)
              (ground (
                arith,
                stored-insert_all refused docs (rows ++ x ∷ []) honest
                    (rw (new, insert_unordered) at h),
                any-append is_row rows (x ∷ []),
              ))
        | inr (code, failed) ↦
            let reported = rw (failed, insert_unordered) at h in
            rw (failed, insert_unordered)
              (ground (
                arith,
                reported,
                nat_beq_iff code 11000,
                honest x,
                failed,
                stored-of_duplicate x rows,
                stored-insert_all refused docs rows honest,
              ))
      ]

  -- What a round of the write worker does to the stored orders.
  pub stored-write_round :
      (survives : Bool) (refused : OrderRow O → Option ℕ) (now : ℕ) (m : OrdersChunkMessage O)
      (rows : List (OrderRow O))
      → ((doc : OrderRow O) → refused doc ≢ some 11000)
      → let round = write_round order_id survives refused now m rows in
        ((stored round.1 || offered (m ∷ [])) ≡ (stored rows || offered (m ∷ [])))
        × (round.0 ≡ true → stored round.1 ≡ (stored rows || offered (m ∷ [])))
  unfolding write_round apply_orders_chunk any
  stored-write_round survives refused now m rows honest =
      let docs = docs_of now m in
      let same = stored-docs_of now m m.orders in
      let some_ = stored-insert refused docs rows in
      let all = stored-insert_all refused docs rows honest in
      (ground (arith, same, some_), λ acked. ground (arith, same, all, acked))

  offered-map :
      (job : ScrapeJobMessage) (chunks : List (List O))
      → offered (
          map
            (λ chunk. record {
              region_id = job.region_id;
              scrape_run_id = job.scrape_run_id;
              orders = chunk;
            })
            chunks)
        ≡ ((job.scrape_run_id == scrape_run) && has_order (joined chunks))
  unfolding any joined
  offered-map job [] = ground arith
  offered-map job (c ∷ chunks) =
      ground (arith, offered-map job chunks, any-append (λ o. order_id o == id) c (joined chunks))

any-publish_all {ℓ} :
    {M : Type ℓ} (test : M → Bool) (broken : ℕ → Option Error) (ms queue : List M)
    → let published = publish_all broken ms queue in
      ((any test published.1 || any test ms) ≡ (any test queue || any test ms))
      × (is_ok published.0 ≡ true → any test published.1 ≡ (any test queue || any test ms))
unfolding publish_all any
any-publish_all test broken [] queue = (refl, λ _. ground arith)
any-publish_all test broken (m ∷ ms) queue = elim (Option-cases (broken (length queue))) [
  | inl accepted ↦
      let (part, whole) = any-publish_all test broken ms (queue ++ m ∷ []) in
      let snoc = any-append test queue (m ∷ []) in
      rw (accepted, publish_all)
        (ground (arith, part, snoc), λ fine. ground (arith, whole fine, snoc))
  | inr (e, failed) ↦ rw (failed, publish_all) (refl, λ fine. cc)
]

module _ {ℓ} {O : Type ℓ} (order_id : O → ℕ) (size : ℕ) (listing : ℕ → List O) (id : ℕ)
    (scrape_run : String) where
  abbrev waits : ScrapeJobMessage → Bool
  waits job = awaited order_id id scrape_run listing (job ∷ [])

  abbrev offers : List (OrdersChunkMessage O) → Bool
  offers = offered order_id id scrape_run

  -- What a round of the fetch worker does to the orders on offer.
  pub offered-fetch_round :
      (survives : Bool) (broken : ℕ → Option Error) (orders_page : ℕ → ℕ → Result (List O × ℕ))
      (job : ScrapeJobMessage) (results : List (OrdersChunkMessage O))
      → ((region : ℕ) (orders : List O)
          → region_orders (orders_page region) ≡ ok orders
          → orders ≡ listing region)
      → let round = fetch_round size survives broken orders_page job results in
        ((offers round.1 || waits job) ≡ (offers results || waits job))
        × (round.0 ≡ true → offers round.1 ≡ (offers results || waits job))
  unfolding fetch_round run_fetch_job chunked any
  offered-fetch_round survives broken orders_page job results honest =
      elim (Result-cases (region_orders (orders_page job.region_id))) [
        | inr (e, failed) ↦ rw (failed, run_fetch_job) (refl, λ acked. cc)
        | inl (orders, answered) ↦ elim (Bool-cases (size == 0)) [
          | inl empty ↦ rw (answered, empty, run_fetch_job) (refl, λ acked. cc)
          | inr positive ↦
              let chunks = chunks_from size orders (length orders) 0 in
              let whole : joined chunks ≡ listing job.region_id =
                joined-chunks_from size orders (length orders) 0 (ground arith) (omega arith)
                ∙ honest job.region_id orders answered in
              let (part, all) =
                any-publish_all
                  (λ (m : OrdersChunkMessage O).
                    (m.scrape_run_id == scrape_run) && has_order order_id id scrape_run m.orders)
                  broken
                  (map
                    (λ chunk. record {
                      region_id = job.region_id;
                      scrape_run_id = job.scrape_run_id;
                      orders = chunk;
                    })
                    chunks)
                  results in
              let sent = offered-map order_id id scrape_run job chunks in
              let listed = ap (has_order order_id id scrape_run) whole in
              rw (answered, positive, run_fetch_job)
                (
                  ground (arith, part, sent, listed),
                  λ acked. ground (arith, all, sent, listed, acked),
                )
        ]
      ]
