-- ===== src/MarketOrders/Apply.antt =====
-- The unique index makes the redelivery of a chunk harmless.
use aobp.Prelude.{
  ℕ, ◌≡◌, refl, ◌∙◌, Option-cases, Bool, true, false, Option, none, some, List, [], ◌∷◌, ◌++◌, map,
  if◌then◌else◌, nat_eq, string_eq, nat_beq_iff, Eq, ◌&&◌, ◌||◌, not, length, arith, Bool-cases,
  inl, inr,
}
use aobp.Result.{ok}
use aobp.MarketOrders.{
  OrdersChunkMessage, OrderRow, same_key, is_duplicate, insert_unordered, any_other, docs_of,
  apply_orders_chunk,
}

module _ {ℓ} {O : Type ℓ} (order_id : O → ℕ) where
  is_duplicate-snoc :
      (d x : OrderRow O) (rows : List (OrderRow O))
      → is_duplicate order_id d (rows ++ x ∷ [])
        ≡ is_duplicate order_id d rows || same_key order_id x d
  unfolding is_duplicate
  is_duplicate-snoc d x [] = ground arith
  is_duplicate-snoc d x (row ∷ rows) = ground (arith, is_duplicate-snoc d x rows)

  abbrev pub fine : OrderRow O → Option ℕ
  fine _ = none

  -- Insertion forgets no key.
  is_duplicate-insert :
      (d : OrderRow O) (docs rows : List (OrderRow O))
      → is_duplicate order_id d rows ≡ true
      → is_duplicate order_id d (insert_unordered order_id fine docs rows).1 ≡ true
  unfolding insert_unordered
  is_duplicate-insert d [] rows h = h
  is_duplicate-insert d (x ∷ docs) rows h = elim (Bool-cases (is_duplicate order_id x rows)) [
    | inl old ↦ rw (old, insert_unordered) (is_duplicate-insert d docs rows h)
    | inr new ↦
        rw (new, insert_unordered)
          (is_duplicate-insert d docs (rows ++ x ∷ []) (ground (arith, is_duplicate-snoc d x rows)))
  ]

  -- A row for the order under any time.
  abbrev row_at : ℕ → OrdersChunkMessage O → O → OrderRow O
  row_at now m o = record {
    order = o;
    region_id = m.region_id;
    scrape_run_id = m.scrape_run_id;
    scraped_at = now;
  }

  same_key-row_at :
      (now later : ℕ) (m : OrdersChunkMessage O) (o : O)
      → same_key order_id (row_at now m o) (row_at later m o) ≡ true
  same_key-row_at now later m o = ground (
    arith,
    nat_beq_iff (order_id o) (order_id o),
    Eq.beq_iff string_eq m.scrape_run_id m.scrape_run_id,
  )

  is_duplicate-row_at :
      (now later : ℕ) (m : OrdersChunkMessage O) (o : O) (rows : List (OrderRow O))
      → is_duplicate order_id (row_at now m o) rows ≡ is_duplicate order_id (row_at later m o) rows
  unfolding is_duplicate
  is_duplicate-row_at now later m o [] = refl
  is_duplicate-row_at now later m o (r ∷ rows) =
      ground (arith, is_duplicate-row_at now later m o rows)

  -- Every order of the list is in the rows.
  abbrev AllIn : OrdersChunkMessage O → List O → List (OrderRow O) → Type 0
  AllIn m [] rows = Unit
  AllIn m (o ∷ os) rows = (is_duplicate order_id (row_at 0 m o) rows ≡ true) × AllIn m os rows

  AllIn-insert :
      (m : OrdersChunkMessage O) (os : List O) (docs rows : List (OrderRow O))
      → AllIn m os rows
      → AllIn m os (insert_unordered order_id fine docs rows).1
  AllIn-insert m [] docs rows h = tt
  AllIn-insert m (o ∷ os) docs rows h =
      (is_duplicate-insert (row_at 0 m o) docs rows h.0, AllIn-insert m os docs rows h.1)

  -- After an insertion every document's key is there.
  insert-AllIn :
      (now : ℕ) (m : OrdersChunkMessage O) (os : List O) (rows : List (OrderRow O))
      → AllIn m os (insert_unordered order_id fine (map (row_at now m) os) rows).1
  unfolding insert_unordered
  insert-AllIn now m [] rows = tt
  insert-AllIn now m (o ∷ os) rows =
      let docs = map (row_at now m) os in
      elim (Bool-cases (is_duplicate order_id (row_at now m o) rows)) [
        | inl old ↦
            rw (old, insert_unordered)
              (
                is_duplicate-insert (row_at 0 m o) docs rows
                    (is_duplicate-row_at 0 now m o rows ∙ old),
                insert-AllIn now m os rows,
              )
        | inr new ↦
            rw (new, insert_unordered)
              (
                is_duplicate-insert (row_at 0 m o) docs (rows ++ row_at now m o ∷ []) (
                    ground (
                      arith,
                      is_duplicate-snoc (row_at 0 m o) (row_at now m o) rows,
                      same_key-row_at now 0 m o,
                    )),
                insert-AllIn now m os (rows ++ row_at now m o ∷ []),
              )
      ]

  -- What is there already is refused with the code of a duplicate, and nothing changes.
  insert-again :
      (later : ℕ) (m : OrdersChunkMessage O) (os : List O) (rows : List (OrderRow O))
      → AllIn m os rows
      → ((insert_unordered order_id fine (map (row_at later m) os) rows).1 ≡ rows)
        × (any_other (insert_unordered order_id fine (map (row_at later m) os) rows).0 ≡ false)
  unfolding insert_unordered any_other
  insert-again later m [] rows h = (refl, refl)
  insert-again later m (o ∷ os) rows h =
      let old : is_duplicate order_id (row_at later m o) rows ≡ true =
        is_duplicate-row_at later 0 m o rows ∙ h.0 in
      rw (old, insert_unordered) (insert-again later m os rows h.1)

  any_other-insert :
      (docs rows : List (OrderRow O))
      → any_other (insert_unordered order_id fine docs rows).0 ≡ false
  unfolding insert_unordered any_other
  any_other-insert [] rows = refl
  any_other-insert (x ∷ docs) rows = elim (Bool-cases (is_duplicate order_id x rows)) [
    | inl old ↦ rw (old, insert_unordered) (any_other-insert docs rows)
    | inr new ↦ rw (new, insert_unordered) (any_other-insert docs (rows ++ x ∷ []))
  ]

  -- Where MongoDB refuses nothing but duplicates, the first delivery of a chunk succeeds. A second
  -- delivery of it to the rows that the first one left, with whatever time of its own, succeeds with the
  -- same count and changes no row.
  pub apply_orders_chunk-redelivered :
      (now later : ℕ) (m : OrdersChunkMessage O) (rows : List (OrderRow O))
      → let first = apply_orders_chunk order_id fine now m rows in
        (first.0 ≡ ok (length m.orders))
        × (apply_orders_chunk order_id fine later m first.1 ≡ (ok (length m.orders), first.1))
  unfolding apply_orders_chunk
  apply_orders_chunk-redelivered now later m rows =
      let rows₁ = (insert_unordered order_id fine (map (row_at now m) m.orders) rows).1 in
      let again = insert-again later m m.orders rows₁ (insert-AllIn now m m.orders rows) in
      (rw (any_other-insert (map (row_at now m) m.orders) rows) refl, rw (again.1, again.0) refl)

  -- No two rows have the same order and run.
  unfoldable pub all_distinct : List (OrderRow O) → Bool
  all_distinct [] = true
  all_distinct (r ∷ rows) = not (is_duplicate order_id r rows) && all_distinct rows

  all_distinct-snoc :
      (rows : List (OrderRow O)) (x : OrderRow O)
      → all_distinct (rows ++ x ∷ []) ≡ (all_distinct rows && not (is_duplicate order_id x rows))
  unfolding all_distinct is_duplicate
  all_distinct-snoc [] x = ground arith
  all_distinct-snoc (r ∷ rows) x = ground (
    arith,
    all_distinct-snoc rows x,
    is_duplicate-snoc r x rows,
    nat_beq_iff (order_id r.order) (order_id x.order),
    nat_beq_iff (order_id x.order) (order_id r.order),
    Eq.beq_iff string_eq r.scrape_run_id x.scrape_run_id,
    Eq.beq_iff string_eq x.scrape_run_id r.scrape_run_id,
  )

  insert-all_distinct :
      (refused : OrderRow O → Option ℕ) (docs rows : List (OrderRow O))
      → all_distinct rows ≡ true
      → all_distinct (insert_unordered order_id refused docs rows).1 ≡ true
  unfolding insert_unordered
  insert-all_distinct refused [] rows h = h
  insert-all_distinct refused (x ∷ docs) rows h =
      elim (Option-cases (if is_duplicate order_id x rows then some 11000 else refused x)) [
        | inl inserted ↦
            rw (inserted, insert_unordered)
              (insert-all_distinct refused docs (rows ++ x ∷ [])
                (ground (arith, all_distinct-snoc rows x, inserted, h)))
        | inr (code, failed) ↦
            rw (failed, insert_unordered) (insert-all_distinct refused docs rows h)
      ]

  -- Whatever MongoDB refuses: a chunk never makes two rows of the same order in the same run.
  pub apply_orders_chunk-all_distinct :
      (refused : OrderRow O → Option ℕ) (now : ℕ) (m : OrdersChunkMessage O)
      (rows : List (OrderRow O))
      → all_distinct rows ≡ true
      → all_distinct (apply_orders_chunk order_id refused now m rows).1 ≡ true
  unfolding apply_orders_chunk
  apply_orders_chunk-all_distinct refused now m rows h =
      insert-all_distinct refused (docs_of now m) rows h
