-- ===== src/Migrations/Schematics/Batches.antt =====
-- The replacement of a collection in batches: documents with different ids all arrive.
use mathlib.Core.List.{append-nil, append_assoc}
use aobp.Prelude.{
  ℕ, ◌≤◌, ◌≡◌, refl, sym, ap, ◌∙◌, true, false, ◌||◌, List, [], ◌∷◌, ◌++◌, arith, nat_eq,
  nat_beq_iff, length,
}
use aobp.Result.{ok}
use aobp.Dict.{Dict, get, has}
use aobp.Dict.Distinct.{distinct}
use aobp.Cache.{is_empty}
use aobp.MarketOrders.{chunks_from}
use aobp.MarketOrders.Chunks.{joined, joined-chunks_from}
use aobp.Migrations.Schematics.{insert_many, insert_batches, replace_all}

module _ {ℓ} {D : Type ℓ} where
  has-append : (k : ℕ) (a b : Dict ℕ D) → has k (a ++ b) ≡ (has k a || has k b)
  unfolding get
  has-append k [] b = refl
  has-append k ((j, v) ∷ a) b = ground (arith, has-append k a b)

  distinct-fresh :
      (k : ℕ) (v : D) (a b : Dict ℕ D) → distinct (a ++ (k, v) ∷ b) ≡ true → has k a ≡ false
  unfolding distinct get
  distinct-fresh k v [] b h = refl
  distinct-fresh k v ((j, w) ∷ a) b h =
      ground (
        arith,
        distinct-fresh k v a b,
        has-append j a ((k, v) ∷ b),
        nat_beq_iff j k,
        nat_beq_iff k j,
      )

  insert_many-new :
      (batch collection : Dict ℕ D)
      → distinct (collection ++ batch) ≡ true
      → insert_many batch collection ≡ (false, collection ++ batch)
  unfolding insert_many
  insert_many-new [] collection h = ap (λ c. (false, c)) (sym (append-nil collection))
  insert_many-new ((id, document) ∷ batch) collection h =
      let shift = append_assoc collection ((id, document) ∷ []) batch in
      rw (distinct-fresh id document collection batch h) (
        insert_many-new batch (collection ++ (id, document) ∷ []) (ap distinct shift ∙ h)
        ∙ ap (λ c. (false, c)) shift)

  distinct-left : (a b : Dict ℕ D) → distinct (a ++ b) ≡ true → distinct a ≡ true
  unfolding distinct
  distinct-left [] b h = refl
  distinct-left ((j, v) ∷ a) b h = ground (arith, distinct-left a b, has-append j a b, h)

  insert_batches-new :
      (batches : List (Dict ℕ D)) (collection : Dict ℕ D)
      → distinct (collection ++ joined batches) ≡ true
      → insert_batches batches collection ≡ (ok tt, collection ++ joined batches)
  unfolding insert_batches joined is_empty
  insert_batches-new [] collection h = ap (λ c. (ok tt, c)) (sym (append-nil collection))
  insert_batches-new ([] ∷ batches) collection h = insert_batches-new batches collection h
  insert_batches-new ((x ∷ b) ∷ batches) collection h =
      let batch = x ∷ b in
      let shift = append_assoc collection batch (joined batches) in
      let h' = ap distinct shift ∙ h in
      rw
        (insert_many-new batch collection (distinct-left (collection ++ batch) (joined batches) h'))
        (insert_batches-new batches (collection ++ batch) h' ∙ ap (λ c. (ok tt, c)) shift)

  -- Documents with different ids replace the collection, in whichever batches.
  pub replace_all-eq :
      (batch_size : ℕ) (documents collection : Dict ℕ D)
      → 1 ≤ batch_size
      → distinct documents ≡ true
      → replace_all batch_size documents collection ≡ (ok tt, documents)
  unfolding replace_all
  replace_all-eq batch_size documents collection p h =
      let whole = joined-chunks_from batch_size documents (length documents) 0 p (omega arith) in
      insert_batches-new (chunks_from batch_size documents (length documents) 0) []
        (ap distinct whole ∙ h)
      ∙ ap (λ c. (ok tt, c)) whole
