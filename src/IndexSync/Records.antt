-- ===== src/IndexSync/Records.antt =====
-- What `_index_config` records when a synchronisation of app/db/index_sync.py has ended well.
use aobp.Prelude.{
  ◌≡◌, String, true, ◌&&◌, ◌||◌, not, Option, List, [], ◌∷◌, map, arith, string_eq, Eq, member, inl,
  inr,
}
use aobp.Result.{ok, Error, Result-cases}
use aobp.Dict.{Dict, get, has, remove, get-put, get-remove, beq_refl}
use aobp.IndexSync.{
  Index, State, record_id, drop_index_if_exists, sync_index, sync_each, drop_unmanaged,
  sync_desired,
}

module _ {S : Type 0} where
  pub has-drop_unmanaged :
      (ids : List String) (items : Dict String (Index S)) (st : State S) (j : String)
      → has j (drop_unmanaged ids items st).records
        ≡ (has j st.records && (member j ids || not (has j items)))
  unfolding drop_unmanaged get drop_index_if_exists
  has-drop_unmanaged ids [] st j = ground arith
  has-drop_unmanaged ids ((id, index) ∷ items) st j = ground (
    arith,
    has-drop_unmanaged ids items st j,
    has-drop_unmanaged ids items
        (let st' = drop_index_if_exists id st in record st' { records = remove id st'.records }) j,
    get-remove id j st.records,
    string_eq.beq_iff id j,
    beq_refl j,
  )

module _ {S : Type 0} ⦃e : Eq S⦄ where
  -- A step keeps every record, and records its own index when it ends well.
  pub has-sync_index :
      (broken : String → Option Error) (index : Index S) (st : State S) (j : String)
      → has j st.records ≡ true
      → has j (sync_index broken index st).1.records ≡ true
  unfolding sync_index drop_index_if_exists
  has-sync_index broken index st j h = ground (arith, get-put (record_id index) j index st.records)

  sync_index-has :
      (broken : String → Option Error) (index : Index S) (st : State S)
      → (sync_index broken index st).0 ≡ ok tt
      → has (record_id index) (sync_index broken index st).1.records ≡ true
  unfolding sync_index drop_index_if_exists
  sync_index-has broken index st h = ground (
    arith,
    get-put (record_id index) (record_id index) index st.records,
    beq_refl (record_id index),
  )

  has-sync_each :
      (broken : String → Option Error) (desired : List (Index S)) (st : State S) (j : String)
      → has j st.records ≡ true
      → has j (sync_each broken desired st).1.records ≡ true
  unfolding sync_each
  has-sync_each broken [] st j h = h
  has-sync_each broken (index ∷ desired) st j h =
      let rest = has-sync_each broken desired (sync_index broken index st).1 j in
      ground (arith, rest, has-sync_index broken index st j h)

  sync_each-has :
      (broken : String → Option Error) (desired : List (Index S)) (st : State S) (j : String)
      → (sync_each broken desired st).0 ≡ ok tt
      → member j (map record_id desired) ≡ true
      → has j (sync_each broken desired st).1.records ≡ true
  unfolding sync_each member
  sync_each-has broken [] st j h m = ground arith
  sync_each-has broken (index ∷ desired) st j h m =
      let st₁ = (sync_index broken index st).1 in
      elim (Result-cases (sync_index broken index st).0) [
        | inr (error, failed) ↦ ground (arith, failed, h)
        | inl (u, done) ↦ ground (
          arith,
          done,
          sync_index-has broken index st done,
          has-sync_each broken desired st₁ j,
          sync_each-has broken desired st₁ j,
          string_eq.beq_iff (record_id index) j,
        )
      ]

  -- When a synchronisation has ended well, exactly the wanted indexes are recorded.
  pub has-sync_desired :
      (broken : String → Option Error) (desired : List (Index S)) (st : State S)
      → (sync_desired broken desired st).0 ≡ ok tt
      → (j : String)
      → has j (sync_desired broken desired st).1.records ≡ member j (map record_id desired)
  unfolding sync_desired
  has-sync_desired broken desired st h j =
      let ids = map record_id desired in
      let st₁ = (sync_each broken desired st).1 in
      elim (Result-cases (sync_each broken desired st).0) [
        | inr (error, failed) ↦ ground (arith, failed, h)
        | inl (u, done) ↦ ground (
          arith,
          done,
          has-drop_unmanaged ids st₁.records st₁ j,
          sync_each-has broken desired st j done,
        )
      ]
