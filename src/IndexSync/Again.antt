-- ===== src/IndexSync/Again.antt =====
-- A second synchronisation of app/db/index_sync.py, after one that ended well.
use aobp.Prelude.{
  ◌≡◌, refl, sym, ◌∙◌, String, Bool, true, false, ◌&&◌, not, Option, none, some, List, [], ◌∷◌, map,
  arith, string_eq, Eq, ◌==◌, member, inl, inr,
}
use aobp.Result.{ok, Error, Result-cases}
use aobp.Dict.{Dict, get, has, remove, get-put, get-remove, beq_refl}
use aobp.IndexSync.{
  Index, State, record_id, drop_index_if_exists, sync_index, sync_each, drop_unmanaged,
  sync_desired,
}
use aobp.IndexSync.Records.{has-sync_desired}

-- No id stands twice in the list.
unfoldable pub all_different : List String → Bool
all_different [] = true
all_different (id ∷ ids) = not (member id ids) && all_different ids

module _ {S : Type 0} where
  get-drop_unmanaged :
      (ids : List String) (items : Dict String (Index S)) (st : State S) (j : String)
      → member j ids ≡ true
      → get j (drop_unmanaged ids items st).records ≡ get j st.records
  unfolding drop_unmanaged drop_index_if_exists
  get-drop_unmanaged ids [] st j h = refl
  get-drop_unmanaged ids ((id, index) ∷ items) st j h = ground (
    arith,
    get-drop_unmanaged ids items st j h,
    get-drop_unmanaged ids items
        (let st' = drop_index_if_exists id st in record st' { records = remove id st'.records }) j
        h,
    get-remove id j st.records,
    string_eq.beq_iff id j,
    h,
  )

  drop_unmanaged-nothing :
      (ids : List String) (items : Dict String (Index S)) (st : State S)
      → ((j : String) → has j items ≡ true → member j ids ≡ true)
      → drop_unmanaged ids items st ≡ st
  unfolding drop_unmanaged get
  drop_unmanaged-nothing ids [] st h = refl
  drop_unmanaged-nothing ids ((id, index) ∷ items) st h = ground (
    arith,
    h id,
    beq_refl id,
    drop_unmanaged-nothing ids items st (λ j k. ground (arith, h j, k)),
  )

module _ {S : Type 0} ⦃e : Eq S⦄ where
  -- The record of this index has its specification.
  unfoldable is_recorded : Dict String (Index S) → Index S → Bool
  is_recorded records index = elim (get (record_id index) records) [
    | none ↦ false
    | some existing ↦ Index.spec existing == index.spec
  ]

  unfoldable all_recorded : Dict String (Index S) → List (Index S) → Bool
  all_recorded records [] = true
  all_recorded records (index ∷ desired) = is_recorded records index && all_recorded records desired

  sync_each-recorded :
      (broken : String → Option Error) (desired : List (Index S)) (st : State S)
      → all_recorded st.records desired ≡ true
      → sync_each broken desired st ≡ (ok tt, st)
  unfolding all_recorded is_recorded sync_each sync_index
  sync_each-recorded broken [] st h = refl
  sync_each-recorded broken (index ∷ desired) st h =
      ground (arith, h, sync_each-recorded broken desired st)

  -- A step leaves the other indexes' records.
  get-sync_index :
      (broken : String → Option Error) (index : Index S) (st : State S) (j : String)
      → (record_id index == j) ≡ false
      → get j (sync_index broken index st).1.records ≡ get j st.records
  unfolding sync_index drop_index_if_exists
  get-sync_index broken index st j h =
      ground (arith, h, get-put (record_id index) j index st.records)

  get-sync_each :
      (broken : String → Option Error) (desired : List (Index S)) (st : State S) (j : String)
      → member j (map record_id desired) ≡ false
      → get j (sync_each broken desired st).1.records ≡ get j st.records
  unfolding sync_each member
  get-sync_each broken [] st j h = refl
  get-sync_each broken (index ∷ desired) st j h = ground (
    arith,
    h,
    get-sync_index broken index st j,
    get-sync_each broken desired (sync_index broken index st).1 j,
    string_eq.beq_iff (record_id index) j,
  )

  sync_index-recorded :
      (broken : String → Option Error) (index : Index S) (st : State S)
      → (sync_index broken index st).0 ≡ ok tt
      → is_recorded (sync_index broken index st).1.records index ≡ true
  unfolding is_recorded sync_index drop_index_if_exists
  sync_index-recorded broken index st h = ground (
    arith,
    h,
    get-put (record_id index) (record_id index) index st.records,
    beq_refl (record_id index),
    beq_refl index.spec,
  )

  all_recorded-sync_each :
      (broken : String → Option Error) (desired : List (Index S)) (st : State S)
      → all_different (map record_id desired) ≡ true
      → (sync_each broken desired st).0 ≡ ok tt
      → all_recorded (sync_each broken desired st).1.records desired ≡ true
  unfolding all_recorded is_recorded sync_each all_different
  all_recorded-sync_each broken [] st distinct h = refl
  all_recorded-sync_each broken (index ∷ desired) st distinct h =
      let st₁ = (sync_index broken index st).1 in
      elim (Result-cases (sync_index broken index st).0) [
        | inr (error, failed) ↦ ground (arith, failed, h)
        | inl (u, done) ↦ ground (
          arith,
          done,
          h,
          distinct,
          sync_index-recorded broken index st done,
          get-sync_each broken desired st₁ (record_id index),
          all_recorded-sync_each broken desired st₁,
        )
      ]

  all_recorded-drop_unmanaged :
      (ids : List String) (items : Dict String (Index S)) (st : State S) (desired : List (Index S))
      → ((j : String) → member j (map record_id desired) ≡ true → member j ids ≡ true)
      → all_recorded (drop_unmanaged ids items st).records desired ≡ all_recorded st.records desired
  unfolding all_recorded is_recorded member
  all_recorded-drop_unmanaged ids items st [] h = refl
  all_recorded-drop_unmanaged ids items st (index ∷ desired) h = ground (
    arith,
    beq_refl (record_id index),
    h (record_id index),
    get-drop_unmanaged ids items st (record_id index),
    all_recorded-drop_unmanaged ids items st desired (λ j k. ground (arith, h j, k)),
  )

  -- When a synchronisation with different ids has ended well, the next one with the same
  -- configuration ends well, whatever could not be built then, and changes nothing: no index is
  -- dropped or built.
  pub sync_desired-again :
      (broken broken' : String → Option Error) (desired : List (Index S)) (st : State S)
      → all_different (map record_id desired) ≡ true
      → (sync_desired broken desired st).0 ≡ ok tt
      → let st' = (sync_desired broken desired st).1 in
        sync_desired broken' desired st' ≡ (ok tt, st')
  unfolding sync_desired
  sync_desired-again broken broken' desired st distinct h =
      let ids = map record_id desired in
      let st₁ = (sync_each broken desired st).1 in
      let st' = (sync_desired broken desired st).1 in
      elim (Result-cases (sync_each broken desired st).0) [
        | inr (error, failed) ↦ ground (arith, failed, h)
        | inl (u, done) ↦
            let recorded : all_recorded st'.records desired ≡ true = ground (
              arith,
              done,
              all_recorded-sync_each broken desired st distinct done,
              all_recorded-drop_unmanaged ids st₁.records st₁ desired (λ j k. k),
            ) in
            let nothing : drop_unmanaged ids st'.records st' ≡ st' =
              drop_unmanaged-nothing ids st'.records st'
                (λ j k. sym (has-sync_desired broken desired st h j) ∙ k) in
            ground (arith, nothing, sync_each-recorded broken' desired st' recorded)
      ]
