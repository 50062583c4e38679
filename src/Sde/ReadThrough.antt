-- ===== src/Sde/ReadThrough.antt =====
-- Reading through the cache gives what the collection holds, whatever Redis does.
use aobp.Prelude.{
  ℕ, ◌≡◌, refl, ap, subst, String, true, false, Option, none, some, List, [], ◌∷◌, map,
  if◌then◌else◌, arith, nat_eq, string_eq, nat_beq_iff, member, Bool-cases, Option-cases, inl, inr,
  All, is_some, keep,
}
use aobp.Text.{cache_key}
use aobp.Text.Keys.{cache_key-injective}
use aobp.Dict.{Dict, get, update}
use aobp.Dict.Select.{select, get-select, get-update-select}
use aobp.Cache.{Cache, is_empty, get_many_cached}
use aobp.Cache.Transparent.{
  Stores, set_many_cached-Stores, get_many_cached-Stores, get_many_cached-sound,
}
use aobp.Sde.{found_by_id, missing, keyed, cached_docs_by_id}

module _ {ℓ} {V : Type ℓ} where
  -- The missing ids are those that were asked for and not found.
  pub member-missing :
      (id : ℕ) (ids : List ℕ) (found : Dict ℕ V)
      → member id (missing ids found) ≡ (if is_some (get id found) then false else member id ids)
  unfolding missing keep member
  member-missing id [] found = ground arith
  member-missing id (j ∷ ids) found =
      ground (
        arith,
        nat_beq_iff j id,
        ap (λ k. get k found) {x = j} {y = id},
        member-missing id ids found,
      )

module _ {ℓ} {V : Type ℓ} (collection : ℕ → Option V) (key_prefix : String) where
  -- The entries of this prefix hold the collection's documents. Entries of other prefixes are free.
  abbrev pub Agrees : String → V → Type ℓ
  Agrees k v = (id : ℕ) → k ≡ cache_key key_prefix id → collection id ≡ some v

  keyed-Agrees :
      (ids : List ℕ) → All (λ item. Agrees item.0 item.1) (keyed key_prefix (select collection ids))
  unfolding keyed select
  keyed-Agrees [] = tt
  keyed-Agrees (j ∷ ids) = elim (Option-cases (collection j)) [
    | inl absent ↦ rw (absent, keyed, select, All, map) (keyed-Agrees ids)
    | inr (v, present) ↦
        rw (present, keyed, select, All, map)
          (
            (λ id e.
                subst (λ i. collection i ≡ some v) (cache_key-injective key_prefix j id e) present),
            keyed-Agrees ids,
          )
  ]

  -- The documents found, completed by those of the missing ids.
  completed :
      (ids : List ℕ) (found : Dict ℕ V) (id : ℕ)
      → ((v : V) → get id found ≡ some v → (member id ids ≡ true) × (collection id ≡ some v))
      → get id (update found (select collection (missing ids found)))
        ≡ (if member id ids then collection id else none)
  completed ids found id h = elim (Option-cases (get id found)) [
    | inl absent ↦ ground (
      arith,
      absent,
      get-update-select collection id (missing ids found) found,
      member-missing id ids found,
    )
    | inr (v, present) ↦ ground (
      arith,
      present,
      h v present,
      get-update-select collection id (missing ids found) found,
      member-missing id ids found,
    )
  ]

  update-is_empty :
      (ids : List ℕ) (found : Dict ℕ V)
      → is_empty ids ≡ true
      → update found (select collection ids) ≡ found
  unfolding update select is_empty
  update-is_empty [] found e = refl
  update-is_empty (id ∷ ids) found e = absurd (ground (arith, e))

  found_sound :
      (ids : List ℕ) (cache : Cache V)
      → Stores Agrees cache
      → (id : ℕ) (v : V)
      → get id
          (found_by_id key_prefix (get_many_cached cache (map (cache_key key_prefix) ids)).0 ids)
        ≡ some v
      → (member id ids ≡ true) × (collection id ≡ some v)
  unfolding found_by_id
  found_sound ids cache agree id v h =
      let doc_keys = map (cache_key key_prefix) ids in
      let cached = (get_many_cached cache doc_keys).0 in
      let find : ℕ → Option V = λ doc_id. get (cache_key key_prefix doc_id) cached in
      let e = get-select find id ids in
      let asked : member id ids ≡ true = ground (arith, e, h) in
      let hit : find id ≡ some v = ground (arith, e, h) in
      (
        asked,
        get_many_cached-sound Agrees cache doc_keys (cache_key key_prefix id) v agree hit id refl,
      )

  module _ (ttl : ℕ) (ids : List ℕ) (cache : Cache V) (agree : Stores Agrees cache) where
    -- If the cache's entries of this prefix hold documents of the collection, then the result holds,
    -- for each id that was asked for, exactly the collection's document, and nothing else: whether
    -- Redis is disabled, failing, empty or filled makes no difference.
    pub cached_docs_by_id-eq-collection :
        (id : ℕ)
        → get id (cached_docs_by_id collection ttl key_prefix ids cache).0
          ≡ (if member id ids then collection id else none)
    unfolding cached_docs_by_id
    cached_docs_by_id-eq-collection id =
        let doc_keys = map (cache_key key_prefix) ids in
        let cached = (get_many_cached cache doc_keys).0 in
        let found = found_by_id key_prefix cached ids in
        let sound : (v : V)
            → get id found ≡ some v
            → (member id ids ≡ true) × (collection id ≡ some v) =
          found_sound ids cache agree id in
        let whole = completed ids found id sound in
        elim (Bool-cases (is_empty (missing ids found))) [
          | inl e ↦
              rw (e, cached_docs_by_id) (rw (update-is_empty (missing ids found) found e) at whole)
          | inr e ↦ rw (e, cached_docs_by_id) whole
        ]

    -- If the cache's entries of this prefix hold documents of the collection, they still do so after
    -- the read, where a write to Redis fails half-way as well.
    pub cached_docs_by_id-Stores :
        Stores Agrees (cached_docs_by_id collection ttl key_prefix ids cache).1
    unfolding cached_docs_by_id
    cached_docs_by_id-Stores =
        let doc_keys = map (cache_key key_prefix) ids in
        let cached = (get_many_cached cache doc_keys).0 in
        let found = found_by_id key_prefix cached ids in
        let read = get_many_cached-Stores Agrees cache doc_keys agree in
        elim (Bool-cases (is_empty (missing ids found))) [
          | inl e ↦ rw (e, cached_docs_by_id) read
          | inr e ↦
              rw (e, cached_docs_by_id)
                (set_many_cached-Stores Agrees (get_many_cached cache doc_keys).1
                  (keyed key_prefix (select collection (missing ids found))) ttl
                  (keyed-Agrees (missing ids found)) read)
        ]
