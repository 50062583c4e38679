-- ===== src/Locations/Lookup.antt =====
-- A lookup through the cache, the collection and ESI gives what ESI would answer, and stays so.
use mathlib.Core.Option.{some-injective}
use aobp.Prelude.{
  ℕ, ◌≡◌, refl, sym, ap, subst, ◌∙◌, String, true, Option, none, some, List, [], ◌∷◌, ◌++◌, map,
  arith, if◌then◌else◌, nat_eq, string_eq, nat_beq_iff, member, All, Bool-cases, Option-cases, inl,
  inr,
}
use aobp.Result.{Result, ok}
use aobp.Text.{cache_key}
use aobp.Text.Keys.{cache_key-injective}
use aobp.Dict.{Dict, get, put, update, get-put, get-put_all}
use aobp.Dict.Select.{select, get-select, get-update-select}
use aobp.Cache.{Cache, is_empty, get_many_cached}
use aobp.Cache.Transparent.{
  Stores, set_many_cached-Stores, get_many_cached-Stores, get_many_cached-sound,
}
use aobp.Sde.{missing}
use aobp.Sde.ReadThrough.{member-missing}
use aobp.Locations.{
  Shelf, Format, and_then, on_some, keep_resolved, ask_rest, read_collection, resolve,
}

module _ {ℓ κ μ} {V : Type ℓ} {D : Type κ} {R : Type μ} (format : Format V D R)
    (truth : ℕ → R) where
  -- What is kept under an id is what ESI answers for it.
  abbrev pub IsTrue : ℕ → V → Type μ
  IsTrue id v = format.of_cached v ≡ truth id

  abbrev TrueKey : String → V → Type μ
  TrueKey k v = (id : ℕ) → k ≡ cache_key format.prefix id → IsTrue id v

  abbrev TrueDoc : ℕ → D → Type (ℓ ⊔ μ)
  TrueDoc id d = (v : V) → format.readable d ≡ some v → IsTrue id v

  abbrev pub Agrees : Dict ℕ D → Cache V → Type (ℓ ⊔ κ ⊔ μ)
  Agrees collection cache =
      ((id : ℕ) (d : D) → get id collection ≡ some d → TrueDoc id d) × Stores TrueKey cache

  -- What has been resolved so far.
  abbrev Partial : List ℕ → Dict ℕ R → Type μ
  Partial ids resolved =
      (id : ℕ) (r : R) → get id resolved ≡ some r → (member id ids ≡ true) × (r ≡ truth id)

  -- The result has the answer for every id that was asked for, and nothing else.
  abbrev pub IsResolved : List ℕ → Dict ℕ R → Type μ
  IsResolved ids res = (id : ℕ) → get id res ≡ (if member id ids then some (truth id) else none)

  TrueKey-cache_key : (id : ℕ) (v : V) → IsTrue id v → TrueKey (cache_key format.prefix id) v
  TrueKey-cache_key id v h i e =
      subst (λ j. IsTrue j v) (cache_key-injective format.prefix id i e) h

  module _ (ttl : ℕ) (fetch : ℕ → Result R)
      (kept : (r : R) (v : V) → format.to_cached r ≡ some v → format.of_cached v ≡ r)
      (read : (v : V) → format.readable (format.document v) ≡ some v)
      (answers : (id : ℕ) → fetch id ≡ ok (truth id)) where
    keep_resolved-Agrees :
        (id : ℕ) (s : Shelf V D)
        → Agrees s.collection s.cache
        → let s' = keep_resolved format ttl fetch id (truth id) s in Agrees s'.collection s'.cache
    unfolding keep_resolved
    keep_resolved-Agrees id s h = elim (Option-cases (format.to_cached (truth id))) [
      | inl dropped ↦ rw (dropped, keep_resolved) h
      | inr (v, e) ↦
          let true_ : IsTrue id v = kept (truth id) v e in
          rw (e, keep_resolved)
            (
              get-put_all TrueDoc id (format.document v) s.collection
                  (λ w f.
                    let same : v ≡ w = some-injective v w (sym (read v) ∙ f) in
                    subst (IsTrue id) same true_)
                  h.0,
              set_many_cached-Stores TrueKey s.cache ((cache_key format.prefix id, v) ∷ []) ttl
                  (TrueKey-cache_key id v true_, tt) h.1,
            )
    ]

    ask_rest-IsResolved :
        (ids : List ℕ) (resolved : Dict ℕ R) (s : Shelf V D)
        → Agrees s.collection s.cache
        → (res : Dict ℕ R) × ((ask_rest format ttl fetch ids resolved s).0 ≡ ok res)
          × ((id : ℕ) → get id res ≡ (if member id ids then some (truth id) else get id resolved))
          × (let s' = (ask_rest format ttl fetch ids resolved s).1 in Agrees s'.collection s'.cache)
    unfolding ask_rest member
    ask_rest-IsResolved [] resolved s h = (resolved, refl, λ id. refl, h)
    ask_rest-IsResolved (j ∷ ids) resolved s h =
        let asked : Shelf V D = record s { asked = s.asked ++ j ∷ [] } in
        let (res, e, all, h') =
          ask_rest-IsResolved ids (put j (truth j) resolved)
            (keep_resolved format ttl fetch j (truth j) asked) (keep_resolved-Agrees j asked h) in
        rw (answers j, ask_rest)
          (
            res,
            e,
            (λ id. ground (
              arith,
              all id,
              get-put j id (truth j) resolved,
              nat_beq_iff j id,
              ap truth {x = j} {y = id},
            )),
            h',
          )

  abbrev FindsTrue : (ℕ → Option V) → Type (ℓ ⊔ μ)
  FindsTrue find = (id : ℕ) (v : V) → find id ≡ some v → IsTrue id v

  items-TrueKey :
      (find : ℕ → Option V)
      → FindsTrue find
      → (ids : List ℕ)
      → All {A = String × V}
          (λ item. TrueKey item.0 item.1)
          (map (λ e. (cache_key format.prefix e.0, e.1)) (select find ids))
  unfolding select
  items-TrueKey find true_ [] = tt
  items-TrueKey find true_ (j ∷ ids) = elim (Option-cases (find j)) [
    | inl absent ↦ rw (absent, select, All, map) (items-TrueKey find true_ ids)
    | inr (v, present) ↦
        rw (present, select, All, map)
          (TrueKey-cache_key j v (true_ j v present), items-TrueKey find true_ ids)
  ]

  update-Partial :
      (find : ℕ → Option V)
      → FindsTrue find
      → (remaining ids : List ℕ) (resolved : Dict ℕ R)
      → ((id : ℕ) → member id remaining ≡ true → member id ids ≡ true)
      → Partial ids resolved
      → Partial ids (update resolved (select (λ id. on_some format.of_cached (find id)) remaining))
  update-Partial find true_ remaining ids resolved within partial id r e =
      let g : ℕ → Option R = λ i. on_some format.of_cached (find i) in
      let u = get-update-select g id remaining resolved in
      elim (Option-cases (find id)) [
        | inl absent ↦ partial id r (ground (arith, u, e, absent))
        | inr (v, present) ↦ elim (Bool-cases (member id remaining)) [
          | inl asked ↦
              let same : r ≡ format.of_cached v = ground (arith, u, e, present, asked) in
              (within id asked, same ∙ true_ id v present)
          | inr other ↦ partial id r (ground (arith, u, e, present, other))
        ]
      ]

  collection-FindsTrue :
      (collection : Dict ℕ D) (cache : Cache V)
      → Agrees collection cache
      → FindsTrue (λ id. and_then (get id collection) format.readable)
  collection-FindsTrue collection cache h id v e = elim (Option-cases (get id collection)) [
    | inl absent ↦ absurd (ground (arith, e, absent))
    | inr (d, present) ↦ h.0 id d present v (ground (arith, e, present))
  ]

  -- The first phase: the cache's answers, completed from the collection.
  read_collection-Agrees :
      (ttl : ℕ) (fetch : ℕ → Result R) (remaining ids : List ℕ) (resolved : Dict ℕ R)
      (s : Shelf V D)
      → ((id : ℕ) → member id remaining ≡ true → member id ids ≡ true)
      → Partial ids resolved
      → Agrees s.collection s.cache
      → let r = read_collection format ttl fetch remaining resolved s in
        Partial ids r.0 × Agrees r.1.collection r.1.cache
  unfolding read_collection
  read_collection-Agrees ttl fetch remaining ids resolved s within partial h =
      let find : ℕ → Option V = λ id. and_then (get id s.collection) format.readable in
      let finds : FindsTrue find = collection-FindsTrue s.collection s.cache h in
      elim (Bool-cases (is_empty remaining)) [
        | inl none_left ↦ rw (none_left, read_collection) (partial, h)
        | inr some_left ↦
            rw (some_left, read_collection)
              (
                update-Partial find finds remaining ids resolved within partial,
                (
                  h.0,
                  set_many_cached-Stores TrueKey s.cache
                      (map (λ e. (cache_key format.prefix e.0, e.1)) (select find remaining)) ttl
                      (items-TrueKey find finds remaining) h.1,
                ),
              )
      ]

  cache-Partial :
      (ids : List ℕ) (cache : Cache V)
      → Stores TrueKey cache
      → let cached = (get_many_cached cache (map (cache_key format.prefix) ids)).0 in
        Partial ids
          (select (λ id. on_some format.of_cached (get (cache_key format.prefix id) cached)) ids)
  cache-Partial ids cache h id r e =
      let doc_keys = map (cache_key format.prefix) ids in
      let cached = (get_many_cached cache doc_keys).0 in
      let find : ℕ → Option R =
        λ i. on_some format.of_cached (get (cache_key format.prefix i) cached) in
      let u = get-select find id ids in
      elim (Option-cases (get (cache_key format.prefix id) cached)) [
        | inl absent ↦ absurd (ground (arith, u, e, absent))
        | inr (v, present) ↦
            let same : r ≡ format.of_cached v = ground (arith, u, e, present) in
            let asked : member id ids ≡ true = ground (arith, u, e) in
            let true_ =
              get_many_cached-sound TrueKey cache doc_keys (cache_key format.prefix id) v h present
                id refl in
            (asked, same ∙ true_)
      ]

  -- If ESI answers every id, and the collection and the cache hold only what ESI answers, then the
  -- lookup returns, for exactly the ids that were asked for, what ESI answers, whether Redis is
  -- disabled, failing, empty or filled; and the collection and the cache stay so.
  pub resolve-IsResolved :
      (ttl : ℕ) (fetch : ℕ → Result R)
      → ((r : R) (v : V) → format.to_cached r ≡ some v → format.of_cached v ≡ r)
      → ((v : V) → format.readable (format.document v) ≡ some v)
      → ((id : ℕ) → fetch id ≡ ok (truth id))
      → (ids : List ℕ) (s : Shelf V D) → Agrees s.collection s.cache
      → let after = resolve format ttl fetch ids s in
        (res : Dict ℕ R) × (after.0 ≡ ok res)
        × IsResolved ids res
        × Agrees after.1.collection after.1.cache
  unfolding resolve
  resolve-IsResolved ttl fetch kept read answers ids s h =
      let doc_keys = map (cache_key format.prefix) ids in
      let cached = (get_many_cached s.cache doc_keys).0 in
      let resolved =
        select (λ id. on_some format.of_cached (get (cache_key format.prefix id) cached)) ids in
      let s₁ : Shelf V D = record s { cache = (get_many_cached s.cache doc_keys).1 } in
      let h₁ : Agrees s₁.collection s₁.cache =
        (h.0, get_many_cached-Stores TrueKey s.cache doc_keys h.1) in
      let after = read_collection format ttl fetch (missing ids resolved) resolved s₁ in
      let (partial, h₂) =
        read_collection-Agrees ttl fetch (missing ids resolved) ids resolved s₁
          (λ id m. ground (arith, m, member-missing id ids resolved))
          (cache-Partial ids s.cache h.1) h₁ in
      let (res, e, all, h₃) =
        ask_rest-IsResolved ttl fetch kept read answers (missing ids after.0) after.0 after.1 h₂ in
      (
        res,
        e,
        (λ id. elim (Option-cases (get id after.0)) [
          | inl absent ↦ ground (arith, all id, absent, member-missing id ids after.0)
          | inr (r, present) ↦ ground (
            arith,
            all id,
            present,
            member-missing id ids after.0,
            (partial id r present).0,
            (partial id r present).1,
          )
        ]),
        h₃,
      )
