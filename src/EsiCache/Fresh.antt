-- ===== src/EsiCache/Fresh.antt =====
-- When esi_cache.py asks ESI again, with a Redis that answers.
use aobp.Prelude.{
  ℕ, suc, ◌≡◌, refl, sym, ap, ◌∙◌, String, true, Option, none, some, List, [], ◌∷◌, map, nat_eq,
  string_eq, arith, Option-cases, inl, inr, member,
}
use aobp.Result.{Result, ok, raise}
use aobp.Text.{cache_key}
use aobp.Cache.Transparent.{entries-get_many_cached}
use aobp.Dict.{Dict, get, get-put, get-remove, beq_refl}
use aobp.Dict.Select.{get-select}
use aobp.Cache.{
  Cache, is_empty, stored, get_many_cached, set_many_cached, set_all, delete_cached, remove_all,
}
use aobp.EsiCache.{
  Owner, owner_id, Store, EntryType, delete_many, insert_many, invalidate_list, revive,
  cached_entries, save_entries, cached_list,
}

-- Redis is configured and none of its commands fails.
pub record IsUp {ℓ} {V : Type ℓ} (c : Cache V) : Type 0 where
  pub enabled : c.enabled ≡ true
  pub fine : (n : ℕ) → c.fault n ≡ none

module _ {ℓ} {V : Type ℓ} where
  get_many_cached-IsUp : (c : Cache V) (ks : List String) → IsUp c → IsUp (get_many_cached c ks).1
  unfolding get_many_cached
  get_many_cached-IsUp c ks up = record {
    enabled = ground (arith, up.enabled, up.fine c.calls);
    fine = λ n. ground (arith, up.enabled, up.fine c.calls, up.fine n);
  }

  -- What Redis answers for one key.
  get_one :
      (c : Cache V) (k : String)
      → IsUp c
      → get k (get_many_cached c (k ∷ [])).0 ≡ stored c.entries k
  unfolding get_many_cached member is_empty
  get_one c k up =
      rw (up.enabled, up.fine c.calls, get_many_cached)
        (ground (arith, get-select (stored c.entries) k (k ∷ []), beq_refl k))

  stored-set_one :
      (c : Cache V) (k : String) (v : V) (ttl : ℕ)
      → IsUp c
      → stored (set_many_cached c ((k, v) ∷ []) ttl).entries k ≡ some v
  unfolding set_many_cached set_all stored is_empty
  stored-set_one c k v ttl up =
      ground (arith, up.enabled, up.fine c.calls, get-put k k (v, ttl) c.entries, beq_refl k)

  stored-delete_one :
      (c : Cache V) (k : String) → IsUp c → stored (delete_cached c (k ∷ [])).entries k ≡ none
  unfolding delete_cached remove_all stored is_empty
  stored-delete_one c k up =
      ground (arith, up.enabled, up.fine c.calls, get-remove k k c.entries, beq_refl k)

  set_many_cached-IsUp :
      (c : Cache V) (items : Dict String V) (ttl : ℕ) → IsUp c → IsUp (set_many_cached c items ttl)
  unfolding set_many_cached
  set_many_cached-IsUp c items ttl up = record {
    enabled = ground (arith, up.enabled, up.fine c.calls);
    fine = λ n. ground (arith, up.enabled, up.fine c.calls, up.fine n);
  }

  delete_cached-IsUp : (c : Cache V) (ks : List String) → IsUp c → IsUp (delete_cached c ks)
  unfolding delete_cached
  delete_cached-IsUp c ks up = record {
    enabled = ground (arith, up.enabled, up.fine c.calls);
    fine = λ n. ground (arith, up.enabled, up.fine c.calls, up.fine n);
  }

module _ {ℓ κ} {V : Type ℓ} {T : Type κ} (class : EntryType V T) where
  abbrev revive_held : Option (List V) → Option (List T)
  revive_held none = none
  revive_held (some dicts) = revive class dicts

  -- What the cache holds for a key, read back as entries.
  abbrev held : String → Cache (List V) → Option (List T)
  held key c = revive_held (stored c.entries key)

  answer-eq-held :
      (c : Cache (List V)) (key : String)
      → IsUp c
      → cached_entries class key (get_many_cached c (key ∷ [])).0 ≡ held key c
  unfolding cached_entries
  answer-eq-held c key up = ground (arith, get_one c key up)

  revive-map :
      ((t : T) → class.entry_type (class.asdict t) ≡ some t)
      → (ts : List T) → revive class (map class.asdict ts) ≡ some ts
  unfolding revive
  revive-map law [] = refl
  revive-map law (t ∷ ts) = ground (arith, law t, revive-map law ts)

  module _ (c prefix : String) (o : Owner) where
    abbrev key : String
    key = cache_key prefix (owner_id o)

    -- A hit returns what is held and changes counters only.
    cached_list-hit :
        (ttl now : ℕ) (fetch : Result (List T)) (s : Store V) (entries : List T)
        → IsUp s.cache
        → held key s.cache ≡ some entries
        → cached_list class c prefix o ttl fetch now s
          ≡ (ok entries, record s { cache = (get_many_cached s.cache (key ∷ [])).1 })
    unfolding cached_list
    cached_list-hit ttl now fetch s entries up h =
        rw (answer-eq-held s.cache key up, h, cached_list)

    cached_list-miss :
        (ttl now : ℕ) (fetch : Result (List T)) (s : Store V)
        → IsUp s.cache
        → held key s.cache ≡ none
        → ((cached_list class c prefix o ttl fetch now s).0 ≡ fetch)
          × ((cached_list class c prefix o ttl fetch now s).1.requests ≡ suc s.requests)
    unfolding cached_list save_entries delete_many insert_many
    cached_list-miss ttl now (ok entries) s up h = (
      rw (answer-eq-held s.cache key up, h, cached_list),
      rw (answer-eq-held s.cache key up, h, cached_list),
    )
    cached_list-miss ttl now (raise e) s up h = (
      rw (answer-eq-held s.cache key up, h, cached_list),
      rw (answer-eq-held s.cache key up, h, cached_list),
    )

    -- With a Redis that answers: after an invalidation, the next read asks ESI exactly once, and
    -- returns or raises what ESI answers.
    pub invalidate_list-forgets :
        (ttl now : ℕ) (fetch : Result (List T)) (s : Store V)
        → IsUp s.cache
        → ((cached_list class c prefix o ttl fetch now (invalidate_list c prefix o s)).0 ≡ fetch)
          × ((cached_list class c prefix o ttl fetch now (invalidate_list c prefix o s)).1.requests
              ≡ suc s.requests)
    unfolding invalidate_list delete_many
    invalidate_list-forgets ttl now fetch s up =
        cached_list-miss ttl now fetch (invalidate_list c prefix o s)
          (delete_cached-IsUp s.cache (key ∷ []) up)
          (ap revive_held (stored-delete_one s.cache key up))

    held-cached_list :
        (law : (t : T) → class.entry_type (class.asdict t) ≡ some t) (ttl now : ℕ)
        (entries : List T) (s : Store V)
        → IsUp s.cache
        → held key s.cache ≡ none
        → let s' = (cached_list class c prefix o ttl (ok entries) now s).1 in
          IsUp s'.cache × (held key s'.cache ≡ some entries)
    unfolding cached_list save_entries delete_many insert_many
    held-cached_list law ttl now entries s up h =
        let c₁ = (get_many_cached s.cache (key ∷ [])).1 in
        let up₁ = get_many_cached-IsUp s.cache (key ∷ []) up in
        let dicts = map class.asdict entries in
        rw (answer-eq-held s.cache key up, h, cached_list)
          (
            set_many_cached-IsUp c₁ ((key, dicts) ∷ []) ttl up₁,
            ap revive_held (stored-set_one c₁ key dicts ttl up₁) ∙ revive-map law entries,
          )

    -- With a Redis that answers and does not expire the entry, and a data class that is rebuilt from
    -- its own fields: whatever the first read finds, if ESI answers it, a second read returns the
    -- same entries without asking ESI again.
    pub cached_list-twice :
        (law : (t : T) → class.entry_type (class.asdict t) ≡ some t) (ttl now later : ℕ)
        (entries : List T) (again : Result (List T)) (s : Store V)
        → IsUp s.cache
        → let first = cached_list class c prefix o ttl (ok entries) now s in
          let second = cached_list class c prefix o ttl again later first.1 in
          (second.0 ≡ first.0) × (second.1.requests ≡ first.1.requests)
    cached_list-twice law ttl now later entries again s up =
        elim (Option-cases (held key s.cache)) [
          | inr (old, h) ↦
              let c₁ = (get_many_cached s.cache (key ∷ [])).1 in
              let up₁ = get_many_cached-IsUp s.cache (key ∷ []) up in
              let h₁ : held key c₁ ≡ some old = rw entries-get_many_cached h in
              let once = cached_list-hit ttl now (ok entries) s old up h in
              let twice = cached_list-hit ttl later again (record s { cache = c₁ }) old up₁ h₁ in
              rw (once, twice) (refl, refl)
          | inl h ↦
              let s₁ = (cached_list class c prefix o ttl (ok entries) now s).1 in
              let (up₁, h₁) = held-cached_list law ttl now entries s up h in
              let once = cached_list-miss ttl now (ok entries) s up h in
              let twice = cached_list-hit ttl later again s₁ entries up₁ h₁ in
              (ap (λ r. r.0) twice ∙ sym once.0, ap (λ r. Store.requests r.1) twice)
        ]
