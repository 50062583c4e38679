-- ===== src/EsiCache.antt =====
-- app/services/esi_cache.py: lists of entries from ESI, kept in Redis and in MongoDB for their owner.
pub mod Rows
pub mod Fresh
mod Tests
use aobp.Prelude.{
  ℕ, zero, suc, ◌+◌, String, Bool, true, false, not, Option, none, some, List, [], ◌∷◌, ◌++◌, map,
  if◌then◌else◌, nat_eq, string_eq, keep, ◌==◌, get_or,
}
use aobp.Result.{Result, ok, raise}
use aobp.Text.{cache_key}
use aobp.Dict.{Dict, get, put}
use aobp.Cache.{Cache, get_many_cached, set_many_cached, delete_cached}

-- The field that says whose a stored entry is, with its value.
pub data Owner : Type 0 where
  character_id corporation_id : ℕ → Owner

unfoldable pub is_same : Owner → Owner → Bool
is_same (character_id a) (character_id b) = a == b
is_same (corporation_id a) (corporation_id b) = a == b
is_same _ _ = false

abbrev pub owner_id : Owner → ℕ
owner_id (character_id a) = a
owner_id (corporation_id a) = a

-- A document of one of the collections: its owner, the time of the fetch and the entry's fields.
pub record Row {ℓ} (V : Type ℓ) : Type ℓ where
  pub owner : Owner
  pub cached_at : ℕ
  pub entry : V

-- MongoDB's collections of entries by their names, Redis, and how often a `fetch` was awaited. MongoDB's
-- commands succeed.
pub record Store {ℓ} (V : Type ℓ) : Type ℓ where
  pub collections : Dict String (List (Row V))
  pub cache : Cache (List V)
  pub requests : ℕ

-- The constructor and `asdict` of an entry's data class. `entry_type` has no value where the call
-- `entry_type(**entry)` raises TypeError.
pub record EntryType {ℓ κ} (V : Type ℓ) (T : Type κ) : Type (ℓ ⊔ κ) where
  pub entry_type : V → Option T
  pub asdict : T → V

module _ {ℓ} {V : Type ℓ} where
  abbrev pub rows : String → Store V → List (Row V)
  rows collection_name s = get_or (get collection_name s.collections) []

  -- `delete_many` with the owner as the query.
  unfoldable pub delete_many : String → Owner → Store V → Store V
  delete_many collection_name owner s = record s {
    collections =
        put collection_name (keep (λ r. not (is_same owner (Row.owner r))) (rows collection_name s))
          s.collections;
  }

  unfoldable pub insert_many : String → List (Row V) → Store V → Store V
  insert_many collection_name new s = record s {
    collections = put collection_name (rows collection_name s ++ new) s.collections;
  }

  abbrev pub tag : Owner → ℕ → V → Row V
  tag owner now entry = record { owner = owner; cached_at = now; entry = entry }

  -- Both invalidations: they differ in the owner's field.
  unfoldable pub invalidate_list : String → String → Owner → Store V → Store V
  invalidate_list collection_name cache_key_prefix owner s =
      let s' = delete_many collection_name owner s in
      record s' {
        cache = delete_cached s'.cache (cache_key cache_key_prefix (owner_id owner) ∷ []);
      }

  abbrev pub invalidate_character_list : String → String → ℕ → Store V → Store V
  invalidate_character_list collection_name cache_key_prefix id =
      invalidate_list collection_name cache_key_prefix (character_id id)

  abbrev pub invalidate_corporation_list : String → String → ℕ → Store V → Store V
  invalidate_corporation_list collection_name cache_key_prefix id =
      invalidate_list collection_name cache_key_prefix (corporation_id id)

module _ {ℓ κ} {V : Type ℓ} {T : Type κ} (class : EntryType V T) where
  -- `[entry_type(**entry) for entry in cached[cache_key]]`
  unfoldable pub revive : List V → Option (List T)
  revive [] = some []
  revive (entry ∷ entries) =
      let rest = revive entries in
      elim (class.entry_type entry) [
        | none ↦ none
        | some t ↦ elim rest [ none ↦ none | some ts ↦ some (t ∷ ts) ]
      ]

  -- What the cache answers, if it can be used.
  unfoldable pub cached_entries : String → Dict String (List V) → Option (List T)
  cached_entries key cached = elim (get key cached) [ none ↦ none | some entries ↦ revive entries ]

  -- The entries that were fetched replace the owner's in the collection and in the cache.
  unfoldable pub save_entries : String → String → Owner → ℕ → ℕ → List T → Store V → Store V
  save_entries collection_name key owner ttl now entries s =
      let entry_dicts = map class.asdict entries in
      let s₁ = delete_many collection_name owner s in
      let s₂ = insert_many collection_name (map (tag owner now) entry_dicts) s₁ in
      record s₂ { cache = set_many_cached s₂.cache ((key, entry_dicts) ∷ []) ttl }

  -- Both cached lists: they differ in the owner's field. An exception of `fetch` leaves the store as
  -- it is.
  unfoldable pub cached_list :
      String → String → Owner → ℕ → Result (List T) → ℕ → Store V → Result (List T) × Store V
  cached_list collection_name cache_key_prefix owner ttl fetch now s =
      let key = cache_key cache_key_prefix (owner_id owner) in
      let (cached, cache₁) = get_many_cached s.cache (key ∷ []) in
      let read = record s { cache = cache₁ } in
      elim (cached_entries key cached) [
        | some entries ↦ (ok entries, read)
        | none ↦
            let asked = record read { requests = suc s.requests } in
            elim fetch [
              | raise e ↦ (raise e, asked)
              | ok entries ↦
                  (ok entries, save_entries collection_name key owner ttl now entries asked)
            ]
      ]

  abbrev pub cached_character_list :
      String → String → ℕ → ℕ → Result (List T) → ℕ → Store V → Result (List T) × Store V
  cached_character_list collection_name cache_key_prefix id =
      cached_list collection_name cache_key_prefix (character_id id)

  abbrev pub cached_corporation_list :
      String → String → ℕ → ℕ → Result (List T) → ℕ → Store V → Result (List T) × Store V
  cached_corporation_list collection_name cache_key_prefix id =
      cached_list collection_name cache_key_prefix (corporation_id id)
