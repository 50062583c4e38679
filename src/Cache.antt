-- ===== src/Cache.antt =====
-- app/services/cache.py: the optional Redis cache, its failures and its counters.
pub mod Transparent
use aobp.Prelude.{
  ℕ, zero, suc, ◌+◌, ◌-◌, String, Bool, true, false, ◌||◌, not, Option, none, some, List, [], ◌∷◌,
  if◌then◌else◌, nat_eq, string_eq, length, take,
}
use aobp.Dict.{Dict, get, put, remove}
use aobp.Dict.Select.{select}

-- Redis together with the module's counters. `enabled` is false where the client is `None`. The n-th
-- command to the server raises `RedisError` where `fault n` is `some done`: `done` is the number of
-- the parts of that command that the server had carried out. A value is a JSON document, and `ttl`
-- is stored beside it; that an entry expires is a change from outside, so that every theorem is
-- stated for an arbitrary content.
pub record Cache {ℓ} (V : Type ℓ) : Type ℓ where
  pub enabled : Bool
  pub entries : Dict String (V × ℕ)
  pub fault : ℕ → Option ℕ
  pub calls : ℕ
  pub hits : ℕ
  pub misses : ℕ
  pub errors : ℕ

-- `not keys`
unfoldable pub is_empty {κ} : {A : Type κ} → List A → Bool
is_empty [] = true
is_empty (x ∷ xs) = false

module _ {ℓ} {V : Type ℓ} where
  -- The stored document under a key.
  unfoldable pub stored : Dict String (V × ℕ) → String → Option V
  stored entries k = elim (get k entries) [ none ↦ none | some (v, ttl) ↦ some v ]

  -- The `except RedisError` branches.
  unfoldable pub count_error : Cache V → Cache V
  count_error c = record c { calls = suc c.calls; errors = suc c.errors }

  unfoldable pub get_many_cached : Cache V → List String → Dict String V × Cache V
  unfolding is_empty count_error
  get_many_cached c ks = if not c.enabled || is_empty ks then ([], c) else elim (c.fault c.calls) [
    | some _ ↦ ([], count_error c)
    | none ↦
        let result = select (stored c.entries) ks in
        (
          result,
          record c {
            calls = suc c.calls;
            hits = c.hits + length result;
            misses = c.misses + (length ks - length result);
          },
        )
  ]

  -- The commands of a pipeline, one `SET key value EX ttl` for each item.
  unfoldable pub set_all : ℕ → List (String × V) → Dict String (V × ℕ) → Dict String (V × ℕ)
  set_all ttl [] entries = entries
  set_all ttl ((k, v) ∷ items) entries = set_all ttl items (put k (v, ttl) entries)

  unfoldable pub set_many_cached : Cache V → Dict String V → ℕ → Cache V
  unfolding is_empty count_error
  set_many_cached c items ttl =
      if not c.enabled || is_empty items then c else elim (c.fault c.calls) [
        | some sent ↦ count_error (record c { entries = set_all ttl (take sent items) c.entries })
        | none ↦ record c { calls = suc c.calls; entries = set_all ttl items c.entries }
      ]

  unfoldable pub remove_all : List String → Dict String (V × ℕ) → Dict String (V × ℕ)
  remove_all [] entries = entries
  remove_all (k ∷ ks) entries = remove_all ks (remove k entries)

  unfoldable pub delete_cached : Cache V → List String → Cache V
  unfolding is_empty count_error
  delete_cached c ks = if not c.enabled || is_empty ks then c else elim (c.fault c.calls) [
    | some sent ↦ count_error (record c { entries = remove_all (take sent ks) c.entries })
    | none ↦ record c { calls = suc c.calls; entries = remove_all ks c.entries }
  ]
