-- ===== src/Sde.antt =====
-- app/services/sde.py: documents of the Static Data Export, read through the cache.
pub mod ReadThrough
pub mod Names
mod Tests
use aobp.Prelude.{
  ℕ, zero, suc, ◌+◌, ◌-◌, String, Bool, true, false, ◌||◌, not, Option, none, some, List, [], ◌∷◌,
  map, if◌then◌else◌, nat_eq, string_eq, length, take, keep,
}
use aobp.Text.{cache_key}
use aobp.Dict.{Dict, get, put, keys, has, update}
use aobp.Dict.Select.{select}
use aobp.Cache.{Cache, is_empty, get_many_cached, set_many_cached}

module _ {ℓ} {V : Type ℓ} where
  -- The cached documents under the ids whose key was found.
  unfoldable pub found_by_id : String → Dict String V → List ℕ → Dict ℕ V
  found_by_id key_prefix cached ids =
      select (λ doc_id. get (cache_key key_prefix doc_id) cached) ids

  -- `ids - found.keys()`
  unfoldable pub missing : List ℕ → Dict ℕ V → List ℕ
  missing ids found = keep (λ doc_id. not (has doc_id found)) ids

  -- The items to be cached: the key of each document's id, with the document.
  unfoldable pub keyed : String → Dict ℕ V → Dict String V
  keyed key_prefix docs = map (λ doc. (cache_key key_prefix doc.0, doc.1)) docs

  -- `cached_docs_by_id`: `collection` answers `find` by `_id`, and its answer is written to the cache.
  unfoldable pub cached_docs_by_id :
      (ℕ → Option V) → ℕ → String → List ℕ → Cache V → Dict ℕ V × Cache V
  unfolding found_by_id missing keyed
  cached_docs_by_id collection ttl key_prefix ids cache =
      let doc_keys = map (cache_key key_prefix) ids in
      let (cached, cache₁) = get_many_cached cache doc_keys in
      let found = found_by_id key_prefix cached ids in
      let missing_ids = missing ids found in
      let docs = select collection missing_ids in
      if is_empty missing_ids
      then (found, cache₁)
      else (update found docs, set_many_cached cache₁ (keyed key_prefix docs) ttl)

  -- `type_docs`, `blueprint_docs` and `category_docs`: the three collections that are read this way.
  unfoldable pub type_docs : (ℕ → Option V) → ℕ → List ℕ → Cache V → Dict ℕ V × Cache V
  type_docs sde_types ttl = cached_docs_by_id sde_types ttl "sde_type"

  unfoldable pub blueprint_docs : (ℕ → Option V) → ℕ → List ℕ → Cache V → Dict ℕ V × Cache V
  blueprint_docs sde_blueprints ttl = cached_docs_by_id sde_blueprints ttl "sde_blueprint"

  unfoldable pub category_docs : (ℕ → Option V) → ℕ → List ℕ → Cache V → Dict ℕ V × Cache V
  category_docs sde_categories ttl = cached_docs_by_id sde_categories ttl "sde_category"
