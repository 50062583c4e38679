-- ===== src/CharacterData.antt =====
-- app/services/character_data.py: a character's lists, alone or merged with the corporation's, their
-- summary, refresh and removal.
pub mod Rows
pub mod Merged
mod Tests
use Prim.Native.Nat.{max}
use aobp.Prelude.{
  ℕ, ◌*◌, String, Bool, true, false, Option, none, some, List, [], ◌∷◌, ◌++◌, map, if◌then◌else◌,
  nat_eq, string_eq, ◌==◌, ◌||◌, ◌&&◌, get_or, is_some, length,
}
use aobp.Result.{Result, ok, raise, Error, http_status_error}
use aobp.Dict.{Dict, remove}
use aobp.Character.{CharacterDocument}
use aobp.EsiCache.{
  Owner, character_id, corporation_id, Row, Store, EntryType, rows, invalidate_character_list,
  invalidate_corporation_list, cached_character_list, cached_corporation_list,
}
use aobp.EsiCache.Rows.{owned}

-- `_Source`
pub record Source : Type 0 where
  pub label : String
  pub collection_name : String
  pub cache_key_prefix : String

abbrev pub source : String → String → String → Source
source label collection_name prefix = record {
  label = label;
  collection_name = collection_name;
  cache_key_prefix = prefix;
}

abbrev pub assets_source : Source
assets_source = source "Assets" "assets" "character_assets"

abbrev pub blueprints_source : Source
blueprints_source = source "Blueprints" "blueprints" "character_blueprints"

abbrev pub industry_jobs_source : Source
industry_jobs_source = source "Industry jobs" "industry_jobs" "character_industry_jobs"

abbrev pub colonies_source : Source
colonies_source = source "PI colonies" "planetary_colonies" "character_colonies"

abbrev pub corp_assets_source : Source
corp_assets_source = source "Corporation assets" "corp_assets" "corporation_assets"

abbrev pub corp_blueprints_source : Source
corp_blueprints_source = source "Corporation blueprints" "corp_blueprints" "corporation_blueprints"

abbrev pub corp_industry_jobs_source : Source
corp_industry_jobs_source =
    source "Corporation industry jobs" "corp_industry_jobs" "corporation_industry_jobs"

abbrev pub personal_sources : List Source
personal_sources = assets_source ∷ blueprints_source ∷ industry_jobs_source ∷ colonies_source ∷ []

abbrev pub corp_sources : List Source
corp_sources = corp_assets_source ∷ corp_blueprints_source ∷ corp_industry_jobs_source ∷ []

-- `_ASSETS_CACHE_TTL_SECONDS`, which the blueprints and the jobs share, and the colonies'.
abbrev pub list_ttl : ℕ
list_ttl = 60 * 60

abbrev pub colonies_ttl : ℕ
colonies_ttl = 60 * 15

abbrev pub corp_data_connected : CharacterDocument → Bool
corp_data_connected character = is_some character.corp_refresh_token

-- `cast(int, character.corporation_id)`. The routes set the id together with the corporation's
-- token, so that it stands where the data is connected.
abbrev pub corporation_of : CharacterDocument → ℕ
corporation_of character = get_or character.corporation_id 0

-- The `except` branch of `_corp_list_or_none`.
unfoldable pub forgive {ℓ} : {A : Type ℓ} → Result A → Result (Option A)
forgive (ok a) = ok (some a)
forgive (raise (http_status_error code)) =
    if code == 401 || code == 403 then ok none else raise (http_status_error code)
forgive (raise e) = raise e

-- Entries of a kind: their data class, and what ESI answers to an access token and an id.
module _ {ℓ κ} {V : Type ℓ} {T : Type κ} (class : EntryType V T)
    (ask : String → ℕ → Result (List T)) where
  unfoldable pub corp_list_or_none :
      Source → String → ℕ → ℕ → Store V → Result (Option (List T)) × Store V
  unfolding forgive
  corp_list_or_none src access_token id now s =
      let (answer, s') =
        cached_corporation_list class src.collection_name src.cache_key_prefix id list_ttl
          (ask access_token id) now s in
      (forgive answer, s')

  -- What the three lists of a character do, by source.
  unfoldable pub get_character_list : Source → String → ℕ → ℕ → Store V → Result (List T) × Store V
  get_character_list src access_token id =
      cached_character_list class src.collection_name src.cache_key_prefix id list_ttl
        (ask access_token id)

  abbrev pub get_character_assets : String → ℕ → ℕ → Store V → Result (List T) × Store V
  get_character_assets = get_character_list assets_source

  abbrev pub get_character_blueprints : String → ℕ → ℕ → Store V → Result (List T) × Store V
  get_character_blueprints = get_character_list blueprints_source

  abbrev pub get_character_industry_jobs : String → ℕ → ℕ → Store V → Result (List T) × Store V
  get_character_industry_jobs = get_character_list industry_jobs_source

  abbrev pub get_corporation_assets : String → ℕ → ℕ → Store V → Result (Option (List T)) × Store V
  get_corporation_assets = corp_list_or_none corp_assets_source

  abbrev pub get_corporation_blueprints :
      String → ℕ → ℕ → Store V → Result (Option (List T)) × Store V
  get_corporation_blueprints = corp_list_or_none corp_blueprints_source

  abbrev pub get_corporation_industry_jobs :
      String → ℕ → ℕ → Store V → Result (Option (List T)) × Store V
  get_corporation_industry_jobs = corp_list_or_none corp_industry_jobs_source

  unfoldable pub get_character_colonies : String → ℕ → ℕ → Store V → Result (List T) × Store V
  get_character_colonies access_token id =
      cached_character_list class colonies_source.collection_name colonies_source.cache_key_prefix
        id colonies_ttl (ask access_token id)

-- The end of `_merge_corp`, on what `fetch_corp` returned or raised.
unfoldable pub add_corp {ℓ} :
    {T : Type ℓ} → List T → Result (Option (List T)) → Result (List T × Bool)
add_corp personal (raise e) = raise e
add_corp personal (ok none) = ok (personal, false)
add_corp personal (ok (some corp_entries)) = ok (personal ++ corp_entries, true)

-- `_merge_corp`
unfoldable pub merge_corp {ℓ κ} :
    {V : Type ℓ} {T : Type κ}
    → CharacterDocument
    → List T
    → (String → ℕ → Store V → Result (Option (List T)) × Store V)
    → Store V
    → Result (List T × Bool) × Store V
merge_corp character personal fetch_corp s =
    if corp_data_connected character
    then (let (answer, s') =
          fetch_corp (get_or character.corp_access_token "") (corporation_of character) s in
        (add_corp personal answer, s'))
    else (ok (personal, false), s)

-- The merged lists: `ask` for the character's entries and `ask_corp` for the corporation's.
module _ {ℓ κ} {V : Type ℓ} {T : Type κ} (class : EntryType V T)
    (ask ask_corp : String → ℕ → Result (List T)) where
  unfoldable pub get_merged :
      Source → Source → CharacterDocument → ℕ → Store V → Result (List T × Bool) × Store V
  get_merged src corp_src character now s =
      let (answer, s') =
        get_character_list class ask src character.access_token character.id now s in
      elim answer [
        | raise e ↦ (raise e, s')
        | ok personal ↦
            merge_corp character personal
              (λ token id. corp_list_or_none class ask_corp corp_src token id now) s'
      ]

  unfoldable pub get_merged_assets :
      CharacterDocument → ℕ → Store V → Result (List T × Bool) × Store V
  get_merged_assets = get_merged assets_source corp_assets_source

  unfoldable pub get_merged_blueprints :
      CharacterDocument → ℕ → Store V → Result (List T × Bool) × Store V
  get_merged_blueprints = get_merged blueprints_source corp_blueprints_source

  unfoldable pub get_merged_industry_jobs :
      CharacterDocument → ℕ → Store V → Result (List T × Bool) × Store V
  get_merged_industry_jobs = get_merged industry_jobs_source corp_industry_jobs_source

pub record CachedDataSource : Type 0 where
  pub label : String
  pub count : ℕ
  pub cached_at : Option ℕ
  pub shared : Bool

-- The time of the latest row, what `find_one` with the sort by `cached_at` descending gives.
unfoldable pub latest {ℓ} : {V : Type ℓ} → List (Row V) → Option ℕ
latest [] = none
latest (r ∷ rs) = elim (latest rs) [ none ↦ some r.cached_at | some t ↦ some (max r.cached_at t) ]

module _ {ℓ} {V : Type ℓ} where
  -- The summaries of sources with the same query.
  unfoldable pub summaries : Bool → Owner → List Source → Store V → List CachedDataSource
  unfolding latest
  summaries shared owner sources s =
      map
        (λ src.
          let found = owned owner (rows (Source.collection_name src) s) in
          record {
            label = Source.label src;
            count = length found;
            cached_at = latest found;
            shared = shared;
          })
        sources

  unfoldable pub data_summary : CharacterDocument → Store V → List CachedDataSource
  data_summary character s =
      summaries false (character_id character.id) personal_sources s
      ++ (if corp_data_connected character
          then summaries true (corporation_id (corporation_of character)) corp_sources s
          else [])

  -- The loops over the sources.
  unfoldable pub invalidate_characters : List Source → ℕ → Store V → Store V
  invalidate_characters [] id s = s
  invalidate_characters (src ∷ sources) id s =
      invalidate_characters sources id
        (invalidate_character_list src.collection_name src.cache_key_prefix id s)

  unfoldable pub invalidate_corporations : List Source → ℕ → Store V → Store V
  invalidate_corporations [] id s = s
  invalidate_corporations (src ∷ sources) id s =
      invalidate_corporations sources id
        (invalidate_corporation_list src.collection_name src.cache_key_prefix id s)

  unfoldable pub refresh_character_data : CharacterDocument → Store V → Store V
  refresh_character_data character s =
      let s' = invalidate_characters personal_sources character.id s in
      if corp_data_connected character
      then invalidate_corporations corp_sources (corporation_of character) s'
      else s'

  -- `characters` is the collection of the documents by their ids.
  unfoldable pub clear_character_data :
      CharacterDocument → Store V → Dict ℕ CharacterDocument → Store V × Dict ℕ CharacterDocument
  clear_character_data character s characters =
      (invalidate_characters personal_sources character.id s, remove character.id characters)
