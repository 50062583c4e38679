-- ===== src/CharacterData/Tests.antt =====
-- A character with connected corporation data, and the theorems on character_data.py applied to it.
use aobp.Prelude.{ℕ, ◌≡◌, refl, String, true, none, some, List, [], ◌∷◌, nat_eq, string_eq}
use aobp.Result.{Result, ok, raise, http_status_error}
use aobp.Dict.{Dict, get, put}
use aobp.Text.{cache_key, str}
use aobp.Cache.{get_many_cached, set_many_cached, set_all, stored}
use aobp.Dict.Select.{select}
use aobp.Character.{CharacterDocument}
use aobp.EsiCache.{
  character_id, corporation_id, Store, EntryType, tag, cached_entries, cached_list, save_entries,
  insert_many, delete_many, revive,
}
use aobp.CharacterData.{
  get_merged, get_character_list, assets_source, corp_assets_source, merge_corp, add_corp,
  corp_list_or_none, forgive,
}
use aobp.CharacterData.Merged.{corp_answer as corp_list, Merges, get_merged-Merges}

abbrev number : EntryType ℕ ℕ
number = record { entry_type = λ n. some n; asdict = λ n. n }

abbrev director : CharacterDocument
director = record {
  id = 7;
  character_name = "Ada";
  owner_hash = "h";
  scopes = [];
  access_token = "t";
  refresh_token = "r";
  access_token_expires_at = 0;
  created_at = 0;
  updated_at = 0;
  corporation_id = some 98;
  corp_scopes = some [];
  corp_access_token = some "ct";
  corp_refresh_token = some "cr";
  corp_access_token_expires_at = some 0;
}

abbrev filled : Store ℕ
filled = record {
  collections =
      ("assets", tag (character_id 7) 5 70 ∷ tag (character_id 8) 6 80 ∷ [])
      ∷ ("corp_assets", tag (corporation_id 98) 5 1 ∷ [])
      ∷ [];
  cache = record {
    enabled = true;
    entries = [];
    fault = λ _. none;
    calls = 0;
    hits = 0;
    misses = 0;
    errors = 0;
  };
  requests = 0;
}

abbrev corp_assets : String
corp_assets = "corp_assets"

abbrev documents : Dict ℕ CharacterDocument
documents = (7, director) ∷ []

abbrev ada : ℕ
ada = 7

-- What ESI answers: the character's entries, and for the corporation 5 or a refusal.
abbrev own_answer : String → ℕ → Result (List ℕ)
own_answer _ _ = ok (1 ∷ 2 ∷ [])

abbrev corp_answer : String → ℕ → Result (List ℕ)
corp_answer _ _ = ok (5 ∷ [])

abbrev corp_refusal : String → ℕ → Result (List ℕ)
corp_refusal _ _ = raise (http_status_error 403)

merged_runs :
    (get_merged number own_answer corp_answer assets_source corp_assets_source director 9 filled).0
    ≡ ok (1 ∷ 2 ∷ 5 ∷ [], true)
unfolding get_merged get_character_list merge_corp add_corp corp_list_or_none forgive cached_list
    save_entries insert_many delete_many cached_entries revive get_many_cached set_many_cached
    set_all stored select get put cache_key str
merged_runs = refl

own_runs : (get_character_list number own_answer assets_source "t" 7 9 filled).0 ≡ ok (1 ∷ 2 ∷ [])
unfolding get_character_list cached_list save_entries insert_many delete_many cached_entries revive
    get_many_cached set_many_cached set_all stored select get put cache_key str
own_runs = refl

get_merged-Merges_example :
    (personal : List ℕ) × ((get_character_list number own_answer assets_source "t" 7 9 filled).0
      ≡ ok personal)
    × Merges number own_answer corp_answer true
        (corp_list number own_answer corp_answer corp_assets_source director 9
          (get_character_list number own_answer assets_source "t" 7 9 filled).1)
        personal
        (1 ∷ 2 ∷ 5 ∷ [], true)
get_merged-Merges_example =
    get_merged-Merges number own_answer corp_answer assets_source corp_assets_source director 9
      filled (1 ∷ 2 ∷ 5 ∷ [], true) merged_runs
