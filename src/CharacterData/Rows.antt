-- ===== src/CharacterData/Rows.antt =====
-- Whose rows a refresh and a removal of a character's data delete.
use aobp.Prelude.{
  ℕ, ◌≡◌, refl, String, Bool, false, none, List, [], ◌∷◌, if◌then◌else◌, nat_eq, string_eq, ◌==◌,
  ◌||◌, ◌&&◌, arith,
}
use aobp.Dict.{Dict, get, get-remove}
use aobp.Character.{CharacterDocument}
use aobp.EsiCache.{Owner, character_id, corporation_id, is_same, Store, rows, invalidate_list}
use aobp.EsiCache.Rows.{owned, invalidate_list-rows}
use aobp.CharacterData.{
  Source, personal_sources, corp_sources, corp_data_connected, corporation_of,
  invalidate_characters, invalidate_corporations, refresh_character_data, clear_character_data,
}

-- Whether one of the sources has the collection.
unfoldable pub covers : String → List Source → Bool
covers d [] = false
covers d (src ∷ sources) = (Source.collection_name src == d) || covers d sources

module _ {ℓ} {V : Type ℓ} where
  invalidate_characters-rows :
      (sources : List Source) (id : ℕ) (s : Store V) (d : String) (p : Owner)
      → owned p (rows d (invalidate_characters sources id s))
        ≡ (if covers d sources && is_same (character_id id) p then [] else owned p (rows d s))
  unfolding invalidate_characters covers
  invalidate_characters-rows [] id s d p = refl
  invalidate_characters-rows (src ∷ sources) id s d p =
      let s' = invalidate_list src.collection_name src.cache_key_prefix (character_id id) s in
      ground (
        arith,
        invalidate_characters-rows sources id s' d p,
        invalidate_list-rows src.collection_name src.cache_key_prefix (character_id id) s d p,
      )

  invalidate_corporations-rows :
      (sources : List Source) (id : ℕ) (s : Store V) (d : String) (p : Owner)
      → owned p (rows d (invalidate_corporations sources id s))
        ≡ (if covers d sources && is_same (corporation_id id) p then [] else owned p (rows d s))
  unfolding invalidate_corporations covers
  invalidate_corporations-rows [] id s d p = refl
  invalidate_corporations-rows (src ∷ sources) id s d p =
      let s' = invalidate_list src.collection_name src.cache_key_prefix (corporation_id id) s in
      ground (
        arith,
        invalidate_corporations-rows sources id s' d p,
        invalidate_list-rows src.collection_name src.cache_key_prefix (corporation_id id) s d p,
      )

  -- Clearing a character's data deletes its rows from the four personal collections and its own
  -- document. Every other owner's rows stay, in every collection, so that a corporation's shared
  -- data and other characters' data are kept, and so do the documents of all other characters.
  pub clear_character_data-rows :
      (character : CharacterDocument) (s : Store V) (characters : Dict ℕ CharacterDocument)
      (d : String) (p : Owner) (k : ℕ)
      → (owned p (rows d (clear_character_data character s characters).0) ≡ (
          if covers d personal_sources && is_same (character_id character.id) p
          then []
          else owned p (rows d s)))
        × (get k (clear_character_data character s characters).1
            ≡ (if character.id == k then none else get k characters))
  unfolding clear_character_data
  clear_character_data-rows character s characters d p k = (
    invalidate_characters-rows personal_sources character.id s d p,
    get-remove character.id k characters,
  )

  -- A refresh deletes the character's rows from the personal collections, and, where corporation data
  -- is connected, its corporation's rows from the corporation's collections, and no other row.
  pub refresh_character_data-rows :
      (character : CharacterDocument) (s : Store V) (d : String) (p : Owner)
      → owned p (rows d (refresh_character_data character s)) ≡ (
          if covers d personal_sources && is_same (character_id character.id) p
          then []
          else if corp_data_connected character
              && (covers d corp_sources && is_same (corporation_id (corporation_of character)) p)
          then []
          else owned p (rows d s))
  unfolding refresh_character_data
  refresh_character_data-rows character s d p =
      let s' = invalidate_characters personal_sources character.id s in
      ground (
        arith,
        invalidate_characters-rows personal_sources character.id s d p,
        invalidate_corporations-rows corp_sources (corporation_of character) s' d p,
      )
