-- ===== src/Character.antt =====
-- app/models/character.py: what is stored of a character. Times are seconds.
use aobp.Prelude.{ℕ, String, Option, List}

pub record CharacterDocument : Type 0 where
  pub id : ℕ
  pub character_name : String
  pub owner_hash : String
  pub scopes : List String
  pub access_token : String
  pub refresh_token : String
  pub access_token_expires_at : ℕ
  pub created_at : ℕ
  pub updated_at : ℕ
  pub corporation_id : Option ℕ
  pub corp_scopes : Option (List String)
  pub corp_access_token : Option String
  pub corp_refresh_token : Option String
  pub corp_access_token_expires_at : Option ℕ
