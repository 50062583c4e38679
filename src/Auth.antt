-- ===== src/Auth.antt =====
-- app/routes/auth.py: the login with EVE SSO and the connection of corporation data. Times are seconds,
-- and `now` is the time of a request.
pub mod Callback
mod Tests
use aobp.Prelude.{
  ℕ, ◌+◌, String, Bool, true, false, not, ◌||◌, ◌&&◌, Option, none, some, List, [], ◌∷◌,
  if◌then◌else◌, nat_eq, string_eq, ◌==◌, leb, is_some, get_or,
}
use aobp.Result.{Result, ok, raise, Error, http_status_error, http_exception}
use aobp.Dict.{Dict, get, put}
use aobp.Character.{CharacterDocument}

pub record TokenResponse : Type 0 where
  pub access_token : String
  pub refresh_token : String
  pub expires_in : ℕ

pub record CharacterClaims : Type 0 where
  pub character_id : ℕ
  pub character_name : String
  pub owner_hash : String
  pub scopes : List String

-- The keys of `request.session`.
pub record Session : Type 0 where
  pub character_id : Option ℕ
  pub pkce_verifier : Option String
  pub pkce_state : Option String
  pub corp_pkce_verifier : Option String
  pub corp_pkce_state : Option String

-- The session of the browser and the collection `characters`.
pub record Site : Type 0 where
  pub session : Session
  pub characters : Dict ℕ CharacterDocument

-- What EVE SSO and ESI answer.
pub record Sso : Type 0 where
  pub exchange_code_for_token : String → String → Result TokenResponse
  pub validate_access_token : String → Result CharacterClaims
  pub refresh_access_token : String → Result TokenResponse
  pub get_character_public_info : ℕ → Result ℕ

-- `login` and `connect_corp`, with the fresh verifier and state.
unfoldable pub login : String → String → Session → Session
login verifier state s = record s { pkce_verifier = some verifier; pkce_state = some state }

unfoldable pub connect_corp : String → String → Session → Session
connect_corp verifier state s = record s {
  corp_pkce_verifier = some verifier;
  corp_pkce_state = some state;
}

unfoldable pub logout : Session → Session
logout s = record {
  character_id = none;
  pkce_verifier = none;
  pkce_state = none;
  corp_pkce_verifier = none;
  corp_pkce_state = none;
}

-- A text of the session that is there and not empty.
abbrev pub filled : Option String → Option String
filled none = none
filled (some s) = if s == "" then none else some s

abbrev pub is_state : String → Option String → Bool
is_state state none = false
is_state state (some expected) = state == expected

-- The document of a login. `model_dump` has every field but `created_at`, the corporation's as well.
unfoldable pub login_document :
    ℕ → TokenResponse → CharacterClaims → Option CharacterDocument → CharacterDocument
login_document now token claims old = record {
  id = claims.character_id;
  character_name = claims.character_name;
  owner_hash = claims.owner_hash;
  scopes = claims.scopes;
  access_token = token.access_token;
  refresh_token = token.refresh_token;
  access_token_expires_at = now + token.expires_in;
  created_at = elim old [ none ↦ now | some document ↦ document.created_at ];
  updated_at = now;
  corporation_id = none;
  corp_scopes = none;
  corp_access_token = none;
  corp_refresh_token = none;
  corp_access_token_expires_at = none;
}

-- The fields that the connection of corporation data sets.
unfoldable pub corp_document :
    ℕ → ℕ → TokenResponse → CharacterClaims → CharacterDocument → CharacterDocument
corp_document now corporation_id token claims old = record old {
  corporation_id = some corporation_id;
  corp_scopes = some claims.scopes;
  corp_access_token = some token.access_token;
  corp_refresh_token = some token.refresh_token;
  corp_access_token_expires_at = some (now + token.expires_in);
  updated_at = now;
}

-- `update_one` without `upsert`.
unfoldable pub update_one :
    ℕ
    → (CharacterDocument → CharacterDocument)
    → Dict ℕ CharacterDocument
    → Dict ℕ CharacterDocument
update_one id f characters = elim (get id characters) [
  | none ↦ characters
  | some document ↦ put id (f document) characters
]

-- `disconnect_corp`
unfoldable pub disconnect_corp :
    CharacterDocument → Dict ℕ CharacterDocument → Dict ℕ CharacterDocument
disconnect_corp character = update_one character.id (λ old. record old {
  corporation_id = none;
  corp_scopes = none;
  corp_access_token = none;
  corp_refresh_token = none;
  corp_access_token_expires_at = none;
})

abbrev pub bad_request : Error
bad_request = http_exception 400

module _ (sso : Sso) (now : ℕ) where
  -- `_complete_login` and `_complete_corp_connection`: the redirection's target, and the site.
  unfoldable pub complete_login : String → String → Site → Result String × Site
  unfolding login_document
  complete_login code state site = elim (filled site.session.pkce_verifier) [
    | none ↦ (raise bad_request, site)
    | some code_verifier ↦
        if is_state state (filled site.session.pkce_state)
        then elim (sso.exchange_code_for_token code code_verifier) [
          | raise e ↦ (raise e, site)
          | ok token ↦ elim (sso.validate_access_token token.access_token) [
            | raise e ↦ (raise e, site)
            | ok claims ↦ (
              ok "/",
              record {
                session = record site.session {
                  pkce_verifier = none;
                  pkce_state = none;
                  character_id = some claims.character_id;
                };
                characters =
                    put claims.character_id
                      (login_document now token claims (get claims.character_id site.characters))
                      site.characters;
              },
            )
          ]
        ]
        else (raise bad_request, site)
  ]

  unfoldable pub complete_corp_connection : String → Site → Result String × Site
  unfolding corp_document update_one
  complete_corp_connection code site = elim (filled site.session.corp_pkce_verifier) [
    | none ↦ (raise bad_request, site)
    | some code_verifier ↦ elim site.session.character_id [
      | none ↦ (raise bad_request, site)
      | some id ↦ elim (sso.exchange_code_for_token code code_verifier) [
        | raise e ↦ (raise e, site)
        | ok token ↦ elim (sso.validate_access_token token.access_token) [
          | raise e ↦ (raise e, site)
          | ok claims ↦
              if claims.character_id == id
              then elim (sso.get_character_public_info claims.character_id) [
                | raise e ↦ (raise e, site)
                | ok corporation_id ↦ (
                  ok "/settings",
                  record {
                    session = record site.session {
                      corp_pkce_verifier = none;
                      corp_pkce_state = none;
                    };
                    characters =
                        update_one claims.character_id
                          (corp_document now corporation_id token claims) site.characters;
                  },
                )
              ]
              else (raise bad_request, site)
        ]
      ]
    ]
  ]

  unfoldable pub callback : String → String → Site → Result String × Site
  callback code state site =
      if is_state state site.session.corp_pkce_state
      then complete_corp_connection code site
      else complete_login code state site
