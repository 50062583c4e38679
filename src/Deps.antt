-- ===== src/Deps.antt =====
-- app/deps.py: the character of a request, with the refresh of its tokens. `now` is the time of the
-- request in seconds.
pub mod Fresh
mod Tests
use aobp.Prelude.{
  ℕ, ◌+◌, String, Bool, true, false, ◌||◌, Option, none, some, if◌then◌else◌, nat_eq, ◌==◌, leb,
}
use aobp.Result.{Result, ok, raise, Error, http_status_error, http_exception}
use aobp.Dict.{get, put}
use aobp.Character.{CharacterDocument}
use aobp.Auth.{TokenResponse, Session, Site, Sso}

-- Whether EVE SSO refused the refresh token, rather than failed.
unfoldable pub is_refusal : Error → Bool
is_refusal (http_status_error code) = code == 400 || code == 401
is_refusal _ = false

-- What a refresh comes to: the document, and whether it has updates; or no character.
pub data Refreshed : Type 0 where
  current : CharacterDocument → Bool → Refreshed
  signed_out : Refreshed

module _ (sso : Sso) (now : ℕ) where
  -- The character's own token.
  unfoldable pub refresh_own : CharacterDocument → Result Refreshed
  refresh_own document =
      if leb document.access_token_expires_at now
      then elim (sso.refresh_access_token document.refresh_token) [
        | ok token ↦ ok (
            current
              (record document {
                access_token = token.access_token;
                refresh_token = token.refresh_token;
                access_token_expires_at = now + token.expires_in;
              })
              true)
        | raise e ↦ if is_refusal e then ok signed_out else raise e
      ]
      else ok (current document false)

  abbrev pub without_corp_token : CharacterDocument → CharacterDocument
  without_corp_token document = record document {
    corp_scopes = none;
    corp_access_token = none;
    corp_refresh_token = none;
    corp_access_token_expires_at = none;
  }

  -- The corporation's token, with the document and whether it has been changed already.
  unfoldable pub refresh_corp : CharacterDocument → Bool → Result (CharacterDocument × Bool)
  refresh_corp document updates = elim document.corp_refresh_token [
    | none ↦ ok (document, updates)
    | some refresh_token ↦ elim document.corp_access_token_expires_at [
      | none ↦ ok (document, updates)
      | some expires_at ↦
          if leb expires_at now
          then elim (sso.refresh_access_token refresh_token) [
            | ok token ↦ ok (
              record document {
                corp_access_token = some token.access_token;
                corp_refresh_token = some token.refresh_token;
                corp_access_token_expires_at = some (now + token.expires_in);
              },
              true,
            )
            | raise e ↦ if is_refusal e then ok (without_corp_token document, true) else raise e
          ]
          else ok (document, updates)
    ]
  ]

  -- The updates are written with the time; `$set` of the changed fields makes the stored document the
  -- changed one.
  unfoldable pub write_updates : ℕ → CharacterDocument → Bool → Site → CharacterDocument × Site
  write_updates character_id document updates site =
      let stamped = record document { updated_at = now } in
      if updates
      then (stamped, record site { characters = put character_id stamped site.characters })
      else (document, site)

  unfoldable pub get_current_character_optional : Site → Result (Option CharacterDocument) × Site
  get_current_character_optional site = elim site.session.character_id [
    | none ↦ (ok none, site)
    | some character_id ↦ elim (get character_id site.characters) [
      | none ↦ (ok none, site)
      | some stored ↦ elim (refresh_own stored) [
        | raise e ↦ (raise e, site)
        | ok signed_out ↦
            (ok none, record site { session = record site.session { character_id = none } })
        | ok (current document updates) ↦ elim (refresh_corp document updates) [
          | raise e ↦ (raise e, site)
          | ok (document', updates') ↦
              let (answer, site') = write_updates character_id document' updates' site in
              (ok (some answer), site')
        ]
      ]
    ]
  ]

  unfoldable pub get_current_character : Site → Result CharacterDocument × Site
  get_current_character site =
      let (answer, site') = get_current_character_optional site in
      elim answer [
        | raise e ↦ (raise e, site')
        | ok none ↦ (raise (http_exception 401), site')
        | ok (some character) ↦ (ok character, site')
      ]
