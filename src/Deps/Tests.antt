-- ===== src/Deps/Tests.antt =====
-- A request whose character's token has expired, and the theorem on deps.py applied to it.
use aobp.Prelude.{
  ℕ, string_eq, if◌then◌else◌, ◌<◌, ◌≡◌, refl, none, some, [], ◌∷◌, nat_eq, ◌==◌, arith,
}
use aobp.Result.{ok, raise, http_status_error}
use aobp.Dict.{get}
use aobp.Character.{CharacterDocument}
use aobp.Auth.{Site, Sso}
use aobp.Deps.{refresh_own, refresh_corp, write_updates, get_current_character_optional}
use aobp.Deps.Fresh.{get_current_character_optional_fresh}

abbrev sso : Sso
sso = record {
  exchange_code_for_token =
      λ code verifier. ok (record { access_token = "t"; refresh_token = "r"; expires_in = 1200 });
  validate_access_token =
      λ t. ok (record { character_id = 7; character_name = "Ada"; owner_hash = "h"; scopes = [] });
  refresh_access_token =
      λ r. ok (record { access_token = "new"; refresh_token = "r2"; expires_in = 1200 });
  get_character_public_info = λ id. ok 98;
}

abbrev expired : CharacterDocument
expired = record {
  id = 7;
  character_name = "Ada";
  owner_hash = "h";
  scopes = [];
  access_token = "t";
  refresh_token = "r";
  access_token_expires_at = 90;
  created_at = 0;
  updated_at = 0;
  corporation_id = none;
  corp_scopes = none;
  corp_access_token = none;
  corp_refresh_token = none;
  corp_access_token_expires_at = none;
}

abbrev refreshed : CharacterDocument
refreshed = record expired {
  access_token = "new";
  refresh_token = "r2";
  access_token_expires_at = 1300;
  updated_at = 100;
}

abbrev site : Site
site = record {
  session = record {
    character_id = some 7;
    pkce_verifier = none;
    pkce_state = none;
    corp_pkce_verifier = none;
    corp_pkce_state = none;
  };
  characters = (7, expired) ∷ [];
}

request_runs : (get_current_character_optional sso 100 site).0 ≡ ok (some refreshed)
unfolding get_current_character_optional refresh_own refresh_corp write_updates get
request_runs = refl

get_current_character_optional_fresh_example :
    (100 < refreshed.access_token_expires_at)
    × ((id : ℕ) × (site.session.character_id ≡ some id)
        × (get id (get_current_character_optional sso 100 site).1.characters ≡ some refreshed))
get_current_character_optional_fresh_example =
    get_current_character_optional_fresh sso 100 (λ t token e. ground (arith, e)) site refreshed
      request_runs

-- Both tokens have expired; the own one is refreshed, the refresh of the corporation's fails.
abbrev half_down : Sso
half_down = record sso {
  refresh_access_token =
      λ r. if r == "cr" then raise (http_status_error 503) else sso.refresh_access_token r;
}

abbrev both_expired : Site
both_expired = record site {
  characters =
      (7, record expired { corp_refresh_token = some "cr"; corp_access_token_expires_at = some 90 })
      ∷ [];
}
