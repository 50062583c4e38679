-- ===== src/Auth/Tests.antt =====
-- A character with connected corporation data that logs in again, and the theorems on auth.py applied to it.
use aobp.Prelude.{ℕ, ◌≡◌, refl, none, some, [], ◌∷◌, nat_eq, string_eq, ◌⊎◌}
use aobp.Result.{ok, raise, transport_error}
use aobp.Character.{CharacterDocument}
use aobp.Auth.{TokenResponse, CharacterClaims, Site, Sso, callback, complete_login}
use aobp.Auth.Callback.{IsAlone, callback-guarded, callback_disconnects}

abbrev token : TokenResponse
token = record { access_token = "t"; refresh_token = "r"; expires_in = 1200 }

abbrev claims : CharacterClaims
claims = record { character_id = 7; character_name = "Ada"; owner_hash = "h"; scopes = [] }

abbrev sso : Sso
sso = record {
  exchange_code_for_token = λ code verifier. ok token;
  validate_access_token = λ t. ok claims;
  refresh_access_token = λ r. raise transport_error;
  get_character_public_info = λ id. ok 98;
}

abbrev director : CharacterDocument
director = record {
  id = 7;
  character_name = "Ada";
  owner_hash = "h";
  scopes = [];
  access_token = "t";
  refresh_token = "r";
  access_token_expires_at = 0;
  created_at = 0;
  updated_at = 0;
  corporation_id = some 98;
  corp_scopes = some [];
  corp_access_token = some "ct";
  corp_refresh_token = some "cr";
  corp_access_token_expires_at = some 0;
}

abbrev pilot : CharacterDocument
pilot = record director { id = 8; character_name = "Bob" }

abbrev waiting : Site
waiting = record {
  session = record {
    character_id = none;
    pkce_verifier = some "v";
    pkce_state = some "s";
    corp_pkce_verifier = none;
    corp_pkce_state = none;
  };
  characters = (7, director) ∷ (8, pilot) ∷ [];
}

abbrev bob : ℕ
bob = 8

login_runs : (callback sso 100 "c" "s" waiting).0 ≡ ok "/"
unfolding callback complete_login
login_runs = refl

callback-guarded_example :
    (waiting.session.pkce_state ≡ some "s") ⊎ (waiting.session.corp_pkce_state ≡ some "s")
callback-guarded_example = callback-guarded sso 100 "c" "s" "/" waiting login_runs

callback_disconnects_example : IsAlone (callback sso 100 "c" "s" waiting).1
callback_disconnects_example = callback_disconnects sso 100 "c" "s" waiting login_runs
