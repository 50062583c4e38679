-- ===== src/Settings/Tests.antt =====
-- A character with cached assets deletes its data, and the theorem on that applied to it.
use aobp.Prelude.{
  ℕ, ◌≡◌, refl, String, true, inl, inr, Bool-cases, none, some, [], ◌∷◌, if◌then◌else◌, nat_eq,
  string_eq, ◌==◌, ◌&&◌, arith,
}
use aobp.Result.{Result, ok, raise, http_status_error, http_exception}
use aobp.Dict.{get}
use aobp.Character.{CharacterDocument}
use aobp.Auth.{Site, Sso}
use aobp.Deps.{
  refresh_own, refresh_corp, write_updates, get_current_character_optional, get_current_character,
}
use aobp.EsiCache.{character_id, is_same, Store, rows, tag}
use aobp.EsiCache.Rows.{owned}
use aobp.CharacterData.{personal_sources}
use aobp.CharacterData.Rows.{covers}
use aobp.Settings.{clear_data}
use aobp.Settings.SignedOut.{IsKeyed, clear_data_signs_out}

-- EVE SSO is down, which a valid token does not need.
abbrev down : Sso
down = record {
  exchange_code_for_token = λ code verifier. raise (http_status_error 503);
  validate_access_token = λ t. raise (http_status_error 503);
  refresh_access_token = λ r. raise (http_status_error 503);
  get_character_public_info = λ id. raise (http_status_error 503);
}

abbrev ada : CharacterDocument
ada = record {
  id = 7;
  character_name = "Ada";
  owner_hash = "h";
  scopes = [];
  access_token = "t";
  refresh_token = "r";
  access_token_expires_at = 500;
  created_at = 0;
  updated_at = 0;
  corporation_id = none;
  corp_scopes = none;
  corp_access_token = none;
  corp_refresh_token = none;
  corp_access_token_expires_at = none;
}

abbrev site : Site
site = record {
  session = record {
    character_id = some 7;
    pkce_verifier = none;
    pkce_state = none;
    corp_pkce_verifier = none;
    corp_pkce_state = none;
  };
  characters = (7, ada) ∷ [];
}

abbrev filled : Store ℕ
filled = record {
  collections = ("assets", tag (character_id 7) 5 70 ∷ tag (character_id 8) 6 80 ∷ []) ∷ [];
  cache = record {
    enabled = true;
    entries = [];
    fault = λ _. none;
    calls = 0;
    hits = 0;
    misses = 0;
    errors = 0;
  };
  requests = 0;
}

abbrev assets : String
assets = "assets"

site-IsKeyed : IsKeyed site.characters
unfolding get
site-IsKeyed k c h = elim (Bool-cases (7 == k)) [
  | inl same ↦ ground (arith, same, h)
  | inr other ↦ absurd (ground (arith, other, h))
]

abbrev cleared : Result String × (Site × Store ℕ)
cleared = clear_data down 100 site filled

clear_data_runs : cleared ≡ (ok "/", (cleared.1.0, cleared.1.1))
unfolding clear_data get_current_character get_current_character_optional refresh_own refresh_corp
    write_updates get
clear_data_runs = refl

clear_data_signs_out_example :
    (k : ℕ) × (site.session.character_id ≡ some k)
    × (get 7 cleared.1.0.characters ≡ (if k == 7 then none else get 7 site.characters))
    × (owned (character_id 7) (rows assets cleared.1.1) ≡ (
        if covers assets personal_sources && is_same (character_id k) (character_id 7)
        then []
        else owned (character_id 7) (rows assets filled)))
    × (get_current_character down 600 cleared.1.0 ≡ (raise (http_exception 401), cleared.1.0))
    × (get_current_character_optional down 600 cleared.1.0 ≡ (ok none, cleared.1.0))
clear_data_signs_out_example =
    clear_data_signs_out down down 100 600 site cleared.1.0 filled cleared.1.1 "/" assets
      (character_id 7) 7 site-IsKeyed clear_data_runs
