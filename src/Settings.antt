-- ===== src/Settings.antt =====
-- app/routes/settings.py: the requests that refresh a character's stored data and that delete it. The
-- answer is the address of the redirection. The page of the settings itself is not modelled.
pub mod SignedOut
mod Tests
use aobp.Prelude.{ℕ, String}
use aobp.Result.{Result, ok, raise}
use aobp.Auth.{Site, Sso, logout}
use aobp.Deps.{get_current_character}
use aobp.EsiCache.{Store}
use aobp.CharacterData.{refresh_character_data, clear_character_data}

module _ {ℓ} {V : Type ℓ} (sso : Sso) (now : ℕ) where
  unfoldable pub refresh_data : Site → Store V → Result String × (Site × Store V)
  refresh_data site s =
      let (answer, site') = get_current_character sso now site in
      elim answer [
        | raise e ↦ (raise e, (site', s))
        | ok character ↦ (ok "/settings", (site', refresh_character_data character s))
      ]

  -- `request.session.clear()` leaves what a logout leaves.
  unfoldable pub clear_data : Site → Store V → Result String × (Site × Store V)
  clear_data site s =
      let (answer, site') = get_current_character sso now site in
      elim answer [
        | raise e ↦ (raise e, (site', s))
        | ok character ↦
            let (s', characters') = clear_character_data character s site'.characters in
            (ok "/", (record { session = logout site'.session; characters = characters' }, s'))
      ]
