-- ===== src/Settings/SignedOut.antt =====
-- After the deletion of a character's data nothing of it is left, and the browser is signed out.
use aobp.Prelude.{
  ℕ, ◌≡◌, refl, String, Bool, true, false, ◌&&◌, none, some, [], nat_eq, string_eq, leb, ◌==◌,
  if◌then◌else◌, arith, inl, inr, Bool-cases, Option-cases,
}
use aobp.Result.{ok, raise, http_exception, Result-cases}
use aobp.Dict.{Dict, get, get-put}
use aobp.Character.{CharacterDocument}
use aobp.Auth.{Site, Sso, logout}
use aobp.Deps.{
  current, signed_out, is_refusal, refresh_own, refresh_corp, write_updates,
  get_current_character_optional, get_current_character,
}
use aobp.EsiCache.{Owner, character_id, is_same, Store, rows}
use aobp.EsiCache.Rows.{owned}
use aobp.CharacterData.{personal_sources}
use aobp.CharacterData.Rows.{covers, clear_character_data-rows}
use aobp.Settings.{clear_data}

-- Every document stands under its own id.
abbrev pub IsKeyed : Dict ℕ CharacterDocument → Type 0
IsKeyed characters = (k : ℕ) (c : CharacterDocument) → get k characters ≡ some c → c.id ≡ k

module _ (sso : Sso) (now : ℕ) where
  refresh_own-id :
      (stored document : CharacterDocument) (updates : Bool)
      → refresh_own sso now stored ≡ ok (current document updates)
      → document.id ≡ stored.id
  unfolding refresh_own
  refresh_own-id stored document updates h =
      elim (Bool-cases (leb stored.access_token_expires_at now)) [
        | inr later ↦ ground (arith, later, h)
        | inl expired ↦ elim (Result-cases (sso.refresh_access_token stored.refresh_token)) [
          | inl (token, got) ↦ ground (arith, expired, got, h)
          | inr (e, failed) ↦ elim (Bool-cases (is_refusal e)) [
            | inl refusal ↦ absurd (ground (arith, expired, failed, refusal, h))
            | inr failure ↦ absurd (ground (arith, expired, failed, failure, h))
          ]
        ]
      ]

  refresh_corp-id :
      (document document' : CharacterDocument) (updates updates' : Bool)
      → refresh_corp sso now document updates ≡ ok (document', updates')
      → document'.id ≡ document.id
  unfolding refresh_corp
  refresh_corp-id document document' updates updates' h =
      elim (Option-cases document.corp_refresh_token) [
        | inl none_ ↦ ground (arith, none_, h)
        | inr (token, some_) ↦ elim (Option-cases document.corp_access_token_expires_at) [
          | inl none_ ↦ ground (arith, some_, none_, h)
          | inr (at, known) ↦ elim (Bool-cases (leb at now)) [
            | inr later ↦ ground (arith, some_, known, later, h)
            | inl expired ↦ elim (Result-cases (sso.refresh_access_token token)) [
              | inl (new, got) ↦ ground (arith, some_, known, expired, got, h)
              | inr (e, failed) ↦ elim (Bool-cases (is_refusal e)) [
                | inl refusal ↦ ground (arith, some_, known, expired, failed, refusal, h)
                | inr failure ↦ absurd (ground (arith, some_, known, expired, failed, failure, h))
              ]
            ]
          ]
        ]
      ]

  -- The character of a request is the session's.
  get_current_character-id :
      (site : Site) (character : CharacterDocument)
      → IsKeyed site.characters
      → (get_current_character sso now site).0 ≡ ok character
      → site.session.character_id ≡ some character.id
  unfolding get_current_character get_current_character_optional write_updates
  get_current_character-id site character keyed h = elim (Option-cases site.session.character_id) [
    | inl absent ↦ absurd (ground (arith, absent, h))
    | inr (k, present) ↦ elim (Option-cases (get k site.characters)) [
      | inl unknown ↦ absurd (ground (arith, present, unknown, h))
      | inr (stored, found) ↦ elim (Result-cases (refresh_own sso now stored)) [
        | inr (e, failed) ↦ absurd (ground (arith, present, found, failed, h))
        | inl (signed_out, own) ↦ absurd (ground (arith, present, found, own, h))
        | inl (current document updates, own) ↦
            elim (Result-cases (refresh_corp sso now document updates)) [
              | inr (e, failed) ↦ absurd (ground (arith, present, found, own, failed, h))
              | inl ((document', updates'), corp) ↦ ground (
                arith,
                present,
                found,
                own,
                corp,
                h,
                keyed k stored found,
                refresh_own-id stored document updates own,
                refresh_corp-id document document' updates updates' corp,
              )
            ]
      ]
    ]
  ]

  -- A request changes no document but the one of the session's character.
  get_current_character-others :
      (site : Site) (k j : ℕ)
      → site.session.character_id ≡ some k
      → (k == j) ≡ false
      → get j (get_current_character sso now site).1.characters ≡ get j site.characters
  unfolding get_current_character get_current_character_optional write_updates
  get_current_character-others site k j here other = elim (Option-cases (get k site.characters)) [
    | inl unknown ↦ ground (arith, here, unknown)
    | inr (stored, found) ↦ elim (Result-cases (refresh_own sso now stored)) [
      | inr (e, failed) ↦ ground (arith, here, found, failed)
      | inl (signed_out, own) ↦ ground (arith, here, found, own)
      | inl (current document updates, own) ↦
          elim (Result-cases (refresh_corp sso now document updates)) [
            | inr (e, failed) ↦ ground (arith, here, found, own, failed)
            | inl ((document', false), corp) ↦ ground (arith, here, found, own, corp)
            | inl ((document', true), corp) ↦ ground (
              arith,
              here,
              found,
              own,
              corp,
              other,
              get-put k j (record document' { updated_at = now }) site.characters,
            )
          ]
    ]
  ]

-- A browser that is signed out has no character, at any time.
get_current_character_signed_out :
    (sso : Sso) (now : ℕ) (site : Site)
    → site.session.character_id ≡ none
    → get_current_character sso now site ≡ (raise (http_exception 401), site)
unfolding get_current_character get_current_character_optional
get_current_character_signed_out sso now site h = rw h refl

get_current_character_optional_signed_out :
    (sso : Sso) (now : ℕ) (site : Site)
    → site.session.character_id ≡ none
    → get_current_character_optional sso now site ≡ (ok none, site)
unfolding get_current_character_optional
get_current_character_optional_signed_out sso now site h = rw h refl

-- If every document stands under its own id, and the deletion of the data is answered: the session has a
-- character, whose document is deleted, where those of all others are as they were; its rows are gone
-- from the personal collections, and every other owner's rows of every collection are as they were; and
-- on the site as it is left, at any time and whatever EVE SSO answers then, the browser has no character:
-- a page that needs one is refused with the status 401, and a page for which it is optional is shown
-- without one.
pub clear_data_signs_out {ℓ} :
    {V : Type ℓ} (sso sso' : Sso) (now later : ℕ) (site site' : Site) (s s' : Store V)
    (target : String) (d : String) (p : Owner) (j : ℕ)
    → IsKeyed site.characters
    → clear_data sso now site s ≡ (ok target, (site', s'))
    → (k : ℕ) × (site.session.character_id ≡ some k)
      × (get j site'.characters ≡ (if k == j then none else get j site.characters))
      × (owned p (rows d s') ≡ (
          if covers d personal_sources && is_same (character_id k) p
          then []
          else owned p (rows d s)))
      × (get_current_character sso' later site' ≡ (raise (http_exception 401), site'))
      × (get_current_character_optional sso' later site' ≡ (ok none, site'))
unfolding clear_data logout
clear_data_signs_out sso sso' now later site site' s s' target d p j keyed h =
    elim (Result-cases (get_current_character sso now site).0) [
      | inr (e, failed) ↦ absurd (ground (arith, failed, h))
      | inl (character, got) ↦
          let middle = (get_current_character sso now site).1 in
          let deleted = clear_character_data-rows character s middle.characters d p j in
          let id = get_current_character-id sso now site character keyed got in
          (
            character.id,
            id,
            elim (Bool-cases (character.id == j)) [
              | inl same ↦ ground (arith, got, h, deleted.1, same)
              | inr other ↦ ground (
                arith,
                got,
                h,
                deleted.1,
                other,
                get_current_character-others sso now site character.id j id other,
              )
            ],
            ground (arith, got, h, deleted.0),
            get_current_character_signed_out sso' later site' (ground (arith, got, h)),
            get_current_character_optional_signed_out sso' later site' (ground (arith, got, h)),
          )
    ]
