-- ===== src/Deps/Fresh.antt =====
-- What a request gets of its character: a token that is valid, as it is stored.
use aobp.Prelude.{
  ℕ, ◌<◌, ◌≡◌, refl, String, Bool, true, false, some, leb, arith, nat_eq, nat_beq_iff, Bool-cases,
  Option-cases, inl, inr,
}
use aobp.Result.{Result-cases, ok}
use aobp.Dict.{get, get-put}
use aobp.Character.{CharacterDocument}
use aobp.Auth.{TokenResponse, Site, Sso}
use aobp.Deps.{
  is_refusal, current, signed_out, refresh_own, refresh_corp, write_updates,
  get_current_character_optional,
}

module _ (sso : Sso) (now : ℕ)
    (lasting : (t : String) (token : TokenResponse)
      → sso.refresh_access_token t ≡ ok token
      → 0 < token.expires_in) where
  refresh_own-lt :
      (stored document : CharacterDocument) (updates : Bool)
      → refresh_own sso now stored ≡ ok (current document updates)
      → now < document.access_token_expires_at
  unfolding refresh_own
  refresh_own-lt stored document updates h =
      elim (Bool-cases (leb stored.access_token_expires_at now)) [
        | inr later ↦ ground (arith, later, h)
        | inl expired ↦ elim (Result-cases (sso.refresh_access_token stored.refresh_token)) [
          | inl (token, got) ↦
              ground (arith, expired, got, h, lasting stored.refresh_token token got)
          | inr (e, failed) ↦ elim (Bool-cases (is_refusal e)) [
            | inl refusal ↦ absurd (ground (arith, expired, failed, refusal, h))
            | inr failure ↦ absurd (ground (arith, expired, failed, failure, h))
          ]
        ]
      ]

  -- Without updates the document is the one that is stored.
  refresh_own-unchanged :
      (stored document : CharacterDocument)
      → refresh_own sso now stored ≡ ok (current document false)
      → document ≡ stored
  unfolding refresh_own
  refresh_own-unchanged stored document h =
      elim (Bool-cases (leb stored.access_token_expires_at now)) [
        | inr later ↦ ground (arith, later, h)
        | inl expired ↦ elim (Result-cases (sso.refresh_access_token stored.refresh_token)) [
          | inl (token, got) ↦ absurd (ground (arith, expired, got, h))
          | inr (e, failed) ↦ elim (Bool-cases (is_refusal e)) [
            | inl refusal ↦ absurd (ground (arith, expired, failed, refusal, h))
            | inr failure ↦ absurd (ground (arith, expired, failed, failure, h))
          ]
        ]
      ]

  -- The corporation's token does not touch the character's own.
  refresh_corp-own :
      (document document' : CharacterDocument) (updates updates' : Bool)
      → refresh_corp sso now document updates ≡ ok (document', updates')
      → (document'.access_token_expires_at ≡ document.access_token_expires_at)
        × (updates' ≡ false → (updates ≡ false) × (document' ≡ document))
  unfolding refresh_corp
  refresh_corp-own document document' updates updates' h =
      elim (Option-cases document.corp_refresh_token) [
        | inl none_ ↦ (
          ground (arith, none_, h),
          λ u. (ground (arith, none_, h, u), ground (arith, none_, h, u)),
        )
        | inr (token, some_) ↦ elim (Option-cases document.corp_access_token_expires_at) [
          | inl none_ ↦ (
            ground (arith, some_, none_, h),
            λ u. (ground (arith, some_, none_, h, u), ground (arith, some_, none_, h, u)),
          )
          | inr (at, known) ↦ elim (Bool-cases (leb at now)) [
            | inr later ↦ (
              ground (arith, some_, known, later, h),
              λ u. (
                ground (arith, some_, known, later, h, u),
                ground (arith, some_, known, later, h, u),
              ),
            )
            | inl expired ↦ elim (Result-cases (sso.refresh_access_token token)) [
              | inl (new, got) ↦ (
                ground (arith, some_, known, expired, got, h),
                λ u. absurd (ground (arith, some_, known, expired, got, h, u)),
              )
              | inr (e, failed) ↦ elim (Bool-cases (is_refusal e)) [
                | inl refusal ↦ (
                  ground (arith, some_, known, expired, failed, refusal, h),
                  λ u. absurd (ground (arith, some_, known, expired, failed, refusal, h, u)),
                )
                | inr failure ↦ absurd (ground (arith, some_, known, expired, failed, failure, h))
              ]
            ]
          ]
        ]
      ]

  -- If the tokens that EVE SSO hands out last at all: the character that a request gets has an access
  -- token that has not expired, and is the document that is stored of the session's character.
  pub get_current_character_optional_fresh :
      (site : Site) (document : CharacterDocument)
      → (get_current_character_optional sso now site).0 ≡ ok (some document)
      → (now < document.access_token_expires_at)
        × ((id : ℕ) × (site.session.character_id ≡ some id)
            × (get id (get_current_character_optional sso now site).1.characters ≡ some document))
  unfolding get_current_character_optional write_updates
  get_current_character_optional_fresh site document h =
      elim (Option-cases site.session.character_id) [
        | inl nobody ↦ absurd (ground (arith, nobody, h))
        | inr (id, here) ↦ elim (Option-cases (get id site.characters)) [
          | inl absent ↦ absurd (ground (arith, here, absent, h))
          | inr (stored, present) ↦ elim (Result-cases (refresh_own sso now stored)) [
            | inr (e, failed) ↦ absurd (ground (arith, here, present, failed, h))
            | inl (signed_out, refused) ↦ absurd (ground (arith, here, present, refused, h))
            | inl (current own updates, fresh) ↦
                elim (Result-cases (refresh_corp sso now own updates)) [
                  | inr (e, failed) ↦ absurd (ground (arith, here, present, fresh, failed, h))
                  | inl ((whole, false), done) ↦
                      let kept = refresh_corp-own own whole updates false done in
                      let same = kept.1 refl in
                      let as_stored =
                        refresh_own-unchanged stored own (ground (arith, fresh, same.0)) in
                      (
                        ground (
                          arith,
                          here,
                          present,
                          fresh,
                          done,
                          h,
                          kept.0,
                          refresh_own-lt stored own updates fresh,
                        ),
                        (
                          id,
                          here,
                          ground (arith, here, present, fresh, done, h, same.1, as_stored),
                        ),
                      )
                  | inl ((whole, true), done) ↦
                      let kept = refresh_corp-own own whole updates true done in
                      (
                        ground (
                          arith,
                          here,
                          present,
                          fresh,
                          done,
                          h,
                          kept.0,
                          refresh_own-lt stored own updates fresh,
                        ),
                        (
                          id,
                          here,
                          ground (
                            arith,
                            here,
                            present,
                            fresh,
                            done,
                            h,
                            nat_beq_iff id id,
                            get-put id id (record whole { updated_at = now }) site.characters,
                          ),
                        ),
                      )
                ]
          ]
        ]
      ]
