-- ===== src/Auth/Callback.antt =====
-- What a redirection from EVE SSO can do to the session and the stored characters.
use aobp.Prelude.{
  ℕ, ◌≡◌, refl, sym, ap, subst, ◌∙◌, String, Bool, true, false, Option, none, some, ◌==◌, nat_eq,
  string_eq, nat_beq_iff, Eq, arith, Bool-cases, Option-cases, ◌⊎◌, inl, inr,
}
use aobp.Result.{Result, Result-cases, ok, raise}
use aobp.Dict.{Dict, get, put, get-put}
use aobp.Character.{CharacterDocument}
use aobp.Auth.{
  TokenResponse, CharacterClaims, Site, Sso, filled, is_state, bad_request, login_document,
  corp_document, update_one, complete_login, complete_corp_connection, callback,
}

-- The character of the session after a login, and its stored document.
abbrev pub IsAlone : Site → Type 0
IsAlone site =
    (id : ℕ) × (document : CharacterDocument) × (site.session.character_id ≡ some id)
    × (get id site.characters ≡ some document)
    × (document.corp_refresh_token ≡ none)

-- Whether a redirection goes to the start page.
abbrev is_home : Result String → Bool
is_home (ok target) = target == "/"
is_home (raise e) = false

module _ (sso : Sso) (now : ℕ) where
  -- What a callback may do: fail and change nothing, log a character in, or connect its corporation.
  pub data Outcome (state : String) (site : Site) : Result String × Site → Type 0 where
    refused : {r : Result String × Site} (e : _) → r ≡ (raise e, site) → Outcome state site r
    logged_in :
        {r : Result String × Site} (token : TokenResponse) (claims : CharacterClaims)
        → filled site.session.pkce_state ≡ some state
        → sso.validate_access_token token.access_token ≡ ok claims
        → r ≡ (
          ok "/",
          record {
            session = record site.session {
              pkce_verifier = none;
              pkce_state = none;
              character_id = some claims.character_id;
            };
            characters =
                put claims.character_id
                  (login_document now token claims (get claims.character_id site.characters))
                  site.characters;
          },
        )
        → Outcome state site r
    connected :
        {r : Result String × Site} (id corporation_id : ℕ) (token : TokenResponse)
        (claims : CharacterClaims)
        → site.session.corp_pkce_state ≡ some state
        → site.session.character_id ≡ some id
        → claims.character_id ≡ id
        → sso.validate_access_token token.access_token ≡ ok claims
        → r ≡ (
          ok "/settings",
          record {
            session = record site.session { corp_pkce_verifier = none; corp_pkce_state = none };
            characters =
                update_one id (corp_document now corporation_id token claims) site.characters;
          },
        )
        → Outcome state site r

  is_state-eq : (state : String) (o : Option String) → is_state state o ≡ true → o ≡ some state
  is_state-eq state none h = absurd (cc)
  is_state-eq state (some expected) h = ap some (sym ((Eq.beq_iff string_eq state expected).0 h))

  complete_login-Outcome :
      (code state : String) (site : Site)
      → Outcome state site (complete_login sso now code state site)
  unfolding complete_login
  complete_login-Outcome code state site = elim (Option-cases (filled site.session.pkce_verifier)) [
    | inl absent ↦ refused bad_request (rw (absent, complete_login))
    | inr (verifier, present) ↦
        elim (Bool-cases (is_state state (filled site.session.pkce_state))) [
          | inr other ↦ refused bad_request (rw (present, other, complete_login))
          | inl same ↦ elim (Result-cases (sso.exchange_code_for_token code verifier)) [
            | inr (e, failed) ↦ refused e (rw (present, same, failed, complete_login))
            | inl (token, exchanged) ↦
                elim (Result-cases (sso.validate_access_token token.access_token)) [
                  | inr (e, failed) ↦
                      refused e (rw (present, same, exchanged, failed, complete_login))
                  | inl (claims, valid) ↦
                      logged_in token claims (is_state-eq state _ same) valid
                        (rw (present, same, exchanged, valid, complete_login))
                ]
          ]
        ]
  ]

  complete_corp_connection-Outcome :
      (code state : String) (site : Site)
      → site.session.corp_pkce_state ≡ some state
      → Outcome state site (complete_corp_connection sso now code site)
  unfolding complete_corp_connection
  complete_corp_connection-Outcome code state site pending =
      elim (Option-cases (filled site.session.corp_pkce_verifier)) [
        | inl absent ↦ refused bad_request (ground (arith, absent))
        | inr (verifier, present) ↦ elim (Option-cases site.session.character_id) [
          | inl nobody ↦ refused bad_request (ground (arith, present, nobody))
          | inr (id, here) ↦ elim (Result-cases (sso.exchange_code_for_token code verifier)) [
            | inr (e, failed) ↦ refused e (ground (arith, present, here, failed))
            | inl (token, got) ↦
                elim (Result-cases (sso.validate_access_token token.access_token)) [
                  | inr (e, failed) ↦ refused e (ground (arith, present, here, got, failed))
                  | inl (claims, valid) ↦ elim (Bool-cases (claims.character_id == id)) [
                    | inr other ↦
                        refused bad_request (ground (arith, present, here, got, valid, other))
                    | inl same ↦
                        elim (Result-cases (sso.get_character_public_info claims.character_id)) [
                          | inr (e, failed) ↦
                              refused e (ground (arith, present, here, got, valid, same, failed))
                          | inl (corporation_id, known) ↦
                              let e = (nat_beq_iff claims.character_id id).0 same in
                              connected id corporation_id token claims pending here e valid
                                (ground (arith, present, here, got, valid, same, known, e))
                        ]
                  ]
                ]
          ]
        ]
      ]

  callback-Outcome :
      (code state : String) (site : Site) → Outcome state site (callback sso now code state site)
  unfolding callback
  callback-Outcome code state site =
      elim (Bool-cases (is_state state site.session.corp_pkce_state)) [
        | inl corp ↦
            rw (corp, callback)
              (complete_corp_connection-Outcome code state site (is_state-eq state _ corp))
        | inr base ↦ rw (base, callback) (complete_login-Outcome code state site)
      ]

  filled-eq : (o : Option String) (s : String) → filled o ≡ some s → o ≡ some s
  filled-eq none s h = absurd (cc)
  filled-eq (some t) s h = ground (arith, h)

  Outcome-guarded :
      {state target : String} {site : Site} {r : Result String × Site}
      → Outcome state site r
      → r.0 ≡ ok target
      → (site.session.pkce_state ≡ some state) ⊎ (site.session.corp_pkce_state ≡ some state)
  Outcome-guarded (refused e f) h = absurd (ground (arith, ap (λ x. x.0) f, h))
  Outcome-guarded {state} {site = site} (logged_in token claims pending _ _) h =
      inl (filled-eq site.session.pkce_state state pending)
  Outcome-guarded (connected _ _ _ _ pending _ _ _ _) h = inr pending

  -- A callback succeeds only if its state is one that this browser's session is waiting for.
  pub callback-guarded :
      (code state target : String) (site : Site)
      → (callback sso now code state site).0 ≡ ok target
      → (site.session.pkce_state ≡ some state) ⊎ (site.session.corp_pkce_state ≡ some state)
  callback-guarded code state target site h = Outcome-guarded (callback-Outcome code state site) h

  -- EVE SSO vouches for the character with a token.
  abbrev pub Vouched : ℕ → Type 0
  Vouched k =
      (token : String) × (claims : CharacterClaims) × (sso.validate_access_token token ≡ ok claims)
      × (claims.character_id ≡ k)

  -- What may have become of a character's stored document, and of the session's character: they are as
  -- they were, or the character is the one that is signed in afterwards, and EVE SSO vouches for it.
  abbrev pub IsOwn : ℕ → Site → Site → Type 0
  IsOwn k before after =
      ((get k after.characters ≡ get k before.characters)
        ⊎ ((after.session.character_id ≡ some k) × Vouched k))
      × ((after.session.character_id ≡ before.session.character_id)
          ⊎ ((id : ℕ) × (after.session.character_id ≡ some id) × Vouched id))

  Outcome-IsAlone :
      {state : String} {site : Site} {r : Result String × Site}
      → Outcome state site r
      → r.0 ≡ ok "/"
      → IsAlone r.1
  unfolding login_document
  Outcome-IsAlone (refused e f) h = absurd (ground (arith, ap (λ x. x.0) f, h))
  Outcome-IsAlone {site = site} (logged_in token claims _ _ f) h =
      let document = login_document now token claims (get claims.character_id site.characters) in
      subst (λ x. IsAlone x.1) (sym f)
        (
          claims.character_id,
          document,
          refl,
          ground (
            arith,
            get-put claims.character_id claims.character_id document site.characters,
            nat_beq_iff claims.character_id claims.character_id,
          ),
          refl,
        )
  Outcome-IsAlone (connected _ _ _ _ _ _ _ _ f) h =
      let e : false ≡ true = ap is_home (sym (ap (λ x. x.0) f) ∙ h) in absurd (cc)

  -- A login that succeeds stores a document of the character in which no corporation data is
  -- connected, whether or not it was connected before.
  pub callback_disconnects :
      (code state : String) (site : Site)
      → (callback sso now code state site).0 ≡ ok "/"
      → IsAlone (callback sso now code state site).1
  callback_disconnects code state site h = Outcome-IsAlone (callback-Outcome code state site) h
