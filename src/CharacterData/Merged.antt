-- ===== src/CharacterData/Merged.antt =====
-- Merging with the corporation's entries never loses the character's own.
use aobp.Prelude.{
  ℕ, ◌≡◌, refl, ap, ◌∙◌, String, Bool, true, false, none, List, ◌++◌, nat_eq, string_eq, ◌==◌,
  get_or, arith, Bool-cases, ◌⊎◌, inl, inr,
}
use aobp.Result.{
  Result, Result-cases, ok, raise, http_status_error, http_exception, transport_error,
  zero_division_error, overflow_error, key_error, type_error, value_error, invalid_token_error,
  bulk_write_error, duplicate_key_error, crashed, out_of_fuel,
}
use aobp.Character.{CharacterDocument}
use aobp.EsiCache.{Store, EntryType, cached_corporation_list}
use aobp.CharacterData.{
  Source, forgive, add_corp, list_ttl, corp_data_connected, corporation_of, corp_list_or_none,
  get_character_list, merge_corp, get_merged,
}

forgive_denied {κ} :
    {A : Type κ} (code : ℕ)
    → (code ≡ 401) ⊎ (code ≡ 403)
    → forgive {A = A} (raise (http_status_error code)) ≡ ok none
unfolding forgive
forgive_denied code denied = ground arith

module _ {ℓ κ} {V : Type ℓ} {T : Type κ} where
  module _ (class : EntryType V T) (ask ask_corp : String → ℕ → Result (List T)) where
    -- What the corporation's list of the character's corporation answers, through its cache.
    abbrev pub corp_answer : Source → CharacterDocument → ℕ → Store V → Result (List T)
    corp_answer corp_src character now s =
        (cached_corporation_list class corp_src.collection_name corp_src.cache_key_prefix
          (corporation_of character) list_ttl
          (ask_corp (get_or character.corp_access_token "") (corporation_of character)) now s).0

    -- What a merged answer consists of, with the corporation's list `corp`.
    pub data Merges (connected : Bool) (corp : Result (List T)) (personal : List T)
        (answer : List T × Bool) : Type κ where
      not_connected :
          connected ≡ false → answer ≡ (personal, false) → Merges connected corp personal answer
      turned_down :
          (code : ℕ)
          → connected ≡ true
          → corp ≡ raise (http_status_error code)
          → (code ≡ 401) ⊎ (code ≡ 403)
          → answer ≡ (personal, false)
          → Merges connected corp personal answer
      shared :
          (entries : List T)
          → connected ≡ true
          → corp ≡ ok entries
          → answer ≡ (personal ++ entries, true)
          → Merges connected corp personal answer

    abbrev Adds : Result (List T) → Type κ
    Adds r =
        (personal : List T) (answer : List T × Bool)
        → add_corp personal (forgive r) ≡ ok answer
        → Merges true r personal answer

    add_corp-refused :
        (code : ℕ) (personal : List T) (answer : List T × Bool)
        → add_corp personal (forgive (raise (http_status_error code))) ≡ ok answer
        → Merges true (raise (http_status_error code)) personal answer
    unfolding add_corp forgive
    add_corp-refused code personal answer h = elim (Bool-cases (code == 401)) [
      | inl e ↦ turned_down code refl refl (inl (ground (arith, e))) (ground (arith, e, h))
      | inr other ↦ elim (Bool-cases (code == 403)) [
        | inl e ↦ turned_down code refl refl (inr (ground (arith, e))) (ground (arith, e, h))
        | inr neither ↦ absurd (ground (arith, other, neither, h))
      ]
    ]

    add_corp-Merges : (r : Result (List T)) → Adds r
    unfolding add_corp forgive
    add_corp-Merges (ok entries) personal answer h = shared entries refl refl (cc)
    add_corp-Merges (raise (http_status_error code)) personal answer h =
        add_corp-refused code personal answer h
    add_corp-Merges (raise (http_exception code)) personal answer h = absurd (cc)
    add_corp-Merges (raise transport_error) personal answer h = absurd (cc)
    add_corp-Merges (raise zero_division_error) personal answer h = absurd (cc)
    add_corp-Merges (raise overflow_error) personal answer h = absurd (cc)
    add_corp-Merges (raise key_error) personal answer h = absurd (cc)
    add_corp-Merges (raise type_error) personal answer h = absurd (cc)
    add_corp-Merges (raise value_error) personal answer h = absurd (cc)
    add_corp-Merges (raise invalid_token_error) personal answer h = absurd (cc)
    add_corp-Merges (raise bulk_write_error) personal answer h = absurd (cc)
    add_corp-Merges (raise duplicate_key_error) personal answer h = absurd (cc)
    add_corp-Merges (raise crashed) personal answer h = absurd (cc)
    add_corp-Merges (raise out_of_fuel) personal answer h = absurd (cc)

    merge_corp-Merges :
        (corp_src : Source) (character : CharacterDocument) (personal : List T) (now : ℕ)
        (s : Store V) (answer : List T × Bool)
        → (merge_corp character personal
            (λ token id. corp_list_or_none class ask_corp corp_src token id now)
            s).0
          ≡ ok answer
        → Merges
            (corp_data_connected character)
            (corp_answer corp_src character now s)
            personal
            answer
    unfolding merge_corp corp_list_or_none
    merge_corp-Merges corp_src character personal now s answer h =
        elim (Bool-cases (corp_data_connected character)) [
          | inl connected ↦ rw connected (
              add_corp-Merges (corp_answer corp_src character now s) personal answer
                (rw (connected, merge_corp) at h))
          | inr alone ↦
              let e : ok (personal, false) ≡ ok answer = rw (alone, merge_corp) at h in
              not_connected alone (cc)
        ]

    -- A merged list that is returned is the character's own list, as it is read first, alone or with
    -- all the entries of the list of the character's corporation behind it, as that is read next. It is
    -- alone exactly if no corporation data is connected, or if the corporation's list is refused with
    -- the status 401 or 403; and the flag says which of the two it is.
    pub get_merged-Merges :
        (src corp_src : Source) (character : CharacterDocument) (now : ℕ) (s : Store V)
        (answer : List T × Bool)
        → (get_merged class ask ask_corp src corp_src character now s).0 ≡ ok answer
        → (personal : List T) × ((get_character_list class ask src character.access_token
              character.id now s).0
            ≡ ok personal)
          × Merges
              (corp_data_connected character)
              (corp_answer corp_src character now
                (get_character_list class ask src character.access_token character.id now s).1)
              personal
              answer
    unfolding get_merged
    get_merged-Merges src corp_src character now s answer h =
        let own = get_character_list class ask src character.access_token character.id now s in
        elim (Result-cases own.0) [
          | inl (personal, e) ↦ (
            personal,
            e,
            merge_corp-Merges corp_src character personal now own.1 answer
                (rw (e, get_merged) at h),
          )
          | inr (error, e) ↦ absurd (ground (arith, e, h))
        ]

    -- Where the corporation's list fails because the character lacks the role (403) or the token
    -- lacks the scope (401), the character's own list is returned all the same.
    pub get_merged-without_permission :
        (src corp_src : Source) (character : CharacterDocument) (now : ℕ) (s : Store V)
        (personal : List T) (code : ℕ)
        → (get_character_list class ask src character.access_token character.id now s).0
          ≡ ok personal
        → (code ≡ 401) ⊎ (code ≡ 403)
        → (cached_corporation_list class corp_src.collection_name corp_src.cache_key_prefix
            (corporation_of character)
            list_ttl
            (ask_corp (get_or character.corp_access_token "") (corporation_of character))
            now
            (get_character_list class ask src character.access_token character.id now s).1).0
          ≡ raise (http_status_error code)
        → (get_merged class ask ask_corp src corp_src character now s).0 ≡ ok (personal, false)
    unfolding get_merged merge_corp add_corp corp_list_or_none forgive
    get_merged-without_permission src corp_src character now s personal code own denied refused =
        elim (Bool-cases (corp_data_connected character)) [
          | inl connected ↦
              rw (own, get_merged)
                (rw (connected, merge_corp)
                  (ap (λ r. add_corp personal (forgive r)) refused
                    ∙ ap (add_corp personal) (forgive_denied code denied)))
          | inr alone ↦ rw (own, get_merged) (rw (alone, merge_corp))
        ]
