-- ===== src/EsiCache/Rows.antt =====
-- What the operations of esi_cache.py do to the rows of each owner in MongoDB.
use aobp.Prelude.{
  ℕ, suc, ◌&&◌, ◌≡◌, refl, ap, String, true, not, none, some, List, [], ◌∷◌, ◌++◌, map,
  if◌then◌else◌, nat_eq, string_eq, nat_beq_iff, keep, ◌==◌, get_or, arith, Eq, Bool-cases,
  Option-cases, inl, inr,
}
use aobp.Result.{Result, ok, raise}
use aobp.Text.{cache_key}
use aobp.Dict.{get, put, get-put}
use aobp.Cache.{get_many_cached}
use aobp.EsiCache.{
  Owner, character_id, corporation_id, is_same, owner_id, Row, Store, EntryType, rows, delete_many,
  insert_many, tag, invalidate_list, cached_entries, save_entries, cached_list,
}

-- The rows of one owner.
unfoldable pub owned {ℓ} : {V : Type ℓ} → Owner → List (Row V) → List (Row V)
owned o rs = keep (λ r. is_same o (Row.owner r)) rs

pub is_same_refl : (o : Owner) → is_same o o ≡ true
unfolding is_same
is_same_refl (character_id a) = ground (arith, nat_beq_iff a a)
is_same_refl (corporation_id a) = ground (arith, nat_beq_iff a a)

-- Ownership as an equation.
pub is_same-eq : (a b : Owner) → is_same a b ≡ true → a ≡ b
unfolding is_same
is_same-eq (character_id a) (character_id b) h = ap character_id ((nat_beq_iff a b).0 h)
is_same-eq (corporation_id a) (corporation_id b) h = ap corporation_id ((nat_beq_iff a b).0 h)
is_same-eq (character_id a) (corporation_id b) h = absurd (cc)
is_same-eq (corporation_id a) (character_id b) h = absurd (cc)

module _ {ℓ} {V : Type ℓ} where
  owned-append : (o : Owner) (xs ys : List (Row V)) → owned o (xs ++ ys) ≡ owned o xs ++ owned o ys
  unfolding owned keep
  owned-append o [] ys = refl
  owned-append o (x ∷ xs) ys = ground (arith, owned-append o xs ys)

  -- Without the rows of `o`, every other owner's rows are as before.
  owned-without :
      (o p : Owner) (rs : List (Row V))
      → owned p (keep (λ r. not (is_same o (Row.owner r))) rs)
        ≡ (if is_same o p then [] else owned p rs)
  unfolding owned keep
  owned-without o p [] = ground arith
  owned-without o p (r ∷ rs) = ground (
    arith,
    is_same-eq o (Row.owner r),
    is_same-eq p (Row.owner r),
    is_same_refl o,
    is_same_refl p,
    owned-without o p rs,
  )

  owned-tag :
      (o p : Owner) (now : ℕ) (entries : List V)
      → owned p (map (tag o now) entries) ≡ (if is_same o p then map (tag o now) entries else [])
  unfolding owned keep
  owned-tag o p now [] = ground arith
  owned-tag o p now (x ∷ xs) =
      ground (
        arith,
        is_same-eq o p,
        is_same-eq p o,
        is_same_refl o,
        is_same_refl p,
        owned-tag o p now xs,
      )

  pub rows-put :
      (c d : String) (rs : List (Row V)) (s : Store V)
      → get_or (get d (put c rs s.collections)) [] ≡ (if c == d then rs else rows d s)
  rows-put c d rs s = ground (arith, get-put c d rs s.collections)

  delete_many-rows :
      (c : String) (o : Owner) (s : Store V) (d : String) (p : Owner)
      → owned p (rows d (delete_many c o s))
        ≡ (if c == d && is_same o p then [] else owned p (rows d s))
  unfolding delete_many
  delete_many-rows c o s d p = elim (Bool-cases (c == d)) [
    | inl same ↦
        let e = (Eq.beq_iff string_eq c d).0 same in
        ground (
          arith,
          rows-put c d (keep (λ r. not (is_same o (Row.owner r))) (rows c s)) s,
          owned-without o p (rows c s),
          ap (λ x. rows x s) e,
        )
    | inr other ↦
        ground (arith, rows-put c d (keep (λ r. not (is_same o (Row.owner r))) (rows c s)) s)
  ]

  append_nil : (xs : List (Row V)) → xs ++ [] ≡ xs
  append_nil [] = refl
  append_nil (x ∷ xs) = ap (λ ys. x ∷ ys) (append_nil xs)

  insert_many-rows :
      (c : String) (o : Owner) (now : ℕ) (entries : List V) (s : Store V) (d : String) (p : Owner)
      → owned p (rows d (insert_many c (map (tag o now) entries) s)) ≡ (
          if c == d && is_same o p
          then owned p (rows d s) ++ map (tag o now) entries
          else owned p (rows d s))
  unfolding insert_many
  insert_many-rows c o now entries s d p =
      let new = map (tag o now) entries in
      elim (Bool-cases (c == d)) [
        | inl same ↦
            let e = (Eq.beq_iff string_eq c d).0 same in
            ground (
              arith,
              rows-put c d (rows c s ++ new) s,
              owned-append p (rows c s) new,
              owned-tag o p now entries,
              append_nil (owned p (rows c s)),
              ap (λ x. rows x s) e,
            )
        | inr other ↦ ground (arith, rows-put c d (rows c s ++ new) s)
      ]

  -- Invalidation removes exactly the owner's rows from the collection: the rows of every other
  -- owner, and every other collection, stay.
  pub invalidate_list-rows :
      (c prefix : String) (o : Owner) (s : Store V) (d : String) (p : Owner)
      → owned p (rows d (invalidate_list c prefix o s))
        ≡ (if c == d && is_same o p then [] else owned p (rows d s))
  unfolding invalidate_list
  invalidate_list-rows c prefix o s d p = delete_many-rows c o s d p

  module _ {κ} {T : Type κ} (class : EntryType V T) where
    save_entries-rows :
        (c key : String) (o : Owner) (ttl now : ℕ) (entries : List T) (s : Store V) (d : String)
        (p : Owner)
        → owned p (rows d (save_entries class c key o ttl now entries s)) ≡ (
            if c == d && is_same o p
            then map (tag o now) (map class.asdict entries)
            else owned p (rows d s))
    unfolding save_entries
    save_entries-rows c key o ttl now entries s d p =
        let dicts = map class.asdict entries in
        ground (
          arith,
          insert_many-rows c o now dicts (delete_many c o s) d p,
          delete_many-rows c o s d p,
        )

    -- Whatever `fetch` does: if the cache has a usable answer, or `fetch` raises, no row changes. Else
    -- the owner's rows of the collection are exactly the entries that were fetched, tagged with the
    -- owner and the time, and the rows of every other owner and collection are as before.
    pub cached_list-rows :
        (c prefix : String) (o : Owner) (ttl now : ℕ) (fetch : Result (List T)) (s : Store V)
        (d : String) (p : Owner)
        → owned p (rows d (cached_list class c prefix o ttl fetch now s).1)
          ≡ elim (cached_entries class
              (cache_key prefix (owner_id o))
              (get_many_cached s.cache (cache_key prefix (owner_id o) ∷ [])).0) [
                | some entries ↦ owned p (rows d s)
                | none ↦ elim fetch [
                  | raise e ↦ owned p (rows d s)
                  | ok entries ↦
                      if c == d && is_same o p
                      then map (tag o now) (map class.asdict entries)
                      else owned p (rows d s)
                ]
              ]
    unfolding cached_list
    cached_list-rows c prefix o ttl now (raise e) s d p =
        let key = cache_key prefix (owner_id o) in
        elim (Option-cases (cached_entries class key (get_many_cached s.cache (key ∷ [])).0)) [
          | inr (entries, hit) ↦ rw (hit, cached_list)
          | inl miss ↦ rw (miss, cached_list)
        ]
    cached_list-rows c prefix o ttl now (ok entries) s d p =
        let key = cache_key prefix (owner_id o) in
        let (cached, cache₁) = get_many_cached s.cache (key ∷ []) in
        let asked = record s { cache = cache₁; requests = suc s.requests } in
        elim (Option-cases (cached_entries class key cached)) [
          | inr (old, hit) ↦ rw (hit, cached_list)
          | inl miss ↦ rw (miss, cached_list) (save_entries-rows c key o ttl now entries asked d p)
        ]
