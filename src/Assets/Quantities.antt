-- ===== src/Assets/Quantities.antt =====
-- How many of a type there are at a place, and what the loops over the assets make of it.
use aobp.Prelude.{
  ℕ, ◌+◌, ◌≡◌, refl, Bool, ◌&&◌, List, [], ◌∷◌, map, arith, nat_eq, nat_beq_iff, keep,
  if◌then◌else◌, ◌==◌,
}
use aobp.Result.{ok}
use aobp.Text.{sorted, insert_sorted}
use aobp.Dict.{Dict, get, put, values}
use aobp.Dict.Amounts.{add_to, total, total-add_to}
use aobp.Locations.Chain.{resolve_container_chain-Ends}
use aobp.Assets.{Asset, assets_by_item_id, place, sum_of}
use aobp.Assets.Details.{sum_by_location, sum_by_type, located_at}

-- The quantity of the assets that pass a test.
unfoldable pub owned : (Asset → Bool) → List Asset → ℕ
owned test [] = 0
owned test (asset ∷ assets) = (if test asset then asset.quantity else 0) + owned test assets

pub owned-keep :
    (test test' : Asset → Bool) (assets : List Asset)
    → owned test (keep test' assets) ≡ owned (λ a. test' a && test a) assets
unfolding owned keep
owned-keep test test' [] = refl
owned-keep test test' (a ∷ assets) = ground (arith, owned-keep test test' assets)

module _ {A : Type 0} (le : A → A → Bool) (line : A → ℕ × ℕ) (k : ℕ) where
  total-insert_sorted :
      (x : A) (ys : List A)
      → total k (map line (insert_sorted le x ys)) ≡ total k (map line (x ∷ ys))
  unfolding total insert_sorted
  total-insert_sorted x [] = refl
  total-insert_sorted x (y ∷ ys) = ground (arith, total-insert_sorted x ys)

  -- Sorting changes no total.
  pub total-sorted : (xs : List A) → total k (map line (sorted le xs)) ≡ total k (map line xs)
  unfolding total sorted
  total-sorted [] = refl
  total-sorted (x ∷ xs) = ground (arith, total-insert_sorted x (sorted le xs), total-sorted xs)

pub total-sum_by_type :
    (t : ℕ) (assets : List Asset) (sums : Dict ℕ ℕ)
    → total t (sum_by_type assets sums) ≡ total t sums + owned (λ a. a.type_id == t) assets
unfolding sum_by_type owned
total-sum_by_type t [] sums = omega arith
total-sum_by_type t (a ∷ assets) sums = ground (
  arith,
  total-sum_by_type t assets (add_to a.type_id a.quantity sums),
  total-add_to a.type_id t a.quantity sums,
)

-- The sum of all values.
sum_of-add_to : (k n : ℕ) (d : Dict ℕ ℕ) → sum_of (values (add_to k n d)) ≡ sum_of (values d) + n
unfolding values add_to get put
sum_of-add_to k n [] = omega arith
sum_of-add_to k n ((j, m) ∷ d) = ground (arith, nat_beq_iff j k, sum_of-add_to k n d)

pub sum_of-sum_by_type :
    (assets : List Asset) (sums : Dict ℕ ℕ)
    → sum_of (values (sum_by_type assets sums))
      ≡ sum_of (values sums) + sum_of (map Asset.quantity assets)
unfolding sum_by_type
sum_of-sum_by_type [] sums = omega arith
sum_of-sum_by_type (a ∷ assets) sums = ground (
  arith,
  sum_of-sum_by_type assets (add_to a.type_id a.quantity sums),
  sum_of-add_to a.type_id a.quantity sums,
)

module _ (all_assets : List Asset) where
  -- The place of an asset, which is always found.
  pub at : Asset → ℕ
  at a = (resolve_container_chain-Ends (assets_by_item_id all_assets) a.location_id).0

  pub place-at : (a : Asset) → place all_assets a ≡ ok (at a)
  unfolding at
  place-at a = (resolve_container_chain-Ends (assets_by_item_id all_assets) a.location_id).1

  pub located_at-keep :
      (l : ℕ) (assets : List Asset)
      → located_at all_assets l assets ≡ ok (keep (λ a. at a == l) assets)
  unfolding located_at keep
  located_at-keep l [] = refl
  located_at-keep l (a ∷ assets) = rw (place-at a, located_at-keep l assets)

  -- What the loop over the places leaves.
  pub record Sums (assets : List Asset) (sums : Dict ℕ ℕ) : Type 0 where
    pub result : Dict ℕ ℕ
    pub made : sum_by_location all_assets assets sums ≡ ok result
    pub totals : (l : ℕ) → total l result ≡ total l sums + owned (λ a. at a == l) assets
    pub whole : sum_of (values result) ≡ sum_of (values sums) + sum_of (map Asset.quantity assets)

  pub sum_by_location-Sums : (assets : List Asset) (sums : Dict ℕ ℕ) → Sums assets sums
  unfolding sum_by_location owned
  sum_by_location-Sums [] sums = record {
    result = sums;
    made = refl;
    totals = λ l. omega arith;
    whole = omega arith;
  }
  sum_by_location-Sums (a ∷ assets) sums =
      let added = add_to (at a) a.quantity sums in
      let rest = sum_by_location-Sums assets added in
      record {
        result = rest.result;
        made = rw (place-at a) rest.made;
        totals = λ l. ground (arith, rest.totals l, total-add_to (at a) l a.quantity sums);
        whole = ground (arith, rest.whole, sum_of-add_to (at a) a.quantity sums);
      }
