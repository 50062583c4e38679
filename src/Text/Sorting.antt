-- ===== src/Text/Sorting.antt =====
-- Sorting by insertion keeps the items and puts them in order.
use mathlib.Core.List.{Permᴰ}
use mathlib.Core.List.Permᴰ
use Prim.Native.String.{String}
use Prim.Native.String.compare
use aobp.Prelude.{
  ◌≡◌, refl, Bool, true, false, ◌&&◌, ◌||◌, List, [], ◌∷◌, arith, inl, inr, Bool-cases, Eq, ◌==◌,
  member,
}
use aobp.Text.{insert_sorted, sorted, str_leb}

module _ {ℓ} {A : Type ℓ} (le : A → A → Bool) where
  insert_sorted-Permᴰ : (x : A) (ys : List A) → Permᴰ (insert_sorted le x ys) (x ∷ ys)
  unfolding insert_sorted
  insert_sorted-Permᴰ x [] = Permᴰ.refl (x ∷ [])
  insert_sorted-Permᴰ x (y ∷ ys) = elim (Bool-cases (le x y)) [
    | inl first ↦ rw (first, insert_sorted) (Permᴰ.refl (x ∷ y ∷ ys))
    | inr later ↦
        rw (later, insert_sorted)
          (Permᴰ.trans (Permᴰ.cons refl (insert_sorted-Permᴰ x ys)) (Permᴰ.swap refl refl))
  ]

  -- The same items.
  pub sorted-Permᴰ : (xs : List A) → Permᴰ (sorted le xs) xs
  unfolding sorted
  sorted-Permᴰ [] = Permᴰ.nil
  sorted-Permᴰ (x ∷ xs) =
      Permᴰ.trans (insert_sorted-Permᴰ x (sorted le xs)) (Permᴰ.cons refl (sorted-Permᴰ xs))

  -- Each item is at most the next one.
  unfoldable pub ascending : List A → Bool
  ascending [] = true
  ascending (x ∷ []) = true
  ascending (x ∷ y ∷ ys) = le x y && ascending (y ∷ ys)

  module _ (total : (a b : A) → le a b ≡ false → le b a ≡ true) where
    ascending-insert_sorted :
        (x : A) (ys : List A) → ascending ys ≡ true → ascending (insert_sorted le x ys) ≡ true
    unfolding ascending insert_sorted
    ascending-insert_sorted x [] h = refl
    ascending-insert_sorted x (y ∷ []) h = ground (arith, total x y)
    ascending-insert_sorted x (y ∷ z ∷ zs) h =
        ground (arith, total x y, ascending-insert_sorted x (z ∷ zs))

    pub ascending-sorted : (xs : List A) → ascending (sorted le xs) ≡ true
    unfolding sorted ascending
    ascending-sorted [] = refl
    ascending-sorted (x ∷ xs) = ascending-insert_sorted x (sorted le xs) (ascending-sorted xs)

-- The order of texts is total.
pub str_leb_total : (s t : String) → str_leb s t ≡ false → str_leb t s ≡ true
str_leb_total String.[] String.[] h = ground (arith, compare.nil-nil)
str_leb_total String.[] (String.◌∷◌ d t) h =
    ground (arith, compare.cons-nil d t, compare.nil-cons d t)
str_leb_total (String.◌∷◌ c s) String.[] h = ground (arith, compare.nil-cons c s)
str_leb_total (String.◌∷◌ c s) (String.◌∷◌ d t) h =
    ground (arith, str_leb_total s t, compare.cons-cons c d s t, compare.cons-cons d c t s)

module _ {ℓ} {A : Type ℓ} ⦃e : Eq A⦄ (le : A → A → Bool) (a : A) where
  member-insert_sorted :
      (x : A) (ys : List A) → member a (insert_sorted le x ys) ≡ (x == a || member a ys)
  unfolding insert_sorted member
  member-insert_sorted x [] = refl
  member-insert_sorted x (y ∷ ys) = ground (arith, member-insert_sorted x ys)

  pub member-sorted : (xs : List A) → member a (sorted le xs) ≡ member a xs
  unfolding sorted member
  member-sorted [] = refl
  member-sorted (x ∷ xs) = ground (arith, member-insert_sorted x (sorted le xs), member-sorted xs)
