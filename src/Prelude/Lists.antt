-- ===== src/Prelude/Lists.antt =====
-- Lists measured by native numbers, membership tests and sums.
use Prim.Native.Nat.{ℕ, zero, suc, ◌+◌, ◌-◌, ◌≤◌}
use mathlib.Core.Path.{◌≡◌, refl, ap}
use mathlib.Core.Bool.{Bool, true, false, ◌||◌, ◌&&◌}
use mathlib.Core.List.{List, [], ◌∷◌, ◌++◌, map}
use native.Mathlib.Omega.{arith}
use mathlib.Core.Logic.{inl, inr}
use aobp.Prelude.Tests.{nat_eq, nat_beq_iff, Eq, Bool-cases, if◌then◌else◌, ◌==◌}

module _ {ℓ} {A : Type ℓ} where
  abbrev pub length : List A → ℕ
  length [] = 0
  length (x ∷ xs) = suc (length xs)

  abbrev pub take : ℕ → List A → List A
  take zero xs = []
  take (suc n) [] = []
  take (suc n) (x ∷ xs) = x ∷ take n xs

  abbrev pub drop : ℕ → List A → List A
  drop zero xs = xs
  drop (suc n) [] = []
  drop (suc n) (x ∷ xs) = drop n xs

  -- `[x for x in xs if test(x)]`
  unfoldable pub keep : (A → Bool) → List A → List A
  keep test [] = []
  keep test (x ∷ xs) = let rest = keep test xs in if test x then x ∷ rest else rest

  unfoldable pub any : (A → Bool) → List A → Bool
  any test [] = false
  any test (x ∷ xs) = test x || any test xs

  pub length-append : (xs ys : List A) → length (xs ++ ys) ≡ length xs + length ys
  length-append [] ys = omega arith
  length-append (x ∷ xs) ys = omega (arith, length-append xs ys)

  pub take-append-drop : (n : ℕ) (xs : List A) → take n xs ++ drop n xs ≡ xs
  take-append-drop zero xs = refl
  take-append-drop (suc n) [] = refl
  take-append-drop (suc n) (x ∷ xs) = rw (take-append-drop n xs)

  pub length-drop : (n : ℕ) (xs : List A) → length (drop n xs) ≡ length xs - n
  length-drop zero xs = omega arith
  length-drop (suc n) [] = omega arith
  length-drop (suc n) (x ∷ xs) = omega (arith, length-drop n xs)

  pub length-take-le : (n : ℕ) (xs : List A) → length (take n xs) ≤ n
  length-take-le zero xs = omega arith
  length-take-le (suc n) [] = omega arith
  length-take-le (suc n) (x ∷ xs) = omega (arith, length-take-le n xs)

  -- Every element satisfies `P`.
  abbrev pub All {κ} : (A → Type κ) → List A → Type κ
  All P [] = Unit
  All P (x ∷ xs) = P x × All P xs

module _ {ℓ} {A : Type ℓ} ⦃e : Eq A⦄ where
  unfoldable pub member : A → List A → Bool
  member a [] = false
  member a (x ∷ xs) = x == a || member a xs

  pub member-append : (a : A) (xs ys : List A) → member a (xs ++ ys) ≡ member a xs || member a ys
  unfolding member
  member-append a [] ys = refl
  member-append a (x ∷ xs) ys = ground (arith, member-append a xs ys)

  pub member_all {κ} : (P : A → Type κ) (a : A) (xs : List A) → All P xs → member a xs ≡ true → P a
  unfolding member
  member_all P a [] h m = cc
  member_all P a (x ∷ xs) h m = elim (Bool-cases (x == a)) [
    | inl same ↦ rw (← (e.beq_iff x a).0 same) h.0
    | inr other ↦ member_all P a xs h.1 (ground arith)
  ]

-- `frozenset(items)`
unfoldable pub frozenset {ℓ} : {A : Type ℓ} ⦃e : Eq A⦄ → List A → List A
frozenset [] = []
frozenset (x ∷ xs) = let rest = frozenset xs in if member x rest then rest else x ∷ rest

pub All-map {ℓ κ μ} :
    {A : Type ℓ} {P : A → Type κ} {Q : A → Type μ}
    → ((a : A) → P a → Q a)
    → (xs : List A) → All P xs
    → All Q xs
All-map f [] h = tt
All-map f (x ∷ xs) h = (f x h.0, All-map f xs h.1)

pub All-each {ℓ κ μ} :
    {A : Type ℓ} {B : Type κ} (P : B → Type μ) (f : A → B) (xs : List A)
    → All (λ a. P (f a)) xs
    → All P (map f xs)
All-each P f [] h = tt
All-each P f (x ∷ xs) h = (h.0, All-each P f xs h.1)

pub member-frozenset : (t : ℕ) (ns : List ℕ) → member t (frozenset ns) ≡ member t ns
unfolding frozenset member
member-frozenset t [] = refl
member-frozenset t (n ∷ ns) = ground (arith, member-frozenset t ns, member-frozenset n ns)

pub member-keep :
    (test : ℕ → Bool) (t : ℕ) (ns : List ℕ) → member t (keep test ns) ≡ (test t && member t ns)
unfolding keep member
member-keep test t [] = ground arith
member-keep test t (n ∷ ns) =
    ground (arith, member-keep test t ns, nat_beq_iff n t, ap test {x = n} {y = t})
