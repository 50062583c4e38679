-- ===== src/Text.antt =====
-- `str` of a number, the text of cache keys and default names, and stable sorting by a text.
pub mod Keys
pub mod Numbers
pub mod Sorting
use Prim.Native.String.{compare, ◌++◌ as str_append}
use text.Mathlib.Text.{is_le}
use aobp.Prelude.{
  ℕ, zero, suc, ◌+◌, ◌/◌, ◌%◌, ◌≡◌, refl, String, Bool, List, [], ◌∷◌, ltb, if◌then◌else◌, nat_beq,
  ◌++◌,
}

infixr 60 ◌⧺◌
abbrev pub ◌⧺◌ : String → String → String
s ⧺ t = str_append s t

unfoldable pub digit : ℕ → String
digit d =
    if nat_beq d 0
    then "0"
    else if nat_beq d 1
    then "1"
    else if nat_beq d 2
    then "2"
    else if nat_beq d 3
    then "3"
    else if nat_beq d 4
    then "4"
    else if nat_beq d 5
    then "5"
    else if nat_beq d 6
    then "6"
    else if nat_beq d 7
    then "7"
    else if nat_beq d 8
    then "8"
    else "9"

-- The decimal digits; a number has at most as many as its value and one.
unfoldable pub digits : ℕ → ℕ → String
digits zero n = digit n
digits (suc fuel) n =
    let more = digits fuel (n / 10) ⧺ digit (n % 10) in if ltb n 10 then digit n else more

-- `str(n)`
unfoldable pub str : ℕ → String
unfolding digits digit
str n = digits n n

-- `f"{prefix}:{value}"`
unfoldable pub cache_key : String → ℕ → String
cache_key prefix value = prefix ⧺ ":" ⧺ str value

abbrev pub str_leb : String → String → Bool
str_leb s t = is_le (compare s t)

module _ {ℓ} {A : Type ℓ} (le : A → A → Bool) where
  unfoldable pub insert_sorted : A → List A → List A
  insert_sorted x [] = x ∷ []
  insert_sorted x (y ∷ ys) = if le x y then x ∷ y ∷ ys else y ∷ insert_sorted x ys

  -- `sorted(xs, key=...)`, stable: `le x y` compares the keys.
  unfoldable pub sorted : List A → List A
  unfolding insert_sorted
  sorted [] = []
  sorted (x ∷ xs) = insert_sorted x (sorted xs)

str_runs : str 1042 ≡ "1042"
unfolding str
str_runs = refl
