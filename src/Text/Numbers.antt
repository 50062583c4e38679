-- ===== src/Text/Numbers.antt =====
-- Lists of numbers in a text: Python's `split(",")`, `",".join`, `strip`, `isdigit` and `int`.
pub mod RoundTrip
use Prim.Native.Char.{Char, code}
use Prim.Native.String.{String}
use aobp.Prelude.{
  ℕ, ◌+◌, ◌-◌, ◌*◌, Bool, true, false, ◌||◌, ◌&&◌, Option, none, some, List, [], ◌∷◌, ltb, leb,
  nat_beq, if◌then◌else◌, ◌==◌, string_eq,
}
use aobp.Result.{Result, ok, raise, value_error}
use aobp.Text.{◌⧺◌}

-- What Python knows of the characters beyond ASCII; a character such as `²` is a digit for
-- `isdigit`, while `int` reads no value from it.
pub record Unicode : Type 0 where
  pub white : Char → Bool
  pub digit : Char → Bool
  pub decimal : Char → Option ℕ

-- `s.split(",")`
abbrev pub onto_first : Char → List String → List String
onto_first c [] = String.◌∷◌ c "" ∷ []
onto_first c (part ∷ parts) = String.◌∷◌ c part ∷ parts

unfoldable pub split : String → List String
split String.[] = "" ∷ []
split (String.◌∷◌ c s) =
    let parts = split s in if nat_beq (code c) b',' then "" ∷ parts else onto_first c parts

-- `",".join(parts)`
unfoldable pub join : List String → String
join [] = ""
join (part ∷ []) = part
join (part ∷ next ∷ parts) = part ⧺ "," ⧺ join (next ∷ parts)

module _ (unicode : Unicode) where
  unfoldable pub is_space : Char → Bool
  is_space c =
      if ltb (code c) 128
      then (leb 9 (code c) && leb (code c) 13) || (leb 28 (code c) && leb (code c) 32)
      else unicode.white c

  unfoldable pub is_digit : Char → Bool
  is_digit c = if ltb (code c) 128 then leb b'0' (code c) && leb (code c) b'9' else unicode.digit c

  unfoldable pub decimal : Char → Option ℕ
  unfolding is_digit
  decimal c =
      if ltb (code c) 128
      then if is_digit c then some (code c - b'0') else none
      else unicode.decimal c

  unfoldable pub lstrip : String → String
  lstrip String.[] = ""
  lstrip (String.◌∷◌ c s) = let rest = lstrip s in if is_space c then rest else String.◌∷◌ c s

  unfoldable pub rstrip : String → String
  rstrip String.[] = ""
  rstrip (String.◌∷◌ c s) =
      let rest = rstrip s in if is_space c && rest == "" then "" else String.◌∷◌ c rest

  -- `s.strip()`
  abbrev pub strip : String → String
  strip s = lstrip (rstrip s)

  unfoldable pub all_digits : String → Bool
  all_digits String.[] = true
  all_digits (String.◌∷◌ c s) = is_digit c && all_digits s

  -- `s.isdigit()`
  unfoldable pub isdigit : String → Bool
  isdigit String.[] = false
  isdigit (String.◌∷◌ c s) = is_digit c && all_digits s

  unfoldable pub read_int : ℕ → String → Result ℕ
  read_int n String.[] = ok n
  read_int n (String.◌∷◌ c s) = elim (decimal c) [
    | none ↦ raise value_error
    | some d ↦ read_int (n * 10 + d) s
  ]

  -- `int(s)`, for a text of which `s.strip().isdigit()` holds.
  abbrev pub int : String → Result ℕ
  int s = read_int 0 (strip s)
