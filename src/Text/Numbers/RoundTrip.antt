-- ===== src/Text/Numbers/RoundTrip.antt =====
-- Numbers that were joined to a text are split and read again as they were.
use Prim.Native.Char.{code}
use Prim.Native.String.{String}
use text.Mathlib.TextLemmas.{cons-append, nil-append}
use aobp.Prelude.{
  ℕ, zero, suc, ◌+◌, ◌-◌, ◌*◌, ◌/◌, ◌%◌, ◌≡◌, refl, ap, ◌∙◌, Bool, true, false, ◌&&◌, List, [], ◌∷◌,
  map, arith, leb, nat_beq, string_eq, if◌then◌else◌,
}
use aobp.Result.{ok}
use aobp.Text.{digit, digits, str, ◌⧺◌}
use aobp.Text.Keys.{read, read-str}
use aobp.Text.Numbers.{
  Unicode, split, join, is_space, is_digit, decimal, lstrip, rstrip, strip, all_digits, isdigit,
  read_int, int,
}

-- Only digits of ASCII.
plain : String → Bool
plain String.[] = true
plain (String.◌∷◌ c s) = leb b'0' (code c) && leb (code c) b'9' && plain s

is_filled : String → Bool
is_filled String.[] = false
is_filled (String.◌∷◌ c s) = true

plain-append : (s t : String) → plain (s ⧺ t) ≡ (plain s && plain t)
unfolding plain
plain-append String.[] t = rw nil-append
plain-append (String.◌∷◌ c s) t = rw cons-append (ground (arith, plain-append s t))

is_filled-append : (s t : String) → is_filled t ≡ true → is_filled (s ⧺ t) ≡ true
unfolding is_filled
is_filled-append String.[] t h = rw nil-append h
is_filled-append (String.◌∷◌ c s) t h = rw cons-append

-- What a digit is.
abbrev IsDigit : String → Type 0
IsDigit s = (plain s ≡ true) × (is_filled s ≡ true)

either-IsDigit :
    (test : Bool) (s t : String) → IsDigit s → IsDigit t → IsDigit (if test then s else t)
either-IsDigit true s t p q = p
either-IsDigit false s t p q = q

digit-IsDigit : (d : ℕ) → IsDigit (digit d)
unfolding digit plain is_filled
digit-IsDigit d =
    either-IsDigit (nat_beq d 0) _ _ (refl, refl)
      (either-IsDigit (nat_beq d 1) _ _ (refl, refl)
        (either-IsDigit (nat_beq d 2) _ _ (refl, refl)
          (either-IsDigit (nat_beq d 3) _ _ (refl, refl)
            (either-IsDigit (nat_beq d 4) _ _ (refl, refl)
              (either-IsDigit (nat_beq d 5) _ _ (refl, refl)
                (either-IsDigit (nat_beq d 6) _ _ (refl, refl)
                  (either-IsDigit (nat_beq d 7) _ _ (refl, refl)
                    (either-IsDigit (nat_beq d 8) _ _ (refl, refl) (refl, refl)))))))))

plain-digits : (fuel n : ℕ) → plain (digits fuel n) ≡ true
unfolding digits
plain-digits zero n = (digit-IsDigit n).0
plain-digits (suc fuel) n = ground (
  arith,
  digit-IsDigit n,
  plain-append (digits fuel (n / 10)) (digit (n % 10)),
  plain-digits fuel (n / 10),
  digit-IsDigit (n % 10),
)

is_filled-digits : (fuel n : ℕ) → is_filled (digits fuel n) ≡ true
unfolding digits
is_filled-digits zero n = (digit-IsDigit n).1
is_filled-digits (suc fuel) n = ground (
  arith,
  digit-IsDigit n,
  is_filled-append (digits fuel (n / 10)) (digit (n % 10)) (digit-IsDigit (n % 10)).1,
)

-- Splitting.
split-append : (s rest : String) → plain s ≡ true → split (s ⧺ "," ⧺ rest) ≡ s ∷ split rest
unfolding plain split
split-append String.[] rest h = rw (nil-append, cons-append, nil-append) (ground arith)
split-append (String.◌∷◌ c s) rest h = rw cons-append (ground (arith, split-append s rest))

split-plain : (s : String) → plain s ≡ true → split s ≡ s ∷ []
unfolding plain split
split-plain String.[] h = refl
split-plain (String.◌∷◌ c s) h = ground (arith, split-plain s)

module _ (u : Unicode) where
  rstrip-plain : (s : String) → plain s ≡ true → rstrip u s ≡ s
  unfolding plain rstrip is_space
  rstrip-plain String.[] h = refl
  rstrip-plain (String.◌∷◌ c s) h = ground (arith, rstrip-plain s)

  lstrip-plain : (s : String) → plain s ≡ true → lstrip u s ≡ s
  unfolding plain lstrip is_space
  lstrip-plain String.[] h = refl
  lstrip-plain (String.◌∷◌ c s) h = ground arith

  all_digits-plain : (s : String) → plain s ≡ true → all_digits u s ≡ true
  unfolding plain all_digits is_digit
  all_digits-plain String.[] h = refl
  all_digits-plain (String.◌∷◌ c s) h = ground (arith, all_digits-plain s)

  read_int-plain : (n : ℕ) (s : String) → plain s ≡ true → read_int u n s ≡ ok (read n s)
  unfolding plain read_int read decimal is_digit
  read_int-plain n String.[] h = refl
  read_int-plain n (String.◌∷◌ c s) h = ground (arith, read_int-plain (n * 10 + (code c - 48)) s)

-- `str(n)` is a filled text of digits.
plain-str : (n : ℕ) → plain (str n) ≡ true
unfolding str
plain-str n = plain-digits n n

is_filled-str : (n : ℕ) → is_filled (str n) ≡ true
unfolding str
is_filled-str n = is_filled-digits n n

-- Texts of numbers that were joined by commas are split as they were.
pub split-join : (n : ℕ) (ns : List ℕ) → split (join (map str (n ∷ ns))) ≡ map str (n ∷ ns)
unfolding join
split-join n [] = split-plain (str n) (plain-str n)
split-join n (m ∷ ns) =
    split-append (str n) (join (map str (m ∷ ns))) (plain-str n)
    ∙ ap (λ parts. str n ∷ parts) (split-join m ns)

pub split-nothing : split "" ≡ "" ∷ []
unfolding split
split-nothing = refl

module _ (u : Unicode) where
  strip-str : (n : ℕ) → strip u (str n) ≡ str n
  strip-str n =
      ap (lstrip u) (rstrip-plain u (str n) (plain-str n)) ∙ lstrip-plain u (str n) (plain-str n)

  filled-isdigit : (s : String) → plain s ≡ true → is_filled s ≡ true → isdigit u s ≡ true
  unfolding isdigit is_filled
  filled-isdigit String.[] h f = cc
  filled-isdigit (String.◌∷◌ c s) h f = unfold all_digits in all_digits-plain u (String.◌∷◌ c s) h

  -- A number's text is a number for `isdigit`, and `int` reads the number.
  pub isdigit-str : (n : ℕ) → isdigit u (strip u (str n)) ≡ true
  isdigit-str n = rw strip-str (filled-isdigit (str n) (plain-str n) (is_filled-str n))

  pub int-str : (n : ℕ) → int u (str n) ≡ ok n
  int-str n = rw strip-str (read_int-plain u 0 (str n) (plain-str n)) ∙ ap ok (read-str n)
