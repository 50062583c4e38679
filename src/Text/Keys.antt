-- ===== src/Text/Keys.antt =====
-- Cache keys of one prefix tell their numbers apart.
use Prim.Native.Char.{code}
use Prim.Native.String.{String}
use text.Mathlib.TextLemmas.{cons-append, nil-append, append_cancel_left}
use aobp.Prelude.{
  ℕ, zero, suc, ◌+◌, ◌-◌, ◌*◌, ◌/◌, ◌%◌, ◌≤◌, ◌<◌, ◌≡◌, sym, ap, ◌∙◌, arith, ltb, inl, inr,
  Bool-cases, Eq, ◌==◌, string_eq, nat_eq, nat_beq_iff,
}
use aobp.Text.{digit, digits, str, cache_key, ◌⧺◌}

-- `int(acc digits)`
unfoldable pub read : ℕ → String → ℕ
read acc String.[] = acc
read acc (String.◌∷◌ c s) = read (acc * 10 + (code c - 48)) s

read-append : (acc : ℕ) (s t : String) → read acc (s ⧺ t) ≡ read (read acc s) t
unfolding read
read-append acc String.[] t = rw nil-append
read-append acc (String.◌∷◌ c s) t = rw cons-append (read-append (acc * 10 + (code c - 48)) s t)

read-digit : (acc d : ℕ) → d < 10 → read acc (digit d) ≡ acc * 10 + d
unfolding read digit
read-digit acc zero h = omega arith
read-digit acc (suc zero) h = omega arith
read-digit acc (suc (suc zero)) h = omega arith
read-digit acc (suc (suc (suc zero))) h = omega arith
read-digit acc (suc (suc (suc (suc zero)))) h = omega arith
read-digit acc (suc (suc (suc (suc (suc zero))))) h = omega arith
read-digit acc (suc (suc (suc (suc (suc (suc zero)))))) h = omega arith
read-digit acc (suc (suc (suc (suc (suc (suc (suc zero))))))) h = omega arith
read-digit acc (suc (suc (suc (suc (suc (suc (suc (suc zero)))))))) h = omega arith
read-digit acc (suc (suc (suc (suc (suc (suc (suc (suc (suc zero))))))))) h = omega arith
read-digit acc (suc (suc (suc (suc (suc (suc (suc (suc (suc (suc d)))))))))) h =
    absurd (omega arith)

read-digits : (fuel n : ℕ) → n ≤ fuel → read 0 (digits fuel n) ≡ n
unfolding digits
read-digits zero n h = read-digit 0 n (omega arith) ∙ omega arith
read-digits (suc fuel) n h = elim (Bool-cases (ltb n 10)) [
  | inl small ↦ rw small (read-digit 0 n (ground arith) ∙ omega arith)
  | inr large ↦ rw large (
      read-append 0 (digits fuel (n / 10)) (digit (n % 10))
      ∙ read-digit (read 0 (digits fuel (n / 10))) (n % 10) (omega arith)
      ∙ omega (arith, read-digits fuel (n / 10) (ground arith)))
]

-- The digits of a number are read as that number.
pub read-str : (n : ℕ) → read 0 (str n) ≡ n
unfolding str
read-str n = read-digits n n (omega arith)

pub str-injective : (m n : ℕ) → str m ≡ str n → m ≡ n
str-injective m n h = sym (read-str m) ∙ ap (read 0) h ∙ read-str n

-- Two keys of one prefix are equal exactly when their numbers are.
pub cache_key-injective :
    (prefix : String) (m n : ℕ) → cache_key prefix m ≡ cache_key prefix n → m ≡ n
unfolding cache_key
cache_key-injective prefix m n h =
    str-injective m n (append_cancel_left ":" _ _ (append_cancel_left prefix _ _ h))

pub cache_key-beq :
    (prefix : String) (m n : ℕ) → (cache_key prefix m == cache_key prefix n) ≡ (m == n)
cache_key-beq prefix m n = ground (
  arith,
  nat_beq_iff m n,
  Eq.beq_iff string_eq (cache_key prefix m) (cache_key prefix n),
  ap (cache_key prefix) {x = m} {y = n},
  cache_key-injective prefix m n,
)
