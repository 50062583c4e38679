-- ===== src/Result.antt =====
-- The exceptions of the application as values, and the chain of fallible steps.
use aobp.Prelude.{◌⊎◌, inl, inr, ℕ, ◌≡◌, refl, Bool, true, false}

pub data Error : Type 0 where
  -- `httpx.HTTPStatusError` with the response's status code
  http_status_error : ℕ → Error
  -- `fastapi.HTTPException` with the status code of the reply
  http_exception : ℕ → Error
  -- any other `httpx.HTTPError`
  transport_error : Error
  zero_division_error overflow_error key_error type_error value_error invalid_token_error : Error
  -- `pymongo.errors.BulkWriteError`
  bulk_write_error : Error
  -- `pymongo.errors.DuplicateKeyError`
  duplicate_key_error : Error
  -- the process ended inside the call (a crash, a lost connection)
  crashed : Error
  -- the model's bound on a recursion was too small; no theorem's result allows it
  out_of_fuel : Error

pub data Result {ℓ} (A : Type ℓ) : Type ℓ where
  ok : A → Result A
  raise : Error → Result A

abbrev pub is_ok {ℓ} : {A : Type ℓ} → Result A → Bool
is_ok (ok a) = true
is_ok (raise e) = false

-- The chain of a `do` block: the first exception ends it.
module _ {ℓ κ} {A : Type ℓ} {B : Type κ} where
  infixl 5 ◌>>=◌ ◌>>◌
  abbrev pub ◌>>=◌ : Result A → (A → Result B) → Result B
  raise e >>= next = raise e
  ok a >>= next = next a

  abbrev pub ◌>>◌ : Result A → Result B → Result B
  first >> then_ = first >>= λ _. then_

  -- A chain that ends well has its first step end well, and the rest from there.
  pub >>=-eq-ok :
      (first : Result A) (next : A → Result B) {b : B} (h : (first >>= next) ≡ ok b)
      → (a : A) × (first ≡ ok a) × (next a ≡ ok b)
  >>=-eq-ok (raise e) next h = cc
  >>=-eq-ok (ok a) next h = (a, refl, h)

pub ok_of_is_ok {ℓ} : {A : Type ℓ} (r : Result A) → is_ok r ≡ true → (a : A) × (r ≡ ok a)
ok_of_is_ok (ok a) h = (a, refl)
ok_of_is_ok (raise e) h = cc

pub Result-cases {ℓ} :
    {A : Type ℓ} (r : Result A) → ((a : A) × (r ≡ ok a)) ⊎ ((e : Error) × (r ≡ raise e))
Result-cases (ok a) = inl (a, refl)
Result-cases (raise e) = inr (e, refl)
