-- ===== src/Esi.antt =====
-- app/services/esi.py: the requests to ESI, their pages and their retries. Durations are milliseconds.
pub mod Entries
pub mod Market
pub mod Retry
pub mod Pages
pub mod Fetch
mod Tests
use Prim.Native.Nat.{min}
use aobp.Prelude.{
  ℕ, zero, suc, ◌+◌, ◌-◌, ◌*◌, ◌^◌, String, Bool, true, false, Option, none, some, List, [], ◌∷◌,
  ◌++◌, if◌then◌else◌, nat_eq, ◌==◌, ◌||◌, ◌&&◌, not, leb, ltb, member, get_or,
}
use aobp.Result.{Result, ok, raise, Error, http_status_error, transport_error, out_of_fuel, ◌>>=◌}

-- A response: its status, its JSON body and the headers that the code reads. `retry_after` is the
-- header with the number it holds, `some none` where it holds none.
pub record Response {ℓ} (A : Type ℓ) : Type ℓ where
  pub status_code : ℕ
  pub body : A
  pub x_pages : Option ℕ
  pub retry_after : Option (Option ℕ)
  pub error_limit_remain : Option ℕ
  pub error_limit_reset : Option ℕ

-- What a request comes to: a response, or an `httpx.TransportError`.
pub data Answer {ℓ} (A : Type ℓ) : Type ℓ where
  reply : Response A → Answer A
  no_reply : Answer A

-- `_RETRYABLE_STATUS_CODES`
abbrev pub retryable_status_codes : List ℕ
retryable_status_codes = 420 ∷ 429 ∷ 500 ∷ 502 ∷ 503 ∷ 504 ∷ []

-- `_RETRY_BACKOFF_BASE_SECONDS` and `_RETRY_BACKOFF_MAX_SECONDS`
abbrev pub retry_backoff_base : ℕ
retry_backoff_base = 1000

abbrev pub retry_backoff_max : ℕ
retry_backoff_max = 30000

-- The two settings that the retries read.
pub record RetrySettings : Type 0 where
  pub page_retry_max_attempts : ℕ
  pub error_limit_threshold : ℕ

-- What a call with retries has done: the result, the sleeps in their order, the number of requests.
pub record Tries {ℓ} (A : Type ℓ) : Type ℓ where
  pub result : Result (Response A)
  pub sleeps : List ℕ
  pub requests : ℕ

module _ {ℓ} {A : Type ℓ} where
  -- `raise_for_status` accepts the statuses of success only.
  abbrev pub is_success : Response A → Bool
  is_success response = leb 200 response.status_code && ltb response.status_code 300

  unfoldable pub timed_get : Answer A → Result (Response A)
  timed_get no_reply = raise transport_error
  timed_get (reply response) =
      if is_success response then ok response else raise (http_status_error response.status_code)

  -- The delay of `_sleep_before_retry`; `jitter` is `random.uniform(0, 1)`.
  unfoldable pub sleep_before_retry : Response A → ℕ → ℕ → ℕ
  sleep_before_retry response attempt jitter = elim response.retry_after [
    | some (some delay) ↦ delay
    | some none ↦ retry_backoff_base
    | none ↦ min (retry_backoff_base * 2 ^ (attempt - 1)) retry_backoff_max + jitter
  ]

  -- The sleeps of `_respect_error_limit`.
  unfoldable pub respect_error_limit : RetrySettings → Response A → List ℕ
  respect_error_limit settings response = elim response.error_limit_remain [
    | none ↦ []
    | some remain ↦ elim response.error_limit_reset [
      | none ↦ []
      | some reset ↦ if leb remain settings.error_limit_threshold then reset ∷ [] else []
    ]
  ]

  -- The condition to try again after a status error.
  unfoldable pub may_retry : RetrySettings → Response A → ℕ → Bool
  may_retry settings response attempt = not (
      not (member response.status_code retryable_status_codes)
      || leb settings.page_retry_max_attempts attempt)

  -- `while True` of `_get_with_retry`: `attempt` has been incremented, and `server` answers the n-th
  -- attempt.
  unfoldable pub retry_loop : RetrySettings → (ℕ → ℕ) → (ℕ → Answer A) → ℕ → ℕ → Tries A
  unfolding may_retry
  retry_loop settings jitter server zero attempt = record {
    result = raise out_of_fuel;
    sleeps = [];
    requests = 0;
  }
  retry_loop settings jitter server (suc fuel) attempt =
      let rest = retry_loop settings jitter server fuel (suc attempt) in
      elim (server attempt) [
        | no_reply ↦ record { result = raise transport_error; sleeps = []; requests = 1 }
        | reply response ↦
            if is_success response
            then record {
              result = ok response;
              sleeps = respect_error_limit settings response;
              requests = 1;
            }
            else if may_retry settings response attempt
            then record {
              result = rest.result;
              sleeps = sleep_before_retry response attempt (jitter attempt) ∷ rest.sleeps;
              requests = suc rest.requests;
            }
            else record {
              result = raise (http_status_error response.status_code);
              sleeps = [];
              requests = 1;
            }
      ]

  unfoldable pub get_with_retry : RetrySettings → (ℕ → ℕ) → (ℕ → Answer A) → Tries A
  get_with_retry settings jitter server =
      retry_loop settings jitter server (suc settings.page_retry_max_attempts) 1

module _ {ℓ} {A : Type ℓ} (page : ℕ → Answer (List A)) where
  -- The loop over the pages from `n` on, `count` of them.
  unfoldable pub get_pages : ℕ → ℕ → Result (List A)
  get_pages zero n = ok []
  get_pages (suc count) n = do
    response ← timed_get (page n)
    rest ← get_pages count (suc n)
    ok (response.body ++ rest)

  -- `_get_all_pages`: `page` answers the request for each page.
  unfoldable pub get_all_pages : Result (List A)
  get_all_pages = do
    first_response ← timed_get (page 1)
    rest ← get_pages (get_or first_response.x_pages 1 - 1) 2
    ok (first_response.body ++ rest)
