-- ===== src/Esi/Retry.antt =====
-- How often `_get_with_retry` asks, and which answer it returns.
use Prim.Native.Nat.{max}
use aobp.Prelude.{
  ℕ, zero, suc, ◌+◌, ◌≤◌, ◌<◌, ◌≡◌, refl, true, false, none, List, [], arith, member, nat_eq,
  nat_beq, nat_beq_iff, subst, sym, ap, ◌∙◌, Bool-cases, inl, inr,
}
use aobp.Result.{Result, ok, raise, http_status_error}
use aobp.Esi.{
  Response, Answer, reply, no_reply, is_success, timed_get, retryable_status_codes, RetrySettings,
  Tries, may_retry, retry_loop, get_with_retry, sleep_before_retry, respect_error_limit,
}

module _ {ℓ} {A : Type ℓ} (settings : RetrySettings) (jitter : ℕ → ℕ) (server : ℕ → Answer A) where
  -- The n-th attempt got an overload status, after which the code tries again.
  abbrev pub IsOverloaded : ℕ → Type ℓ
  IsOverloaded n =
      (response : Response A) × (server n ≡ reply response)
      × (is_success response ≡ false)
      × (member response.status_code retryable_status_codes ≡ true)

  -- What the attempts from `attempt` on come to.
  pub record Tried (attempt : ℕ) (t : Tries A) : Type ℓ where
    pub asked : 1 ≤ t.requests
    pub bounded : attempt + t.requests ≤ max (suc attempt) (suc settings.page_retry_max_attempts)
    pub last : (n : ℕ) → suc n ≡ attempt + t.requests → t.result ≡ timed_get (server n)
    pub overloaded : (n : ℕ) → attempt ≤ n → suc n < attempt + t.requests → IsOverloaded n

  one-Tried :
      (attempt : ℕ) (r : Result (Response A)) (sleeps : List ℕ)
      → r ≡ timed_get (server attempt)
      → Tried attempt (record { result = r; sleeps = sleeps; requests = 1 })
  one-Tried attempt r sleeps e = record {
    asked = omega arith;
    bounded = omega arith;
    last = λ n k. let same : attempt ≡ n = omega arith in e ∙ ap (λ i. timed_get (server i)) same;
    overloaded = λ n l u. absurd (omega arith);
  }

  more-Tried :
      (attempt : ℕ) (sleeps : List ℕ) (rest : Tries A)
      → attempt < settings.page_retry_max_attempts
      → IsOverloaded attempt
      → Tried (suc attempt) rest
      → Tried attempt
          (record { result = rest.result; sleeps = sleeps; requests = suc rest.requests })
  more-Tried attempt sleeps rest h here t = record {
    asked = omega arith;
    bounded = omega (arith, t.bounded);
    last = λ n k. t.last n (omega arith);
    overloaded = λ n l u. elim (Bool-cases (nat_beq attempt n)) [
      | inl same ↦ subst IsOverloaded ((nat_beq_iff attempt n).0 same) here
      | inr other ↦ t.overloaded n (ground (arith, other)) (omega arith)
    ];
  }

  may_retry-lt :
      (response : Response A) (attempt : ℕ)
      → may_retry settings response attempt ≡ true
      → (attempt < settings.page_retry_max_attempts)
        × (member response.status_code retryable_status_codes ≡ true)
  unfolding may_retry
  may_retry-lt response attempt h =
      elim (Bool-cases (member response.status_code retryable_status_codes)) [
        | inl overload ↦ (ground (arith, overload, h), overload)
        | inr other ↦ absurd (ground (arith, other, h))
      ]

  -- The cases of one answer.
  answered-Tried :
      (fuel attempt : ℕ)
      → (attempt < settings.page_retry_max_attempts
          → Tried (suc attempt) (retry_loop settings jitter server fuel (suc attempt)))
      → (a : Answer A) → server attempt ≡ a
      → Tried attempt (retry_loop settings jitter server (suc fuel) attempt)
  unfolding retry_loop timed_get
  answered-Tried fuel attempt ih no_reply e =
      rw (e, retry_loop) (one-Tried attempt (timed_get no_reply) [] (ap timed_get (sym e)))
  answered-Tried fuel attempt ih (reply response) e = elim (Bool-cases (is_success response)) [
    | inl fine ↦
        rw (e, retry_loop)
          (rw fine (
            one-Tried attempt (ok response) (respect_error_limit settings response)
              (rw e (rw fine))))
    | inr failed ↦ elim (Bool-cases (may_retry settings response attempt)) [
      | inl again ↦
          let (lt, overload) = may_retry-lt response attempt again in
          rw (e, retry_loop)
            (rw failed
              (rw again (more-Tried attempt _ _ lt (response, e, failed, overload) (ih lt))))
      | inr stop ↦
          rw (e, retry_loop)
            (rw failed (
              rw stop (
                one-Tried attempt (raise (http_status_error response.status_code)) []
                  (rw e (rw failed)))))
    ]
  ]

  retry_loop-Tried :
      (fuel attempt : ℕ)
      → suc settings.page_retry_max_attempts < attempt + fuel
      → attempt ≤ suc settings.page_retry_max_attempts
      → Tried attempt (retry_loop settings jitter server fuel attempt)
  retry_loop-Tried zero attempt h p = absurd (omega arith)
  retry_loop-Tried (suc fuel) attempt h p =
      answered-Tried fuel attempt
        (λ lt. retry_loop-Tried fuel (suc attempt) (omega arith) (omega arith)) (server attempt)
        refl

  -- A call with retries asks ESI at least once and at most as often as the setting says (once where it
  -- says 0); it ends with the outcome of its last attempt, a response or an exception; and every
  -- attempt before the last one got a status of overload.
  pub get_with_retry-Tried : Tried 1 (get_with_retry settings jitter server)
  unfolding get_with_retry
  get_with_retry-Tried =
      retry_loop-Tried (suc settings.page_retry_max_attempts) 1 (omega arith) (omega arith)

-- The pause before a retry, where ESI does not ask for one in Retry-After, is at most half a minute
-- and the second of jitter.
pub sleep_before_retry-le {ℓ} :
    {A : Type ℓ} (response : Response A) (attempt jitter : ℕ)
    → jitter ≤ 1000
    → response.retry_after ≡ none
    → sleep_before_retry response attempt jitter ≤ 31000
unfolding sleep_before_retry
sleep_before_retry-le response attempt jitter h e = ground (arith, e)
