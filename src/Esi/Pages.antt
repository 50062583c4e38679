-- ===== src/Esi/Pages.antt =====
-- A listing in pages is complete and in order.
use aobp.Prelude.{ℕ, zero, suc, ◌+◌, ◌-◌, ◌≤◌, ◌≡◌, refl, ap, true, List, [], ◌++◌, arith, get_or}
use aobp.Result.{ok}
use aobp.Esi.{Response, Answer, reply, is_success, timed_get, get_pages, get_all_pages}

-- The bodies of so many pages from the n-th on.
unfoldable pub listing {ℓ} : {A : Type ℓ} → (ℕ → List A) → ℕ → ℕ → List A
listing body zero n = []
listing body (suc count) n = body n ++ listing body count (suc n)

listing-first {ℓ} :
    {A : Type ℓ} (body : ℕ → List A) (total n : ℕ)
    → 1 ≤ total
    → listing body total n ≡ body n ++ listing body (total - 1) (suc n)
unfolding listing
listing-first body zero n h = absurd (omega arith)
listing-first body (suc total) n h =
    let e : total ≡ suc total - 1 = omega arith in ap (λ k. body n ++ listing body k (suc n)) e

module _ {ℓ} {A : Type ℓ} (page : ℕ → Answer (List A)) where
  module _ (response : ℕ → Response (List A)) (total : ℕ)
      (answers : (n : ℕ) → 1 ≤ n → n ≤ total → page n ≡ reply (response n))
      (fine : (n : ℕ) → 1 ≤ n → n ≤ total → is_success (response n) ≡ true) where
    timed_get-page : (n : ℕ) → 1 ≤ n → n ≤ total → timed_get (page n) ≡ ok (response n)
    unfolding timed_get
    timed_get-page n h k = rw (answers n h k) (rw (fine n h k))

    get_pages-eq-listing :
        (count n : ℕ)
        → 1 ≤ n
        → n + count ≤ suc total
        → get_pages page count n ≡ ok (listing (λ i. (response i).body) count n)
    unfolding get_pages listing
    get_pages-eq-listing zero n h k = refl
    get_pages-eq-listing (suc count) n h k =
        rw (timed_get-page n h (omega arith))
          (rw (get_pages-eq-listing count (suc n) (omega arith) (omega arith)))

    -- If every page from 1 to `total` is answered with success, and the first one names `total` in
    -- X-Pages, then the result is the bodies of all the pages in their order, none twice, none lost.
    pub get_all_pages-eq-listing :
        1 ≤ total
        → get_or (response 1).x_pages 1 ≡ total
        → get_all_pages page ≡ ok (listing (λ i. (response i).body) total 1)
    unfolding get_all_pages
    get_all_pages-eq-listing h named = rw (timed_get-page 1 (omega arith) h) (
        rw named (
          rw (get_pages-eq-listing (total - 1) 2 (omega arith) (omega arith))
            (rw (listing-first (λ i. (response i).body) total 1 h))))
