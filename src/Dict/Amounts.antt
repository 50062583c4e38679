-- ===== src/Dict/Amounts.antt =====
-- Dictionaries of amounts: `d[k] = d.get(k, 0) + n`, and what they hold in all.
use aobp.Prelude.{ℕ, ◌+◌, ◌≡◌, [], ◌∷◌, arith, Eq, ◌==◌, if◌then◌else◌, get_or}
use aobp.Dict.{Dict, get, put, get-put}

module _ {ℓ} {K : Type ℓ} ⦃e : Eq K⦄ where
  -- `d.get(k, 0)`
  abbrev pub amount : K → Dict K ℕ → ℕ
  amount k d = get_or (get k d) 0

  unfoldable pub add_to : K → ℕ → Dict K ℕ → Dict K ℕ
  add_to k n d = put k (amount k d + n) d

  -- The sum of all items with key `k`, in a list of items that may repeat a key.
  unfoldable pub total : K → Dict K ℕ → ℕ
  total k [] = 0
  total k ((j, n) ∷ d) = (if j == k then n else 0) + total k d

  pub amount-add_to :
      (k j : K) (n : ℕ) (d : Dict K ℕ)
      → amount j (add_to k n d) ≡ amount j d + (if k == j then n else 0)
  unfolding add_to
  amount-add_to k j n d = ground (arith, get-put k j (amount k d + n) d, e.beq_iff k j)

  pub total-add_to :
      (k j : K) (n : ℕ) (d : Dict K ℕ)
      → total j (add_to k n d) ≡ total j d + (if k == j then n else 0)
  unfolding total add_to get put
  total-add_to k j n [] = ground arith
  total-add_to k j n ((i, m) ∷ d) =
      ground (arith, e.beq_iff k j, e.beq_iff i k, e.beq_iff i j, total-add_to k j n d)
