-- ===== src/BuildChain/Raw.antt =====
-- What is bought: every raw total has its `raw_buildable` mark.
use aobp.Prelude.{
  ℕ, ◌≡◌, refl, Bool, false, Option, List, [], ◌∷◌, arith, ◌==◌, nat_eq, inl, inr, Bool-cases, ◌+◌,
}
use aobp.Result.{Result, ok}
use aobp.Dict.{Dict, get, has, get-put, get-set_default}
use aobp.Dict.Amounts.{amount, add_to}
use aobp.BuildChain.{Blueprint, Walk, buy, grow, buy_leftover, walk_chain}
use aobp.BuildChain.Expand.{Expands, bought, built, walk_chain-rule}

module _ (find : ℕ → Option Blueprint) (target : ℕ) (build_set : List ℕ) where
  -- The marks agree with the totals.
  abbrev IsMarked : ℕ → Walk → Type 0
  IsMarked t w = has t w.raw_totals ≡ has t w.raw_buildable

  buy-IsMarked :
      (k q : ℕ) (buildable : Bool) (w : Walk) (t : ℕ)
      → IsMarked t w
      → IsMarked t (buy k q buildable w)
  unfolding buy add_to
  buy-IsMarked k q buildable w t m =
      let raw = get-put k t (amount k w.raw_totals + q) w.raw_totals in
      let mark = get-put k t buildable w.raw_buildable in
      elim (Bool-cases (k == t)) [
        | inl same ↦ ground (arith, raw, mark)
        | inr other ↦ ground (arith, raw, mark, m)
      ]

  Expands-IsMarked :
      (ceil_quotient : ℕ → ℕ → Result ℕ) (t k q : ℕ) (w w' : Walk)
      → Expands find ceil_quotient target build_set k q w w'
      → IsMarked t w
      → IsMarked t w'
  unfolding grow
  Expands-IsMarked c t k q w w' (bought buildable known left e) m =
      rw e (buy-IsMarked k q buildable w t m)
  Expands-IsMarked c t k q w w' (built _ _ _ _ _ _ _ _ e) m = rw e m

  buy_leftover-IsMarked :
      (t : ℕ) (items : Dict ℕ ℕ) (w : Walk) → IsMarked t w → IsMarked t (buy_leftover items w)
  unfolding buy_leftover add_to
  buy_leftover-IsMarked t [] w m = m
  buy_leftover-IsMarked t ((k, q) ∷ items) w m =
      let raw = get-put k t (amount k w.raw_totals + q) w.raw_totals in
      let mark = get-set_default k t false w.raw_buildable in
      buy_leftover-IsMarked t items _ (ground (arith, raw, mark, m))

  -- When the walk returns, every raw total has a mark in `raw_buildable`, and every mark a raw total, so that
  -- the lookup `raw_buildable[type_id]` of each raw material finds its key.
  pub walk_chain-marks :
      (ceil_quotient : ℕ → ℕ → Result ℕ) (target_quantity : ℕ) (w : Walk)
      → walk_chain ceil_quotient target build_set find target_quantity ≡ ok w
      → (t : ℕ) → has t w.raw_totals ≡ has t w.raw_buildable
  walk_chain-marks c target_quantity w h t =
      walk_chain-rule find c target build_set {P = IsMarked t} (λ v m. m) (Expands-IsMarked c t)
        (buy_leftover-IsMarked t) (unfold get in refl) target_quantity w h
