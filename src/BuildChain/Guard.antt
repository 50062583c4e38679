-- ===== src/BuildChain/Guard.antt =====
-- Which materials could be built, where the recursion guard left nothing of them over.
use aobp.Prelude.{
  ℕ, ◌≡◌, ◌⊎◌, Bool, true, false, ◌&&◌, ◌||◌, not, Option, some, List, [], ◌∷◌, arith, ◌==◌, member,
  is_some, nat_eq, nat_beq_iff, subst, inl, inr, Bool-cases,
}
use aobp.Result.{Result, ok, >>=-eq-ok}
use aobp.Dict.{Dict, Listed, Listed-keys, get, keys, has, member-keys, get-put_all, get-set_default}
use aobp.BuildChain.{
  Blueprint, Walk, max_depth, start, buy, grow, buy_leftover, walk_levels, walk_chain,
}
use aobp.BuildChain.Expand.{Expands, bought, built, Walked-rule, walk_levels-Walked}

module _ (find : ℕ → Option Blueprint) (target : ℕ) (build_set : List ℕ) where
  -- An item has a blueprint, and is neither the target nor selected.
  abbrev pub could_build : ℕ → Bool
  could_build t = is_some (find t) && not (t == target || member t build_set)

  -- The mark of an item says whether it could be built; one that the guard left over may also have `False`.
  abbrev pub IsMark : Dict ℕ ℕ → ℕ → Bool → Type 0
  IsMark left t mark = (mark ≡ could_build t) ⊎ ((mark ≡ false) × (has t left ≡ true))

  abbrev AllMarks : Dict ℕ ℕ → Walk → Type 0
  AllMarks left w = (t : ℕ) (mark : Bool) → get t w.raw_buildable ≡ some mark → IsMark left t mark

  Expands-AllMarks :
      (ceil_quotient : ℕ → ℕ → Result ℕ) (left : Dict ℕ ℕ) (k q : ℕ) (w w' : Walk)
      → Expands find ceil_quotient target build_set k q w w'
      → AllMarks left w
      → AllMarks left w'
  unfolding buy grow
  Expands-AllMarks c left k q w w' (bought buildable known unwanted e) all =
      let here : buildable ≡ could_build k = ground (arith, known, unwanted) in
      rw e (get-put_all (IsMark left) k buildable w.raw_buildable (inl here) all)
  Expands-AllMarks c left k q w w' (built _ _ _ _ _ _ _ _ e) all = rw e all

  -- The loop behind the guard gives a new mark only to what is left over.
  buy_leftover-AllMarks :
      (left items : Dict ℕ ℕ) (w : Walk)
      → Listed (keys left) items
      → AllMarks left w
      → AllMarks left (buy_leftover items w)
  unfolding buy_leftover
  buy_leftover-AllMarks left [] w listed all = all
  buy_leftover-AllMarks left ((k, q) ∷ items) w listed all =
      buy_leftover-AllMarks left items _ listed.1 (λ t mark h.
        let after = get-set_default k t false w.raw_buildable in
        elim (Bool-cases (has t w.raw_buildable)) [
          | inl known ↦ all t mark (ground (arith, after, known, h))
          | inr new ↦ elim (Bool-cases (k == t)) [
            | inl same ↦ inr (
              ground (arith, after, new, same, h),
              ground (arith, listed.0, member-keys k left, (nat_beq_iff k t).0 same),
            )
            | inr other ↦ absurd (ground (arith, after, new, other, h))
          ]
        ])

  -- When the walk returns, every mark says whether its item could be built, up to what the guard left.
  pub walk_chain-AllMarks :
      (ceil_quotient : ℕ → ℕ → Result ℕ) (quantity : ℕ) (w : Walk)
      → walk_chain ceil_quotient target build_set find quantity ≡ ok w
      → (left : Dict ℕ ℕ) × (last : Walk) × (walk_levels ceil_quotient target build_set find
            max_depth
            ((target, quantity) ∷ [])
            start
          ≡ ok (left, last))
        × ((t : ℕ) (mark : Bool) → get t w.raw_buildable ≡ some mark → IsMark left t mark)
  unfolding walk_chain
  walk_chain-AllMarks c quantity w h =
      let first = (target, quantity) ∷ [] in
      let ((left, w₁), walked, last) =
        >>=-eq-ok (walk_levels c target build_set find max_depth first start)
          (λ e. ok (buy_leftover e.0 e.1)) h in
      let whole : buy_leftover left w₁ ≡ w = cc in
      let begun : AllMarks left start = λ t mark e. absurd (unfold get in cc) in
      let before =
        Walked-rule find c target build_set {P = AllMarks left} (λ v all. all)
          (Expands-AllMarks c left)
          (walk_levels-Walked find c target build_set max_depth first left start w₁ walked) begun in
      (
        left,
        w₁,
        walked,
        subst (AllMarks left) whole (buy_leftover-AllMarks left left w₁ (Listed-keys left) before),
      )
