-- ===== src/BuildChain/Resolve/Target.antt =====
-- The target has a step of its own exactly where a blueprint makes it.
use aobp.Prelude.{
  ℕ, ◌≡◌, refl, ap, true, Option, List, [], ◌∷◌, arith, nat_eq, nat_beq_iff, is_some, Bool-cases,
  inl, inr, ◌==◌,
}
use aobp.Result.{Result, ok, >>=-eq-ok}
use aobp.Dict.{Dict, get, put, has, get-put, beq_refl}
use aobp.BuildChain.{
  Blueprint, BuildStep, Walk, start, max_depth, blueprint_docs, expand_level, walk_levels,
  buy_leftover, walk_chain, grow, buy,
}
use aobp.BuildChain.Expand.{
  Expands, bought, built, Leveled, finished, through, expand_level-Leveled, Fetched-blueprint_docs,
  walk_levels-Walked, Walked-rule,
}

module _ {V : Type 0} where
  has-put_self : (k : ℕ) (v : V) (d : Dict ℕ V) → has k (put k v d) ≡ true
  has-put_self k v d = ground (arith, get-put k k v d, beq_refl k)

module _ (find : ℕ → Option Blueprint) (ceil_quotient : ℕ → ℕ → Result ℕ) (target : ℕ)
    (build_set : List ℕ) where
  -- The target has a step if it has a blueprint.
  abbrev HasStep : Walk → Type 0
  HasStep w = has target w.steps_by_type_id ≡ is_some (find target)

  has-put_step :
      (k : ℕ) (step : BuildStep) (steps : Dict ℕ BuildStep)
      → is_some (find k) ≡ true
      → has target steps ≡ is_some (find target)
      → has target (put k step steps) ≡ is_some (find target)
  has-put_step k step steps found h = elim (Bool-cases (k == target)) [
    | inl same ↦
        ground
          (arith, get-put k target step steps, same, found, ap find ((nat_beq_iff k target).0 same))
    | inr other ↦ ground (arith, get-put k target step steps, other, h)
  ]

  Expands-HasStep :
      (k q : ℕ) (w w' : Walk)
      → Expands find ceil_quotient target build_set k q w w'
      → HasStep w
      → HasStep w'
  unfolding buy grow
  Expands-HasStep k q w w' (bought buildable _ _ e) h = rw e h
  Expands-HasStep k q w w' (built b pq _ found _ _ _ _ e) h =
      rw e (has-put_step k _ w.steps_by_type_id (rw found refl) h)

  steps-buy_leftover :
      (left : Dict ℕ ℕ) (w : Walk) → (buy_leftover left w).steps_by_type_id ≡ w.steps_by_type_id
  unfolding buy_leftover
  steps-buy_leftover [] w = refl
  steps-buy_leftover ((k, q) ∷ left) w = steps-buy_leftover left _

  -- The first round expands the target, or buys it where it has no blueprint.
  Expands-target :
      (quantity : ℕ) (w : Walk)
      → Expands find ceil_quotient target build_set target quantity start w
      → has target w.steps_by_type_id ≡ is_some (find target)
  unfolding buy grow get
  Expands-target quantity w (bought buildable known left e) =
      rw e (ground (arith, known, left, beq_refl target))
  Expands-target quantity w (built b pq _ found _ _ _ _ e) =
      rw e (rw found (has-put_self target _ []))

  Leveled-target :
      (quantity : ℕ) (w : Walk)
      → Leveled find ceil_quotient target build_set ((target, quantity) ∷ []) start w
      → has target w.steps_by_type_id ≡ is_some (find target)
  Leveled-target quantity w (through {w₁ = w₁} x (finished e)) = rw e (Expands-target quantity w₁ x)

  -- When the walk returns, the target has a step exactly if the database has a blueprint that makes it.
  pub has_step-walk_chain :
      (quantity : ℕ) (w : Walk)
      → walk_chain ceil_quotient target build_set find quantity ≡ ok w
      → has target w.steps_by_type_id ≡ is_some (find target)
  unfolding walk_chain walk_levels
  has_step-walk_chain quantity w h =
      let level = (target, quantity) ∷ [] in
      let ((left, w₂), walked, last) =
        >>=-eq-ok (walk_levels ceil_quotient target build_set find max_depth level start)
          (λ e. ok (buy_leftover e.0 e.1)) h in
      let (w₁, first, rest) =
        >>=-eq-ok
          (expand_level ceil_quotient target build_set (blueprint_docs find level) level start)
          (λ v. walk_levels ceil_quotient target build_set find 14 v.next_level v) walked in
      let begun = Leveled-target quantity w₁ (
        expand_level-Leveled find ceil_quotient target build_set _ level start w₁
          (Fetched-blueprint_docs find level) first) in
      let ended =
        Walked-rule find ceil_quotient target build_set {P = HasStep} (λ v p. p) Expands-HasStep
          (walk_levels-Walked find ceil_quotient target build_set 14 w₁.next_level left w₁ w₂ rest)
          begun in
      let whole : w ≡ buy_leftover left w₂ = cc in rw whole (rw steps-buy_leftover ended)
