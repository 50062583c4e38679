-- ===== src/BuildChain/Balance.antt =====
-- Nothing is lost on the way down: what is built and what is bought covers exactly what is needed.
use aobp.Prelude.{
  ℕ, ◌+◌, ◌*◌, ◌≡◌, refl, ap, Bool, false, Option, none, some, List, [], ◌∷◌, arith, ◌==◌,
  if◌then◌else◌, get_or, nat_eq, nat_beq_iff, inl, inr, Bool-cases,
}
use aobp.Result.{Result, ok}
use aobp.Dict.{Dict, get, put, set_default, get-put}
use aobp.Dict.Amounts.{amount, total, add_to, amount-add_to, total-add_to}
use aobp.BuildChain.Expand.{
  Expands, bought, built, Leveled, finished, through, Walked, stop, round, walk_chain-Walked,
}
use aobp.BuildChain.{
  Material, Blueprint, BuildStep, Walk, new_step, add_demand, buy, grow_step, grow, buy_leftover,
  walk_chain,
}

-- What the material lines ask for of type `t` in so many runs.
unfoldable pub demand_for : ℕ → ℕ → List Material → ℕ
demand_for t runs [] = 0
demand_for t runs (m ∷ ms) =
    (if m.type_id == t then m.quantity * runs else 0) + demand_for t runs ms

-- How much of type `t` all steps together consume.
unfoldable pub consumed : ℕ → Dict ℕ BuildStep → ℕ
consumed t [] = 0
consumed t ((k, step) ∷ steps) = amount t step.materials + consumed t steps

-- How much of type `t` the step for `t` produces for the chain.
unfoldable pub made : ℕ → Dict ℕ BuildStep → ℕ
made t steps = elim (get t steps) [ none ↦ 0 | some step ↦ step.quantity_needed ]

abbrev pub supply : ℕ → Walk → ℕ
supply t w = made t w.steps_by_type_id + amount t w.raw_totals

pub amount-add_demand :
    (t runs : ℕ) (ms : List Material) (d : Dict ℕ ℕ)
    → amount t (add_demand runs ms d) ≡ amount t d + demand_for t runs ms
unfolding add_demand demand_for
amount-add_demand t runs [] d = omega arith
amount-add_demand t runs (m ∷ ms) d =
    let d' = add_to m.type_id (m.quantity * runs) d in
    omega (arith, amount-add_demand t runs ms d', amount-add_to m.type_id t (m.quantity * runs) d)

pub total-add_demand :
    (t runs : ℕ) (ms : List Material) (d : Dict ℕ ℕ)
    → total t (add_demand runs ms d) ≡ total t d + demand_for t runs ms
unfolding add_demand demand_for
total-add_demand t runs [] d = omega arith
total-add_demand t runs (m ∷ ms) d =
    let d' = add_to m.type_id (m.quantity * runs) d in
    omega (arith, total-add_demand t runs ms d', total-add_to m.type_id t (m.quantity * runs) d)

-- A step that is replaced, or is new, changes the consumption by its own difference.
consumed-put :
    (t k : ℕ) (old step : BuildStep) (steps : Dict ℕ BuildStep)
    → old.materials ≡ []
    → consumed t (put k step steps) + amount t (get_or (get k steps) old).materials
      ≡ consumed t steps + amount t step.materials
unfolding consumed put get
consumed-put t k old step [] h = rw h (unfold get in omega arith)
consumed-put t k old step ((j, s) ∷ steps) h = elim (Bool-cases (j == k)) [
  | inl same ↦ rw same (omega arith)
  | inr other ↦ rw other (omega (arith, consumed-put t k old step steps h))
]

-- What one item does to the books: its quantity is supplied, and what its step consumes more is
-- asked of the next level.
record Booked (t type_id quantity : ℕ) (w w' : Walk) : Type 0 where
  supplied : supply t w' ≡ supply t w + (if type_id == t then quantity else 0)
  passed_on :
      consumed t w'.steps_by_type_id + total t w.next_level
      ≡ consumed t w.steps_by_type_id + total t w'.next_level

module _ (t type_id quantity : ℕ) (w : Walk) where
  buy-Booked : (buildable : Bool) → Booked t type_id quantity w (buy type_id quantity buildable w)
  unfolding buy
  buy-Booked buildable = record {
    supplied = omega (arith, amount-add_to type_id t quantity w.raw_totals);
    passed_on = refl;
  }

  grow-Booked :
      (product_quantity runs : ℕ) (ms : List Material)
      → Booked t type_id quantity w (grow type_id quantity product_quantity runs ms w)
  unfolding grow made
  grow-Booked product_quantity runs ms =
      let steps = w.steps_by_type_id in
      let fresh = new_step type_id product_quantity in
      let old = get_or (get type_id steps) fresh in
      let new = grow_step quantity runs ms old in
      record {
        supplied = ground (arith, get-put type_id t new steps, nat_beq_iff type_id t);
        passed_on = omega (
          arith,
          consumed-put t type_id fresh new steps refl,
          total-add_demand t runs ms w.next_level,
          amount-add_demand t runs ms old.materials,
        );
      }

module _ (find : ℕ → Option Blueprint) (ceil_quotient : ℕ → ℕ → Result ℕ) (target : ℕ)
    (build_set : List ℕ) (t : ℕ) where
  Expanded-Booked :
      {k q : ℕ} {w w' : Walk}
      → Expands find ceil_quotient target build_set k q w w'
      → Booked t k q w w'
  Expanded-Booked {k} {q} {w} (bought buildable _ _ e) = rw e (buy-Booked t k q w buildable)
  Expanded-Booked {k} {q} {w} (built b pq runs _ _ _ _ _ e) =
      rw e (grow-Booked t k q w pq runs b.materials)

  Leveled-balance :
      {items : Dict ℕ ℕ} {w w' : Walk}
      → Leveled find ceil_quotient target build_set items w w'
      → (supply t w' ≡ supply t w + total t items)
        × (consumed t w'.steps_by_type_id + total t w.next_level
            ≡ consumed t w.steps_by_type_id + total t w'.next_level)
  unfolding total
  Leveled-balance (finished e) = rw e (omega arith, omega arith)
  Leveled-balance (through x l) =
      let b = Expanded-Booked x in
      let h = Leveled-balance l in (omega (arith, b.supplied, h.0), omega (arith, b.passed_on, h.1))

  Walked-balance :
      {level left : Dict ℕ ℕ} {w w' : Walk}
      → Walked find ceil_quotient target build_set level w left w'
      → supply t w' + total t left + consumed t w.steps_by_type_id
        ≡ supply t w + total t level + consumed t w'.steps_by_type_id
  unfolding total
  Walked-balance (stop e f) = rw (e, f)
  Walked-balance (round l r) =
      let h = Leveled-balance l in omega (arith, h.0, h.1, Walked-balance r)

  buy_leftover-supply :
      (left : Dict ℕ ℕ) (w : Walk)
      → (supply t (buy_leftover left w) ≡ supply t w + total t left)
        × ((buy_leftover left w).steps_by_type_id ≡ w.steps_by_type_id)
  unfolding buy_leftover total
  buy_leftover-supply [] w = (omega arith, refl)
  buy_leftover-supply ((k, q) ∷ items) w =
      let w₁ = record w {
        raw_totals = add_to k q w.raw_totals;
        raw_buildable = set_default k false w.raw_buildable;
      } in
      let h = buy_leftover-supply items w₁ in
      (omega (arith, h.0, amount-add_to k t q w.raw_totals), h.1)

  -- When the walk returns: for every type, what the steps make for the chain together with what is
  -- bought is exactly what the target and the steps need of it. No demand is lost, at the recursion
  -- guard either, and none is invented.
  pub walk_chain-balance :
      (target_quantity : ℕ) (w : Walk)
      → walk_chain ceil_quotient target build_set find target_quantity ≡ ok w
      → made t w.steps_by_type_id + amount t w.raw_totals
        ≡ (if target == t then target_quantity else 0) + consumed t w.steps_by_type_id
  walk_chain-balance target_quantity w h =
      let (left, w₁, walked, e) =
        walk_chain-Walked find ceil_quotient target build_set target_quantity w h in
      let l = buy_leftover-supply left w₁ in
      rw e (
        unfold made consumed get total in
        omega (arith, l.0, ap (made t) l.1, ap (consumed t) l.1, Walked-balance walked))
