-- ===== src/BuildChain/Expand.antt =====
-- What one round of the walk has done, item by item, and the rule for invariants of the walk.
use aobp.Prelude.{
  ℕ, zero, suc, ◌≡◌, ◌≢◌, refl, Bool, true, false, ◌||◌, Option, none, some, List, [], ◌∷◌, arith,
  ◌==◌, if◌then◌else◌, get_or, is_some, member, nat_eq, nat_beq_iff, inl, inr, Bool-cases,
  Option-cases, All,
}
use aobp.Result.{Result, ok, >>=-eq-ok}
use aobp.Dict.{Listed, Listed-keys, Dict, get, keys}
use aobp.BuildChain.{
  Blueprint, Walk, max_depth, start, blueprint_docs, buy, grow, additional_runs, expand_item,
  expand_level, walk_levels, buy_leftover, walk_chain,
}

-- The two branches of the loop's body, with the facts that chose them.
pub data Expanded (find : ℕ → Option Blueprint) (ceil_quotient : ℕ → ℕ → Result ℕ) (target : ℕ)
    (build_set : List ℕ) (k q : ℕ) (w w' : Walk) : Type 0 where
  bought :
      (buildable : Bool)
      → buildable ≡ is_some (find k)
      → (buildable ≡ true → (k == target || member k build_set) ≡ false)
      → w' ≡ buy k q buildable w
      → Expanded find ceil_quotient target build_set k q w w'
  built :
      (b : Blueprint) (product_quantity runs : ℕ)
      → find k ≡ some b
      → (k == target || member k build_set) ≡ true
      → product_quantity ≡ get_or b.product_quantity 1
      → product_quantity ≢ 0
      → additional_runs ceil_quotient q product_quantity ≡ ok runs
      → w' ≡ grow k q product_quantity runs b.materials w
      → Expanded find ceil_quotient target build_set k q w w'

module _ (find : ℕ → Option Blueprint) where
  -- The documents of a level answer like the database for the level's own items.
  abbrev pub Fetched : Dict ℕ Blueprint → Dict ℕ ℕ → Type 0
  Fetched docs = All (λ item. get item.0 docs ≡ find item.0)

  pub get-blueprint_docs :
      (k : ℕ) (level : Dict ℕ ℕ)
      → get k (blueprint_docs find level) ≡ (if member k (keys level) then find k else none)
  unfolding blueprint_docs get member keys
  get-blueprint_docs k [] = refl
  get-blueprint_docs k ((j, q) ∷ level) =
      ground (arith, nat_beq_iff j k, get-blueprint_docs k level)

  Fetched-of_Listed :
      (level items : Dict ℕ ℕ)
      → Listed (keys level) items
      → Fetched (blueprint_docs find level) items
  Fetched-of_Listed level [] h = tt
  Fetched-of_Listed level ((k, q) ∷ items) h =
      (rw (get-blueprint_docs, h.0), Fetched-of_Listed level items h.1)

  pub Fetched-blueprint_docs : (level : Dict ℕ ℕ) → Fetched (blueprint_docs find level) level
  Fetched-blueprint_docs level = Fetched-of_Listed level level (Listed-keys level)

module _ (find : ℕ → Option Blueprint) (ceil_quotient : ℕ → ℕ → Result ℕ) (target : ℕ)
    (build_set : List ℕ) where
  abbrev pub Expands : ℕ → ℕ → Walk → Walk → Type 0
  Expands = Expanded find ceil_quotient target build_set

  pub expand_item-Expanded :
      (docs : Dict ℕ Blueprint) (k q : ℕ) (w w' : Walk)
      → get k docs ≡ find k
      → expand_item ceil_quotient target build_set docs k q w ≡ ok w'
      → Expands k q w w'
  unfolding expand_item
  expand_item-Expanded docs k q w w' fetched h = elim (Option-cases (find k)) [
    | inl absent ↦ bought false (rw absent) (λ e. cc) (ground arith)
    | inr (b, found) ↦ elim (Bool-cases (k == target || member k build_set)) [
      | inl wanted ↦
          let pq = get_or b.product_quantity 1 in
          elim (Bool-cases (pq == 0)) [
            | inl nothing ↦ absurd (ground (arith, found, fetched, wanted, nothing, h))
            | inr something ↦
                let opened = rw (expand_item, fetched, found, wanted, something) at h in
                let (runs, ran, last) =
                  >>=-eq-ok (additional_runs ceil_quotient q pq)
                    (λ n. ok (grow k q pq n b.materials w)) opened in
                built b pq runs found wanted refl (λ e. ground (arith, e, something)) ran (cc)
          ]
      | inr left ↦ bought true (rw found) (λ _. left) (ground arith)
    ]
  ]

  -- A level that went through: each of its items was bought or built, in order.
  pub data Leveled : Dict ℕ ℕ → Walk → Walk → Type 0 where
    finished : {w w' : Walk} → w' ≡ w → Leveled [] w w'
    through :
        {k q : ℕ} {items : Dict ℕ ℕ} {w w₁ w₂ : Walk}
        → Expands k q w w₁
        → Leveled items w₁ w₂
        → Leveled ((k, q) ∷ items) w w₂

  pub expand_level-Leveled :
      (docs : Dict ℕ Blueprint) (items : Dict ℕ ℕ) (w w' : Walk)
      → Fetched find docs items
      → expand_level ceil_quotient target build_set docs items w ≡ ok w'
      → Leveled items w w'
  unfolding expand_level
  expand_level-Leveled docs [] w w' f h = finished (cc)
  expand_level-Leveled docs ((k, q) ∷ items) w w' f h =
      let (w₁, first, rest) =
        >>=-eq-ok (expand_item ceil_quotient target build_set docs k q w)
          (expand_level ceil_quotient target build_set docs items) h in
      through (expand_item-Expanded docs k q w w₁ f.0 first)
        (expand_level-Leveled docs items w₁ w' f.1 rest)

  -- The rounds of the loop, down to the level that the recursion guard leaves.
  pub data Walked : Dict ℕ ℕ → Walk → Dict ℕ ℕ → Walk → Type 0 where
    stop : {level left : Dict ℕ ℕ} {w w' : Walk} → left ≡ level → w' ≡ w → Walked level w left w'
    round :
        {level left : Dict ℕ ℕ} {w w₁ w₂ : Walk}
        → Leveled level (record w { next_level = [] }) w₁
        → Walked w₁.next_level w₁ left w₂
        → Walked level w left w₂

  pub walk_levels-Walked :
      (rounds : ℕ) (level left : Dict ℕ ℕ) (w w' : Walk)
      → walk_levels ceil_quotient target build_set find rounds level w ≡ ok (left, w')
      → Walked level w left w'
  unfolding walk_levels
  walk_levels-Walked zero level left w w' h = stop (cc) (cc)
  walk_levels-Walked (suc rounds) [] left w w' h = stop (cc) (cc)
  walk_levels-Walked (suc rounds) (item ∷ items) left w w' h =
      let level = item ∷ items in
      let emptied = record w { next_level = [] } in
      let (w₁, first, rest) =
        >>=-eq-ok
          (expand_level ceil_quotient target build_set (blueprint_docs find level) level emptied)
          (λ v. walk_levels ceil_quotient target build_set find rounds v.next_level v) h in
      round (expand_level-Leveled _ level emptied w₁ (Fetched-blueprint_docs find level) first)
        (walk_levels-Walked rounds w₁.next_level left w₁ w' rest)

  pub walk_chain-Walked :
      (target_quantity : ℕ) (w : Walk)
      → walk_chain ceil_quotient target build_set find target_quantity ≡ ok w
      → (left : Dict ℕ ℕ) × (w₁ : Walk) × Walked ((target, target_quantity) ∷ []) start left w₁
        × (w ≡ buy_leftover left w₁)
  unfolding walk_chain
  walk_chain-Walked target_quantity w h =
      let first = (target, target_quantity) ∷ [] in
      let ((left, w₁), walked, last) =
        >>=-eq-ok (walk_levels ceil_quotient target build_set find max_depth first start)
          (λ e. ok (buy_leftover e.0 e.1)) h in
      (left, w₁, walk_levels-Walked max_depth first left start w₁ walked, cc)

  -- The rule for an invariant of the walk: the next level may be emptied, and each item keeps it.
  module _ {P : Walk → Type 0} (emptied : (w : Walk) → P w → P (record w { next_level = [] }))
      (kept : (k q : ℕ) (w w' : Walk) → Expands k q w w' → P w → P w') where
    Leveled-rule : {items : Dict ℕ ℕ} {w w' : Walk} → Leveled items w w' → P w → P w'
    Leveled-rule (finished e) p = rw e p
    Leveled-rule (through {k} {q} {items} {w} {w₁} x l) p = Leveled-rule l (kept k q w w₁ x p)

    pub Walked-rule : {level left : Dict ℕ ℕ} {w w' : Walk} → Walked level w left w' → P w → P w'
    Walked-rule (stop _ e) p = rw e p
    Walked-rule (round {level} {left} {w} l r) p = Walked-rule r (Leveled-rule l (emptied w p))

    pub walk_chain-rule :
        ((left : Dict ℕ ℕ) (w : Walk) → P w → P (buy_leftover left w))
        → P start
        → (target_quantity : ℕ) (w : Walk)
        → walk_chain ceil_quotient target build_set find target_quantity ≡ ok w
        → P w
    walk_chain-rule last p target_quantity w h =
        let (left, w₁, walked, e) = walk_chain-Walked target_quantity w h in
        rw e (last left w₁ (Walked-rule walked p))
