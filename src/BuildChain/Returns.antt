-- ===== src/BuildChain/Returns.antt =====
-- The walk always ends with a result, unless a blueprint makes 0 items.
use Prim.Native.Nat.{max}
use aobp.Prelude.{
  ◌<◌, ◌⊎◌, false, ◌||◌, ◌==◌, member, Bool-cases, ℕ, zero, suc, ◌≡◌, ◌≢◌, refl, true, Option, some,
  List, [], ◌∷◌, arith, get_or, nat_eq, inl, inr, Option-cases,
}
use aobp.BuildChain.Expand.{get-blueprint_docs}
use aobp.Result.{Result, ok, raise, overflow_error, ◌>>=◌}
use aobp.Dict.{Dict, get}
use aobp.BuildChain.{
  Blueprint, Walk, start, max_depth, blueprint_docs, additional_runs, build, buy, grow, expand_item,
  expand_level, walk_levels, buy_leftover, walk_chain,
}

-- No blueprint that the database holds makes 0 items.
abbrev pub IsProductive : (ℕ → Option Blueprint) → Type 0
IsProductive find = (k : ℕ) (b : Blueprint) → find k ≡ some b → get_or b.product_quantity 1 ≢ 0

-- A quotient that is not a number is an overflow.
abbrev pub Overflows : (ℕ → ℕ → Result ℕ) → Type 0
Overflows ceil_quotient =
    (a b : ℕ)
    → 0 < b
    → ((n : ℕ) × (ceil_quotient a b ≡ ok n)) ⊎ (ceil_quotient a b ≡ raise overflow_error)

-- An overflow of a quotient of positive numbers.
abbrev pub HasOverflow : (ℕ → ℕ → Result ℕ) → Type 0
HasOverflow ceil_quotient = (a : ℕ) × (b : ℕ) × (0 < b) × (ceil_quotient a b ≡ raise overflow_error)

-- A result, or the error of an overflow that there is.
abbrev pub Concludes {ℓ} : {A : Type ℓ} → Type 0 → Result A → Type ℓ
Concludes {A = A} Cause r = ((a : A) × (r ≡ ok a)) ⊎ (Cause × (r ≡ raise overflow_error))

pub Concludes->>= {ℓ κ} :
    {A : Type ℓ} {B : Type κ} {Cause : Type 0} (r : Result A) (f : A → Result B)
    → Concludes Cause r
    → ((a : A) → r ≡ ok a → Concludes Cause (f a))
    → Concludes Cause (r >>= f)
Concludes->>= r f (inl (a, e)) next = rw e (next a e)
Concludes->>= r f (inr (cause, e)) next = inr (cause, rw e refl)

module _ (ceil_quotient : ℕ → ℕ → Result ℕ) (target : ℕ) (build_set : List ℕ)
    (overflows : Overflows ceil_quotient) where
  abbrev ConcludesWell {ℓ} : {A : Type ℓ} → Result A → Type ℓ
  ConcludesWell = Concludes (HasOverflow ceil_quotient)

  additional_runs_ends : (q p : ℕ) → 0 < p → ConcludesWell (additional_runs ceil_quotient q p)
  unfolding additional_runs
  additional_runs_ends q p h = elim (overflows q p h) [
    | inl (n, e) ↦ inl (max 1 n, rw e refl)
    | inr e ↦ inr ((q, p, h, e), rw e refl)
  ]

  build_ends :
      (k q : ℕ) (b : Blueprint) (w : Walk)
      → get_or b.product_quantity 1 ≢ 0
      → ConcludesWell (build ceil_quotient k q b w)
  unfolding build
  build_ends k q b w h =
      let pq = get_or b.product_quantity 1 in
      let some_made : (pq == 0) ≡ false = ground (arith, h) in
      rw some_made (
        Concludes->>= (additional_runs ceil_quotient q pq) (λ n. ok (grow k q pq n b.materials w))
          (additional_runs_ends q pq (ground (arith, h)))
          (λ n e. inl (grow k q pq n b.materials w, refl)))

  expand_item_ends :
      (docs : Dict ℕ Blueprint) (k q : ℕ) (w : Walk)
      → IsProductive (λ j. get j docs)
      → ConcludesWell (expand_item ceil_quotient target build_set docs k q w)
  unfolding expand_item
  expand_item_ends docs k q w h = elim (Option-cases (get k docs)) [
    | inl absent ↦ inl (buy k q false w, rw (absent, expand_item) refl)
    | inr (b, present) ↦ elim (Bool-cases (k == target || member k build_set)) [
      | inl wanted ↦ rw (present, wanted, expand_item) (build_ends k q b w (h k b present))
      | inr left ↦ inl (buy k q true w, rw (present, left, expand_item) refl)
    ]
  ]

  expand_level_ends :
      (docs : Dict ℕ Blueprint) (items : Dict ℕ ℕ) (w : Walk)
      → IsProductive (λ j. get j docs)
      → ConcludesWell (expand_level ceil_quotient target build_set docs items w)
  unfolding expand_level
  expand_level_ends docs [] w h = inl (w, refl)
  expand_level_ends docs ((k, q) ∷ items) w h =
      Concludes->>= (expand_item ceil_quotient target build_set docs k q w)
        (expand_level ceil_quotient target build_set docs items) (expand_item_ends docs k q w h)
        (λ w₁ e. expand_level_ends docs items w₁ h)

  module _ (find : ℕ → Option Blueprint) (productive : IsProductive find) where
    docs-IsProductive : (level : Dict ℕ ℕ) → IsProductive (λ j. get j (blueprint_docs find level))
    docs-IsProductive level k b e = productive k b (ground (arith, get-blueprint_docs find k level))

    walk_levels_ends :
        (rounds : ℕ) (level : Dict ℕ ℕ) (w : Walk)
        → ConcludesWell (walk_levels ceil_quotient target build_set find rounds level w)
    unfolding walk_levels
    walk_levels_ends zero level w = inl ((level, w), refl)
    walk_levels_ends (suc rounds) [] w = inl (([], w), refl)
    walk_levels_ends (suc rounds) (item ∷ items) w =
        let level = item ∷ items in
        let emptied = record w { next_level = [] } in
        Concludes->>=
          (expand_level ceil_quotient target build_set (blueprint_docs find level) level emptied)
          (λ v. walk_levels ceil_quotient target build_set find rounds v.next_level v)
          (expand_level_ends (blueprint_docs find level) level emptied (docs-IsProductive level))
          (λ w₁ e. walk_levels_ends rounds w₁.next_level w₁)

    -- If no blueprint of the database makes 0 items, the walk ends for every target and quantity, cycles
    -- of blueprints included: with a result, or with the error of an overflow.
    pub walk_chain_ends :
        (target_quantity : ℕ)
        → ConcludesWell (walk_chain ceil_quotient target build_set find target_quantity)
    unfolding walk_chain
    walk_chain_ends target_quantity =
        Concludes->>=
          (walk_levels ceil_quotient target build_set find max_depth
            ((target, target_quantity) ∷ []) start)
          (λ e. ok (buy_leftover e.0 e.1))
          (walk_levels_ends max_depth ((target, target_quantity) ∷ []) start)
          (λ a e. inl (buy_leftover a.0 a.1, refl))
