-- ===== src/BuildChain/Steps.antt =====
-- What a build step records: its blueprint, its materials and its runs.
use Prim.Native.Nat.{max}
use mathlib.Core.Path.{subst}
use mathlib.Core.Option.{some-injective}
use aobp.Prelude.{
  ℕ, ◌+◌, ◌-◌, ◌*◌, ◌/◌, ◌^◌, ◌≤◌, ◌<◌, ◌≡◌, ◌≢◌, refl, ap, true, ◌||◌, Option, some, List, [], ◌∷◌,
  arith, ◌==◌, get_or, member, nat_eq, inl, inr, Option-cases, sym, ◌∙◌,
}
use aobp.Result.{Result, ok}
use aobp.Dict.{Dict, get, get-put_all}
use aobp.Dict.Amounts.{amount}
use aobp.BuildChain.{
  Material, Blueprint, BuildStep, Walk, new_step, buy, grow_step, grow, additional_runs,
  buy_leftover, walk_chain,
}
use aobp.BuildChain.Balance.{demand_for, amount-add_demand}
use aobp.BuildChain.Expand.{Expands, bought, built, walk_chain-rule}

-- Below this bound `math.ceil(a / b)` on floats is the exact quotient, rounded up: both numbers are
-- represented exactly and the division is rounded correctly.
abbrev pub exact_limit : ℕ
exact_limit = 2 ^ 53

pub record IsExact (ceil_quotient : ℕ → ℕ → Result ℕ) : Type 0 where
  pub exact :
      (a b : ℕ)
      → 0 < b
      → b ≤ exact_limit
      → a ≤ exact_limit
      → ceil_quotient a b ≡ ok ((a + (b - 1)) / b)

le-ceil-mul : (a b : ℕ) → 0 < b → a ≤ (a + (b - 1)) / b * b
le-ceil-mul a b h = grind arith

demand_for-add :
    (t r r' : ℕ) (ms : List Material)
    → demand_for t (r + r') ms ≡ demand_for t r ms + demand_for t r' ms
unfolding demand_for
demand_for-add t r r' [] = omega arith
demand_for-add t r r' (m ∷ ms) = ground (arith, demand_for-add t r r' ms)

demand_for-zero : (t : ℕ) (ms : List Material) → demand_for t 0 ms ≡ 0
unfolding demand_for
demand_for-zero t [] = refl
demand_for-zero t (m ∷ ms) = ground (arith, demand_for-zero t ms)

mul-le : (a b c : ℕ) → a ≤ b → a * c ≤ b * c
mul-le a b c h = grind arith

covers-grow :
    {ceil_quotient : ℕ → ℕ → Result ℕ} (needed q runs product more : ℕ)
    → 0 < product
    → product ≤ exact_limit
    → IsExact ceil_quotient
    → needed + q ≤ exact_limit
    → (needed ≤ exact_limit → needed ≤ runs * product)
    → additional_runs ceil_quotient q product ≡ ok more
    → needed + q ≤ (runs + more) * product
unfolding additional_runs
covers-grow {ceil_quotient} needed q runs product more pos fits x small old ran =
    let c = (q + (product - 1)) / product in
    let e : ok (max 1 c) ≡ ok more =
      rw (x.exact q product pos fits (omega arith), additional_runs) at ran in
    let same : max 1 c ≡ more = cc in
    omega (arith, old (omega arith), le-ceil-mul q product pos, mul-le c more product (omega arith))

module _ (find : ℕ → Option Blueprint) (ceil_quotient : ℕ → ℕ → Result ℕ) (target : ℕ)
    (build_set : List ℕ) where
  -- What every visit keeps of a step under the key `k`.
  record IsGrown (k : ℕ) (step : BuildStep) : Type 0 where
    blueprint : Blueprint
    found : find k ≡ some blueprint
    wanted : (k == target || member k build_set) ≡ true
    keyed : step.type_id ≡ k
    product : step.product_quantity ≡ get_or blueprint.product_quantity 1
    positive : 0 < step.product_quantity
    consumes : (t : ℕ) → amount t step.materials ≡ demand_for t step.runs blueprint.materials
    covers :
        step.product_quantity ≤ exact_limit
        → step.quantity_needed ≤ exact_limit
        → step.quantity_needed ≤ step.runs * step.product_quantity

  -- What the result says of a step under the key `k`.
  pub record IsSound (k : ℕ) (step : BuildStep) : Type 0 where
    pub blueprint : Blueprint
    pub found : find k ≡ some blueprint
    pub wanted : (k == target || member k build_set) ≡ true
    pub keyed : step.type_id ≡ k
    pub product : step.product_quantity ≡ get_or blueprint.product_quantity 1
    pub positive : 0 < step.product_quantity
    pub consumes : (t : ℕ) → amount t step.materials ≡ demand_for t step.runs blueprint.materials

  abbrev AllSound : Walk → Type 0
  AllSound w = (k : ℕ) (step : BuildStep) → get k w.steps_by_type_id ≡ some step → IsGrown k step

  -- One more visit keeps a step sound.
  grow_step-IsGrown :
      IsExact ceil_quotient
      → (k q runs : ℕ) (step : BuildStep) → (s : IsGrown k step)
      → additional_runs ceil_quotient q step.product_quantity ≡ ok runs
      → IsGrown k (grow_step q runs s.blueprint.materials step)
  unfolding grow_step
  grow_step-IsGrown x k q runs step s ran = record {
    blueprint = s.blueprint;
    found = s.found;
    wanted = s.wanted;
    keyed = s.keyed;
    product = s.product;
    positive = s.positive;
    consumes = λ t. omega (
      arith,
      s.consumes t,
      amount-add_demand t runs s.blueprint.materials step.materials,
      demand_for-add t step.runs runs s.blueprint.materials,
    );
    covers = λ fits small.
        covers-grow step.quantity_needed q step.runs step.product_quantity runs s.positive fits x
          small (s.covers fits) ran;
  }

  new_step-IsGrown :
      (k : ℕ) (b : Blueprint)
      → find k ≡ some b
      → (k == target || member k build_set) ≡ true
      → get_or b.product_quantity 1 ≢ 0
      → IsGrown k (new_step k (get_or b.product_quantity 1))
  unfolding get
  new_step-IsGrown k b found wanted h = record {
    blueprint = b;
    found = found;
    wanted = wanted;
    keyed = refl;
    product = refl;
    positive = omega arith;
    consumes = λ t. rw demand_for-zero;
    covers = λ _ _. omega arith;
  }

  -- The same for the blueprint that the database returned again.
  grow_again-IsGrown :
      IsExact ceil_quotient
      → (k q pq runs : ℕ) (b : Blueprint) (step : BuildStep) → find k ≡ some b
      → pq ≡ get_or b.product_quantity 1
      → additional_runs ceil_quotient q pq ≡ ok runs
      → IsGrown k step
      → IsGrown k (grow_step q runs b.materials step)
  grow_again-IsGrown x k q pq runs b step found e ran s =
      let same : s.blueprint ≡ b = some-injective _ _ (sym s.found ∙ found) in
      let product : step.product_quantity ≡ pq =
        s.product ∙ ap (λ (c : Blueprint). get_or c.product_quantity 1) same ∙ sym e in
      subst (λ c. IsGrown k (grow_step q runs (Blueprint.materials c) step)) same
        (grow_step-IsGrown x k q runs step s (rw product ran))

  get_or_new-IsGrown :
      (k : ℕ) (b : Blueprint) (w : Walk)
      → AllSound w
      → find k ≡ some b
      → (k == target || member k build_set) ≡ true
      → get_or b.product_quantity 1 ≢ 0
      → IsGrown k (get_or (get k w.steps_by_type_id) (new_step k (get_or b.product_quantity 1)))
  get_or_new-IsGrown k b w all found wanted h = elim (Option-cases (get k w.steps_by_type_id)) [
    | inl absent ↦ rw absent (new_step-IsGrown k b found wanted h)
    | inr (s, present) ↦ rw present (all k s present)
  ]

  Expands-AllSound :
      IsExact ceil_quotient
      → (k q : ℕ) (w w' : Walk) → Expands find ceil_quotient target build_set k q w w'
      → AllSound w
      → AllSound w'
  unfolding buy grow
  Expands-AllSound x k q w w' (bought buildable _ _ e) all = rw e all
  Expands-AllSound x k q w w' (built b pq runs found wanted product h ran e) all = rw e grown
    where
      old : BuildStep
      old = get_or (get k w.steps_by_type_id) (new_step k pq)

      new : BuildStep
      new = grow_step q runs b.materials old

      sound : IsGrown k new
      sound =
          grow_again-IsGrown x k q pq runs b old found product ran
            (rw product (get_or_new-IsGrown k b w all found wanted (rw product at h)))

      grown : AllSound (grow k q pq runs b.materials w)
      grown j s present = get-put_all IsGrown k new w.steps_by_type_id sound all j s present

  steps-buy_leftover :
      (left : Dict ℕ ℕ) (w : Walk) → (buy_leftover left w).steps_by_type_id ≡ w.steps_by_type_id
  unfolding buy_leftover
  steps-buy_leftover [] w = refl
  steps-buy_leftover ((k, q) ∷ left) w = steps-buy_leftover left _

  walk_chain-AllSound :
      IsExact ceil_quotient
      → (target_quantity : ℕ) (w : Walk)
      → walk_chain ceil_quotient target build_set find target_quantity ≡ ok w
      → AllSound w
  walk_chain-AllSound x =
      walk_chain-rule find ceil_quotient target build_set {P = AllSound} (λ w all. all)
        (Expands-AllSound x) (λ left w all. rw steps-buy_leftover all)
        (λ k s e. absurd (unfold get in cc))

  -- When the walk returns, with a quotient that is exact up to 2 ^ 53: every step of the result
  -- belongs to an item with a blueprint that is the target or was chosen to be built; it stands under
  -- its own type, makes what the blueprint makes in a run, never 0 items, and consumes, of every type,
  -- exactly what its runs of that blueprint ask for.
  pub walk_chain-IsSound :
      IsExact ceil_quotient
      → (target_quantity : ℕ) (w : Walk)
      → walk_chain ceil_quotient target build_set find target_quantity ≡ ok w
      → (k : ℕ) (step : BuildStep) → get k w.steps_by_type_id ≡ some step
      → IsSound k step
  walk_chain-IsSound x quantity w h k step present =
      let s = walk_chain-AllSound x quantity w h k step present in
      record {
        blueprint = s.blueprint;
        found = s.found;
        wanted = s.wanted;
        keyed = s.keyed;
        product = s.product;
        positive = s.positive;
        consumes = s.consumes;
      }

  -- When the walk returns, with a quotient that is exact up to 2 ^ 53: the runs of every step make at
  -- least the quantity that the chain needs of its item, as long as that quantity and the blueprint's
  -- are at most 2 ^ 53.
  pub walk_chain-covers :
      IsExact ceil_quotient
      → (target_quantity : ℕ) (w : Walk)
      → walk_chain ceil_quotient target build_set find target_quantity ≡ ok w
      → (k : ℕ) (step : BuildStep) → get k w.steps_by_type_id ≡ some step
      → step.product_quantity ≤ exact_limit
      → step.quantity_needed ≤ exact_limit
      → step.quantity_needed ≤ step.runs * step.product_quantity
  walk_chain-covers x quantity w h k step present =
      (walk_chain-AllSound x quantity w h k step present).covers
