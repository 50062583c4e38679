-- ===== src/BuildChain/Wanted.antt =====
-- Which items have a step, and that the ordered list holds only steps of the walk.
use mathlib.Core.List.{◌++◌}
use aobp.Prelude.{
  ℕ, zero, suc, ◌≡◌, refl, ap, subst, String, true, ◌||◌, Option, some, List, [], ◌∷◌, nat_eq, ◌==◌,
  member, get_or, All, inl, inr, Bool-cases, Option-cases, length,
}
use aobp.Result.{Result, ok, ◌>>=◌, >>=-eq-ok}
use aobp.Dict.{Dict, get, keys, get-put_all}
use aobp.BuildChain.{
  Blueprint, BuildStep, Walk, new_step, grow_step, grow, buy, buy_leftover, walk_chain,
}
use aobp.BuildChain.Expand.{Expands, bought, built, walk_chain-rule}
use aobp.BuildChain.Order.{Visit, visit_each, visit, topological_order}
use aobp.BuildChain.Resolve.{named_steps}

module _ (find : ℕ → Option Blueprint) (ceil_quotient : ℕ → ℕ → Result ℕ) (target : ℕ)
    (build_set : List ℕ) where
  -- The step under the key `k` is for that item, which was to be built.
  abbrev pub IsWanted : ℕ → BuildStep → Type 0
  IsWanted k step = (step.type_id ≡ k) × ((k == target || member k build_set) ≡ true)

  abbrev AllWanted : Walk → Type 0
  AllWanted w = (k : ℕ) (step : BuildStep) → get k w.steps_by_type_id ≡ some step → IsWanted k step

  Expands-AllWanted :
      (k q : ℕ) (w w' : Walk)
      → Expands find ceil_quotient target build_set k q w w'
      → AllWanted w
      → AllWanted w'
  unfolding buy grow grow_step
  Expands-AllWanted k q w w' (bought buildable _ _ e) all = rw e all
  Expands-AllWanted k q w w' (built b pq runs found wanted product h ran e) all =
      let old = get_or (get k w.steps_by_type_id) (new_step k pq) in
      let keyed : BuildStep.type_id old ≡ k = elim (Option-cases (get k w.steps_by_type_id)) [
        | inl absent ↦ rw absent refl
        | inr (s, present) ↦ rw present ((all k s present).0)
      ] in
      rw e (
        get-put_all IsWanted k (grow_step q runs b.materials old) w.steps_by_type_id (keyed, wanted)
          all)

  steps-buy_leftover :
      (left : Dict ℕ ℕ) (w : Walk) → (buy_leftover left w).steps_by_type_id ≡ w.steps_by_type_id
  unfolding buy_leftover
  steps-buy_leftover [] w = refl
  steps-buy_leftover ((k, q) ∷ left) w = steps-buy_leftover left _

  -- When the walk returns, each step is under its item's key, and the item is the target or was chosen.
  pub walk_chain-IsWanted :
      (target_quantity : ℕ) (w : Walk)
      → walk_chain ceil_quotient target build_set find target_quantity ≡ ok w
      → (k : ℕ) (step : BuildStep) → get k w.steps_by_type_id ≡ some step
      → IsWanted k step
  walk_chain-IsWanted =
      walk_chain-rule find ceil_quotient target build_set {P = AllWanted} (λ w all. all)
        Expands-AllWanted (λ left w all. rw steps-buy_leftover all)
        (λ k s e. absurd (unfold get in cc))

All-snoc {ℓ κ} :
    {A : Type ℓ} (P : A → Type κ) (xs : List A) (x : A) → All P xs → P x → All P (xs ++ x ∷ [])
All-snoc P [] x h p = (p, tt)
All-snoc P (y ∷ xs) x h p = (h.0, All-snoc P xs x h.1 p)

module _ (steps : Dict ℕ BuildStep) (P : BuildStep → Type 0)
    (each : (k : ℕ) (s : BuildStep) → get k steps ≡ some s → P s) where
  visit_each-All :
      (run : ℕ → Visit → Result Visit)
      → ((t : ℕ) (v v' : Visit) → run t v ≡ ok v' → All P v.ordered → All P v'.ordered)
      → (ks : List ℕ) (v v' : Visit) → visit_each run ks v ≡ ok v'
      → All P v.ordered
      → All P v'.ordered
  unfolding visit_each
  visit_each-All run ih [] v v' h all =
      let same : v ≡ v' = cc in subst (λ u. All P (Visit.ordered u)) same all
  visit_each-All run ih (k ∷ ks) v v' h all =
      let (v₁, e, rest) = >>=-eq-ok (run k v) (λ u. visit_each run ks u) h in
      visit_each-All run ih ks v₁ v' rest (ih k v v₁ e all)

  visit-All :
      (fuel t : ℕ) (v v' : Visit)
      → visit steps fuel t v ≡ ok v'
      → All P v.ordered
      → All P v'.ordered
  unfolding visit
  visit-All zero t v v' h all = absurd (cc)
  visit-All (suc fuel) t v v' h all = elim (Bool-cases (member t v.visited)) [
    | inl seen ↦
        let returned : ◌≡◌ {A = Result Visit} (ok v) (ok v') = rw (visit, seen) at h in
        let same : v ≡ v' = cc in subst (λ u. All P (Visit.ordered u)) same all
    | inr fresh ↦
        let marked : Visit = record v { visited = t ∷ v.visited } in
        elim (Option-cases (get t steps)) [
          | inl absent ↦
              let returned : ◌≡◌ {A = Result Visit} (ok marked) (ok v') =
                rw (visit, fresh, absent) at h in
              let same : marked ≡ v' = cc in subst (λ u. All P (Visit.ordered u)) same all
          | inr (step, present) ↦
              let more = λ (u : Visit). record u { ordered = u.ordered ++ step ∷ [] } in
              let opened : (do
                u ← visit_each (visit steps fuel) (keys step.materials) marked
                ok (more u))
                  ≡ ok v' =
                rw (visit, fresh, present) at h in
              let (v₁, e, last) =
                >>=-eq-ok (visit_each (visit steps fuel) (keys step.materials) marked)
                  (λ u. ok (more u)) opened in
              let below =
                visit_each-All (visit steps fuel) (visit-All fuel) (keys step.materials) marked v₁ e
                  all in
              let same : more v₁ ≡ v' = cc in
              subst (λ u. All P (Visit.ordered u)) same
                (All-snoc P v₁.ordered step below (each t step present))
        ]
  ]

  -- Every ordered step is one of the steps.
  pub topological_order-All :
      (target : ℕ) (ordered : List BuildStep)
      → topological_order steps target ≡ ok ordered
      → All P ordered
  unfolding topological_order
  topological_order-All target ordered h =
      let (v, e, last) =
        >>=-eq-ok (visit steps (suc (length steps)) target (record { visited = []; ordered = [] }))
          (λ u. ok (Visit.ordered u)) h in
      let same : v.ordered ≡ ordered = cc in
      subst (All P) same
        (visit-All (suc (length steps)) target (record { visited = []; ordered = [] }) v e tt)

-- Naming the steps leaves their types.
pub get-named_steps :
    (P : ℕ → Type 0) (name : ℕ → String) (k : ℕ) (steps : Dict ℕ BuildStep)
    → ((s : BuildStep) → get k steps ≡ some s → P s.type_id)
    → (s : BuildStep) → get k (named_steps name steps) ≡ some s
    → P s.type_id
unfolding named_steps get
get-named_steps P name k [] all s h = absurd (cc)
get-named_steps P name k ((j, t) ∷ steps) all s h = elim (Bool-cases (j == k)) [
  | inl same ↦
      let renamed : BuildStep = record t { name = name t.type_id } in
      let found : ◌≡◌ {A = Option BuildStep} (some renamed) (some s) = rw same at h in
      let kept : renamed ≡ s = cc in subst P (ap BuildStep.type_id kept) (all t (rw same refl))
  | inr other ↦ get-named_steps P name k steps (λ u e. all u (rw other e)) s (rw other at h)
]
