-- ===== src/BuildChain/Order/Visits.antt =====
-- What a call of `_visit` does to the order of the steps, and the calls for a step's components.
use aobp.Prelude.{
  ℕ, ◌≤◌, ◌<◌, ◌≡◌, true, ◌||◌, List, [], ◌∷◌, ◌++◌, arith, ◌==◌, member, nat_eq, nat_beq_iff, inl,
  inr, Bool-cases, is_some, ◌⊎◌, subst,
}
use aobp.Result.{ok, >>=-eq-ok}
use aobp.Dict.{Dict, get, keys}
use aobp.BuildChain.{BuildStep}
use aobp.BuildChain.Order.{Visit, visit_each, visit}
use aobp.Dict.Unvisited.{Grows}

unfoldable pub ids : List BuildStep → List ℕ
ids [] = []
ids (s ∷ ss) = s.type_id ∷ ids ss

pub member-ids_snoc :
    (k : ℕ) (xs : List BuildStep) (s : BuildStep)
    → member k (ids (xs ++ s ∷ [])) ≡ member k (ids xs) || (s.type_id == k)
unfolding ids member
member-ids_snoc k [] s = ground arith
member-ids_snoc k (x ∷ xs) s = ground (arith, member-ids_snoc k xs s)

module _ (steps : Dict ℕ BuildStep) where
  -- `m` is a component that one of the steps builds, and the step `s` consumes it.
  abbrev pub Consumes : BuildStep → ℕ → Type 0
  Consumes s m = (member m (keys s.materials) ≡ true) × (is_some (get m steps) ≡ true)

  -- Each step stands behind the steps of its components.
  abbrev pub IsBuildOrder : List ℕ → List BuildStep → Type 0
  IsBuildOrder seen [] = Unit
  IsBuildOrder seen (s ∷ ss) =
      ((m : ℕ) → Consumes s m → member m seen ≡ true) × IsBuildOrder (s.type_id ∷ seen) ss

  pub IsBuildOrder-snoc :
      (seen : List ℕ) (xs : List BuildStep) (s : BuildStep)
      → IsBuildOrder seen xs
      → ((m : ℕ) → Consumes s m → member m (ids xs) || member m seen ≡ true)
      → IsBuildOrder seen (xs ++ s ∷ [])
  unfolding ids member
  IsBuildOrder-snoc seen [] s h c = (c, tt)
  IsBuildOrder-snoc seen (x ∷ xs) s h c =
      (h.0, IsBuildOrder-snoc (x.type_id ∷ seen) xs s h.1 (λ m p. ground (arith, c m p)))

  module _ (rank : ℕ → ℕ) where
    -- The steps that were visited below the rank `b` are in the order already.
    abbrev pub Finished : ℕ → Visit → Type 0
    Finished b v =
        (k : ℕ)
        → member k v.visited ≡ true
        → rank k < b
        → is_some (get k steps) ≡ true
        → member k (ids v.ordered) ≡ true

    -- What a call of `_visit` for an item of rank `r` has done.
    pub record After (r : ℕ) (v v' : Visit) : Type 0 where
      pub grows : Grows v.visited v'.visited
      pub kept : Grows (ids v.ordered) (ids v'.ordered)
      pub low : (k : ℕ) → member k v'.visited ≡ true → (member k v.visited ≡ true) ⊎ (rank k ≤ r)
      pub finished : (b : ℕ) → r < b → Finished b v → Finished b v'
      pub sorted : Finished r v → IsBuildOrder [] v.ordered → IsBuildOrder [] v'.ordered

    pub After-refl : (r : ℕ) (v : Visit) → After r v v
    After-refl r v = record {
      grows = λ k m. m;
      kept = λ k m. m;
      low = λ k m. inl m;
      finished = λ b h f. f;
      sorted = λ f s. s;
    }

    -- The children of a step of rank `suc r`, one after the other.
    pub record Each (r : ℕ) (v v' : Visit) : Type 0 where
      pub grows : Grows v.visited v'.visited
      pub kept : Grows (ids v.ordered) (ids v'.ordered)
      pub low : (k : ℕ) → member k v'.visited ≡ true → (member k v.visited ≡ true) ⊎ (rank k < r)
      pub finished : (b : ℕ) → r ≤ b → Finished b v → Finished b v'
      pub sorted : Finished r v → IsBuildOrder [] v.ordered → IsBuildOrder [] v'.ordered

    Each-refl : (r : ℕ) (v : Visit) → Each r v v
    Each-refl r v = record {
      grows = λ k m. m;
      kept = λ k m. m;
      low = λ k m. inl m;
      finished = λ b h f. f;
      sorted = λ f s. s;
    }

    abbrev pub VisitRule : ℕ → Type 0
    VisitRule fuel =
        (t : ℕ) (v v' : Visit)
        → visit steps fuel t v ≡ ok v'
        → After (rank t) v v' × (member t v'.visited ≡ true)

    pub visit_each-Each :
        (fuel r : ℕ)
        → VisitRule fuel
        → (ks : List ℕ) → ((m : ℕ) → member m ks ≡ true → rank m < r)
        → (v v' : Visit) → visit_each (visit steps fuel) ks v ≡ ok v'
        → Each r v v' × ((m : ℕ) → member m ks ≡ true → member m v'.visited ≡ true)
    unfolding visit_each member
    visit_each-Each fuel r ih [] below v v' h =
        let e : v ≡ v' = cc in (subst (Each r v) e (Each-refl r v), λ m p. absurd (cc))
    visit_each-Each fuel r ih (k ∷ ks) below v v' h =
        let (v₁, first, rest) =
          >>=-eq-ok (visit steps fuel k v) (visit_each (visit steps fuel) ks) h in
        let (a, reached) = ih k v v₁ first in
        let (b, all) = visit_each-Each fuel r ih ks (λ m p. below m (ground arith)) v₁ v' rest in
        let small : rank k < r = below k (ground (arith, nat_beq_iff k k)) in
        (
          record {
            grows = λ j m. b.grows j (a.grows j m);
            kept = λ j m. b.kept j (a.kept j m);
            low = λ j m. elim (b.low j m) [
              | inl old ↦ elim (a.low j old) [
                | inl before ↦ inl before
                | inr le ↦ inr (omega arith)
              ]
              | inr lt ↦ inr lt
            ];
            finished = λ c le f. b.finished c le (a.finished c (omega arith) f);
            sorted =
                λ f s. b.sorted (a.finished r small f) (a.sorted (λ j m lt. f j m (omega arith)) s);
          },
          λ m p. elim (Bool-cases (k == m)) [
            | inl same ↦ b.grows m (rw (← (nat_beq_iff k m).0 same) reached)
            | inr other ↦ all m (ground arith)
          ],
        )
