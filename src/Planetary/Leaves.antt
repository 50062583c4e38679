-- ===== src/Planetary/Leaves.antt =====
-- The expansion of a type ends, and what it lists are the leaves: the types at which the chain of the
-- schematics reaches the floor, or that no schematic makes.
use mathlib.Core.Option.{some-injective}
use aobp.Prelude.{
  ℕ, leb, zero, suc, ◌≤◌, ◌<◌, ◌≡◌, ◌≢◌, ◌⊎◌, refl, sym, subst, ◌∙◌, true, false, ◌||◌, none, some,
  List, [], ◌∷◌, map, arith, nat_eq, nat_beq_iff, ◌==◌, get_or, member, inl, inr, Option-cases,
  Bool-cases,
}
use aobp.Result.{Result, ok}
use aobp.Dict.{Dict, get, put, has, get-put}
use aobp.Planets.{Line, Schematic}
use aobp.Planetary.{Floats, merge, expansion, expand_lines, expand_to_tier}

-- `tier_index_by_type_id.get(type_id, 0)`
abbrev pub tier : Dict ℕ ℕ → ℕ → ℕ
tier tiers t = get_or (get t tiers) 0

abbrev pub types_of : Schematic → List ℕ
types_of s = map Line.type_id s.inputs

-- A schematic takes its inputs from lower tiers than its output's.
abbrev pub IsTiered : Dict ℕ Schematic → Dict ℕ ℕ → Type 0
IsTiered schematics tiers =
    (t i : ℕ) (s : Schematic)
    → get t schematics ≡ some s
    → 1 ≤ tier tiers t
    → member i (types_of s) ≡ true
    → tier tiers i < tier tiers t

-- Every schematic makes something.
abbrev pub IsProductive : Dict ℕ Schematic → Type 0
IsProductive schematics =
    (t : ℕ) (s : Schematic) → get t schematics ≡ some s → s.output.quantity ≢ 0

module _ (floor_tier : ℕ) (schematics : Dict ℕ Schematic) (tiers : Dict ℕ ℕ) where
  -- From `t` the schematics of types above the floor's tier lead down to the leaf `k`, which no schematic
  -- makes, or whose tier is the floor or below it.
  pub data Leads (k : ℕ) : ℕ → Type 0 where
    leaf : {t : ℕ} → (get t schematics ≡ none) ⊎ (tier tiers t ≤ floor_tier) → t ≡ k → Leads k t
    through :
        {t : ℕ} (s : Schematic) (i : ℕ)
        → floor_tier < tier tiers t
        → get t schematics ≡ some s
        → member i (types_of s) ≡ true
        → Leads k i
        → Leads k t

  expansion-some :
      (t : ℕ) (s : Schematic)
      → expansion floor_tier schematics tiers t ≡ some s
      → (floor_tier < tier tiers t) × (get t schematics ≡ some s)
  unfolding expansion
  expansion-some t s h = (ground (arith, h), ground (arith, h))

  expansion-none :
      (t : ℕ)
      → expansion floor_tier schematics tiers t ≡ none
      → (get t schematics ≡ none) ⊎ (tier tiers t ≤ floor_tier)
  unfolding expansion
  expansion-none t h = elim (Bool-cases (leb (tier tiers t) floor_tier)) [
    | inl low ↦ inr (ground (arith, low))
    | inr high ↦ inl (ground (arith, high, h))
  ]

  expansion-known :
      (t : ℕ) (s : Schematic)
      → floor_tier < tier tiers t
      → get t schematics ≡ some s
      → expansion floor_tier schematics tiers t ≡ some s
  unfolding expansion
  expansion-known t s above known = ground (arith, above, known)

  Leads-leaf : {k t : ℕ} → expansion floor_tier schematics tiers t ≡ none → Leads k t → t ≡ k
  Leads-leaf h (leaf _ e) = e
  Leads-leaf {t = t} h (through s i above known _ _) =
      let found = expansion-known t s above known in absurd (cc)

  Leads-through :
      {k t : ℕ} (s : Schematic)
      → expansion floor_tier schematics tiers t ≡ some s
      → Leads k t
      → (i : ℕ) × (member i (types_of s) ≡ true) × Leads k i
  Leads-through {t = t} s h (leaf (inl nothing) _) =
      let known = (expansion-some t s h).1 in absurd (cc)
  Leads-through {t = t} s h (leaf (inr low) _) =
      let above = (expansion-some t s h).0 in absurd (omega (arith, above, low))
  Leads-through {t = t} s h (through s' i above known i_in l) =
      let found = expansion-known t s' above known in
      let same : s' ≡ s = some-injective s' s (sym found ∙ h) in
      (i, subst (λ r. member i (types_of r) ≡ true) same i_in, l)

module _ {F : Type 0} (fl : Floats F) where
  has-merge :
      (k : ℕ) (sub result : Dict ℕ F) → has k (merge fl sub result) ≡ (has k sub || has k result)
  unfolding merge get
  has-merge k [] result = refl
  has-merge k ((t, q) ∷ sub) result =
      let q' = fl.plus (get_or (get t result) fl.zero_float) q in
      ground (arith, has-merge k sub (put t q' result), get-put t k q' result, nat_beq_iff t k)

  module _ (floor_tier : ℕ) (schematics : Dict ℕ Schematic) (tiers : Dict ℕ ℕ) where
    abbrev LeadsDown : ℕ → ℕ → Type 0
    LeadsDown = Leads floor_tier schematics tiers

    -- A result that lists exactly the leaves of `t`.
    pub record Expanded (t : ℕ) (answer : Result (Dict ℕ F)) : Type 0 where
      pub amounts : Dict ℕ F
      pub returned : answer ≡ ok amounts
      pub sound : (k : ℕ) → has k amounts ≡ true → LeadsDown k t
      pub complete : (k : ℕ) → LeadsDown k t → has k amounts ≡ true

    -- The same for a list of lines on top of what was there.
    pub record Lined (types : List ℕ) (before : Dict ℕ F) (answer : Result (Dict ℕ F))
        : Type 0 where
      pub amounts : Dict ℕ F
      pub returned : answer ≡ ok amounts
      sound :
          (k : ℕ)
          → has k amounts ≡ true
          → (has k before ≡ true) ⊎ ((i : ℕ) × (member i types ≡ true) × LeadsDown k i)
      kept : (k : ℕ) → has k before ≡ true → has k amounts ≡ true
      complete : (k i : ℕ) → member i types ≡ true → LeadsDown k i → has k amounts ≡ true

    pub expand_lines-Lined :
        (expand : ℕ → F → Result (Dict ℕ F)) (amount : ℕ → F) (lines : List Line)
        (before : Dict ℕ F)
        → ((i : ℕ) (q : F) → member i (map Line.type_id lines) ≡ true → Expanded i (expand i q))
        → Lined (map Line.type_id lines) before (expand_lines fl expand amount lines before)
    unfolding expand_lines member
    expand_lines-Lined expand amount [] before h = record {
      amounts = before;
      returned = refl;
      sound = λ k m. inl m;
      kept = λ k m. m;
      complete = λ k i m. cc;
    }
    expand_lines-Lined expand amount (line ∷ lines) before h =
        let first : member line.type_id (map Line.type_id (line ∷ lines)) ≡ true =
          ground (arith, nat_beq_iff line.type_id line.type_id) in
        let head = h line.type_id (amount line.quantity) first in
        let rest =
          expand_lines-Lined expand amount lines (merge fl head.amounts before)
            (λ i q m. h i q (ground (arith, m))) in
        record {
          amounts = rest.amounts;
          returned = rw (head.returned) rest.returned;
          sound = λ k m. elim (rest.sound k m) [
            | inl b ↦ elim (Bool-cases (has k head.amounts)) [
              | inl here ↦ inr (line.type_id, first, head.sound k here)
              | inr absent ↦ inl (ground (arith, b, absent, has-merge k head.amounts before))
            ]
            | inr (i, i_in, l) ↦ inr (i, ground (arith, i_in), l)
          ];
          kept = λ k m. rest.kept k (ground (arith, m, has-merge k head.amounts before));
          complete = λ k i m l. elim (Bool-cases (line.type_id == i)) [
            | inl same ↦
                let here =
                  head.complete k
                    (subst (LeadsDown k) (sym ((nat_beq_iff line.type_id i).0 same)) l) in
                rest.kept k (ground (arith, here, has-merge k head.amounts before))
            | inr other ↦ rest.complete k i (ground (arith, m, other)) l
          ];
        }

    leaf-Expanded :
        (t : ℕ) (quantity : F)
        → expansion floor_tier schematics tiers t ≡ none
        → Expanded t (ok ((t, quantity) ∷ []))
    unfolding get
    leaf-Expanded t quantity nothing = record {
      amounts = (t, quantity) ∷ [];
      returned = refl;
      sound =
          λ k m. leaf (expansion-none floor_tier schematics tiers t nothing) (ground (arith, m));
      complete =
          λ k l. ground (arith, Leads-leaf floor_tier schematics tiers nothing l, nat_beq_iff t k);
    }

    through-Expanded :
        (t : ℕ) (s : Schematic) (answer : Result (Dict ℕ F))
        → expansion floor_tier schematics tiers t ≡ some s
        → Lined (types_of s) [] answer
        → Expanded t answer
    unfolding get
    through-Expanded t s answer found lines = record {
      amounts = lines.amounts;
      returned = lines.returned;
      sound = λ k m. elim (lines.sound k m) [
        | inl nothing ↦ absurd (cc)
        | inr (i, i_in, l) ↦
            let (above, known) = expansion-some floor_tier schematics tiers t s found in
            through s i above known i_in l
      ];
      complete = λ k l.
          let (i, i_in, below) = Leads-through floor_tier schematics tiers s found l in
          lines.complete k i i_in below;
    }

    -- If every schematic makes something and takes its inputs from lower tiers than its output's, then
    -- for any fuel above the tier of the type, with any float operations: the expansion returns, and
    -- the types that it lists are exactly the leaves to which the schematics above the floor lead down
    -- from the type: types that no schematic makes, or of the floor's tier or a lower one. No input is forgotten, and none that could still be expanded is listed.
    pub expand_to_tier-Expanded :
        (fuel t : ℕ) (quantity : F)
        → IsTiered schematics tiers
        → IsProductive schematics
        → tier tiers t < fuel
        → Expanded t (expand_to_tier fl floor_tier schematics tiers fuel t quantity)
    unfolding expand_to_tier
    expand_to_tier-Expanded zero t quantity tiered productive h = absurd (omega arith)
    expand_to_tier-Expanded (suc fuel) t quantity tiered productive h =
        elim (Option-cases (expansion floor_tier schematics tiers t)) [
          | inl nothing ↦ rw (nothing, expand_to_tier) (leaf-Expanded t quantity nothing)
          | inr (s, found) ↦
              let (above, known) = expansion-some floor_tier schematics tiers t s found in
              let some_made : (s.output.quantity == 0) ≡ false =
                ground (arith, productive t s known, nat_beq_iff s.output.quantity 0) in
              rw (found, some_made, expand_to_tier)
                (through-Expanded t s _ found (
                  expand_lines-Lined (expand_to_tier fl floor_tier schematics tiers fuel)
                    (fl.by (fl.over quantity s.output.quantity)) s.inputs []
                    (λ i q i_in.
                      expand_to_tier-Expanded fuel i q tiered productive
                        (omega (arith, h, above, tiered t i s known (omega (arith, above)) i_in)))))
        ]
