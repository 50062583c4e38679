-- ===== src/BuildChain/Resolve/Materials.antt =====
-- The rows of the raw materials: one for each total, whose mark is found, with its name and price; and
-- the step of the target.
use mathlib.Core.List.{Permᴰ}
use mathlib.Core.Path.{subst}
use aobp.Prelude.{
  ℕ, ◌≡◌, refl, ap, String, Bool, true, some, List, [], ◌∷◌, map, arith, nat_eq, All, Option-cases,
  inl, inr,
}
use aobp.Result.{ok}
use aobp.Dict.{Dict, get, has}
use aobp.BuildChain.{BuildStep}
use aobp.BuildChain.Resolve.{RawMaterial, raw_materials_of, named_steps}

pub All-Permᴰ {ℓ κ} :
    {A : Type ℓ} (P : A → Type κ) {xs ys : List A} → Permᴰ xs ys → All P xs → All P ys
All-Permᴰ P Permᴰ.nil h = h
All-Permᴰ P (Permᴰ.cons same p) h = (subst P same h.0, All-Permᴰ P p h.1)
All-Permᴰ P (Permᴰ.swap s t) h = (subst P t h.1.0, (subst P s h.0, h.1.1))
All-Permᴰ P (Permᴰ.trans p q) h = All-Permᴰ P q (All-Permᴰ P p h)

module _ {F : Type 0} (name : ℕ → String) (price : ℕ → F) (raw_buildable : Dict ℕ Bool)
    (Known : ℕ → Type 0) where
  -- What a row says of its type.
  abbrev pub Row : RawMaterial F → Type 0
  Row m =
      Known m.type_id
      × (m.name ≡ name m.type_id)
      × (m.unit_price ≡ price m.type_id)
      × (get m.type_id raw_buildable ≡ some m.is_buildable)

  -- The rows of a list of totals whose marks are all there.
  pub record Rows (totals : Dict ℕ ℕ) : Type 0 where
    pub rows : List (RawMaterial F)
    pub made : raw_materials_of name price raw_buildable totals ≡ ok rows
    pub quantities : map (λ m. (RawMaterial.type_id m, RawMaterial.quantity m)) rows ≡ totals
    pub names : map RawMaterial.name rows ≡ map (λ e. name e.0) totals
    pub described : All Row rows

  pub raw_materials_of-Rows :
      (totals : Dict ℕ ℕ)
      → All (λ e. Known e.0 × (has e.0 raw_buildable ≡ true)) totals
      → Rows totals
  unfolding raw_materials_of
  raw_materials_of-Rows [] h = record {
    rows = [];
    made = refl;
    quantities = refl;
    names = refl;
    described = tt;
  }
  raw_materials_of-Rows ((t, q) ∷ totals) h = elim (Option-cases (get t raw_buildable)) [
    | inl absent ↦ absurd (ground (arith, absent, h.0.1))
    | inr (buildable, marked) ↦
        let rest = raw_materials_of-Rows totals h.1 in
        let row : RawMaterial F = record {
          type_id = t;
          name = name t;
          quantity = q;
          unit_price = price t;
          is_buildable = buildable;
        } in
        record {
          rows = row ∷ rest.rows;
          made = rw (marked, raw_materials_of) (rw (rest.made) refl);
          quantities = ap (λ l. (t, q) ∷ l) rest.quantities;
          names = ap (λ l. name t ∷ l) rest.names;
          described = ((h.0.0, refl, refl, marked), rest.described);
        }
  ]

-- The names do not touch the keys.
pub has-named_steps :
    (name : ℕ → String) (t : ℕ) (steps : Dict ℕ BuildStep)
    → has t (named_steps name steps) ≡ has t steps
unfolding named_steps get
has-named_steps name t [] = refl
has-named_steps name t ((k, step) ∷ steps) = ground (arith, has-named_steps name t steps)
