-- ===== src/BuildChain/Resolve/Marks.antt =====
-- The rows of the raw materials show the marks of the walk.
use mathlib.Core.Path.{subst}
use aobp.Prelude.{
  ℕ, ◌≡◌, String, Bool, some, List, [], ◌∷◌, nat_eq, string_eq, All, inl, inr, Option-cases,
}
use aobp.Result.{Result, ok, raise, key_error, ◌>>=◌, >>=-eq-ok}
use aobp.Dict.{Dict, get}
use aobp.BuildChain.Resolve.{RawMaterial, raw_materials_of}

module _ {F : Type 0} where
  -- A row of the raw materials has its type's mark.
  pub raw_materials_of-marks :
      (name : ℕ → String) (price : ℕ → F) (marks : Dict ℕ Bool) (totals : Dict ℕ ℕ)
      (rows : List (RawMaterial F))
      → raw_materials_of name price marks totals ≡ ok rows
      → All (λ m. get (RawMaterial.type_id m) marks ≡ some m.is_buildable) rows
  unfolding raw_materials_of
  raw_materials_of-marks name price marks [] rows h =
      subst (All (λ (m : RawMaterial F). get m.type_id marks ≡ some m.is_buildable)) {x = []}
        {y = rows} (cc) tt
  raw_materials_of-marks name price marks ((t, q) ∷ totals) rows h =
      elim (Option-cases (get t marks)) [
        | inl absent ↦ absurd (
            let failed : ◌≡◌ {A = Result (List (RawMaterial F))} (raise key_error) (ok rows) =
              rw (raw_materials_of, absent) at h in
            cc)
        | inr (buildable, present) ↦
            let row : RawMaterial F = record {
              type_id = t;
              name = name t;
              quantity = q;
              unit_price = price t;
              is_buildable = buildable;
            } in
            let rest = raw_materials_of name price marks totals in
            let opened : (rest >>= λ ms. ok (row ∷ ms)) ≡ ok rows =
              rw (raw_materials_of, present) at h in
            let (ms, made, last) = >>=-eq-ok rest (λ ms. ok (row ∷ ms)) opened in
            let same : row ∷ ms ≡ rows = cc in
            subst (All (λ (m : RawMaterial F). get m.type_id marks ≡ some m.is_buildable)) same
              (present, raw_materials_of-marks name price marks totals ms made)
      ]
