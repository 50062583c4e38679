-- ===== src/Dict/Select.antt =====
-- Reading several keys at once: what a `find` by ids returns, and `dict.update` with it.
use aobp.Prelude.{
  ◌≡◌, refl, ◌&&◌, Option, none, some, List, [], ◌∷◌, arith, Eq, if◌then◌else◌, is_some, member,
  inl, inr, Option-cases,
}
use aobp.Dict.{Dict, get, put, update, get-put}

module _ {ℓ κ} {K : Type ℓ} {V : Type κ} ⦃e : Eq K⦄ where
  -- The entries of `keys` that `find` has, in the order of the keys.
  unfoldable pub select : (K → Option V) → List K → Dict K V
  select find [] = []
  select find (k ∷ ks) = elim (find k) [ none ↦ select find ks | some v ↦ (k, v) ∷ select find ks ]

  pub get-select :
      (find : K → Option V) (k : K) (ks : List K)
      → get k (select find ks) ≡ (if member k ks then find k else none)
  unfolding select get member
  get-select find k [] = refl
  get-select find k (j ∷ ks) = ground (arith, e.beq_iff j k, get-select find k ks)

  pub get-update-select :
      (find : K → Option V) (k : K) (ks : List K) (d : Dict K V)
      → get k (update d (select find ks))
        ≡ (if member k ks && is_some (find k) then find k else get k d)
  unfolding select update member
  get-update-select find k [] d = refl
  get-update-select find k (j ∷ ks) d = elim (Option-cases (find j)) [
    | inl absent ↦ ground (arith, e.beq_iff j k, get-update-select find k ks d)
    | inr (v, present) ↦
        ground (arith, e.beq_iff j k, get-put j k v d, get-update-select find k ks (put j v d))
  ]
