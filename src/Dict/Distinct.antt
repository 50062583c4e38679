-- ===== src/Dict/Distinct.antt =====
-- Dictionaries whose keys are all different, as a collection's documents by `_id` are: the order of
-- the entries, or in which they are written, makes no difference to what is found.
use mathlib.Core.Path.{subst, subst₂}
use mathlib.Core.List.{Permᴰ}
use aobp.Prelude.{
  ◌≡◌, refl, ◌∙◌, Bool, true, ◌&&◌, not, none, [], ◌∷◌, arith, Eq, ◌==◌, if◌then◌else◌, keep, inl,
  inr, Bool-cases, ap,
}
use aobp.Dict.{Dict, get, put, has, update, get-put}

module _ {ℓ κ} {K : Type ℓ} {V : Type κ} ⦃e : Eq K⦄ where
  unfoldable pub distinct : Dict K V → Bool
  distinct [] = true
  distinct ((k, v) ∷ d) = not (has k d) && distinct d

  pub get-update :
      (k : K) (items d : Dict K V)
      → distinct items ≡ true
      → get k (update d items) ≡ (if has k items then get k items else get k d)
  unfolding distinct update get
  get-update k [] d h = refl
  get-update k ((j, v) ∷ items) d h =
      ground (arith, get-update k items (put j v d), get-put j k v d, e.beq_iff j k)

  -- The same lookups, and different keys.
  abbrev IsSame : Dict K V → Dict K V → Type (ℓ ⊔ κ)
  IsSame d d' = ((k : K) → get k d ≡ get k d') × (distinct d' ≡ true)

  -- A rearrangement of entries with different keys.
  pub get-Permᴰ : {d d' : Dict K V} → Permᴰ d d' → distinct d ≡ true → IsSame d d'
  unfolding distinct get
  get-Permᴰ Permᴰ.nil h = ((λ k. refl), h)
  get-Permᴰ (Permᴰ.cons {a = x} {b = y} {l₁ = d} {l₂ = d'} same p) h =
      let (rest, h') = get-Permᴰ p (ground arith) in
      subst (λ z. IsSame (x ∷ d) (z ∷ d')) same
        ((λ k. ground (arith, rest k)), ground (arith, rest x.0, h'))
  get-Permᴰ (Permᴰ.swap {a = x} {b = y} {l = d} s t) h =
      subst₂ (λ z w. IsSame (x ∷ y ∷ d) (z ∷ w ∷ d)) t s
        (
          (λ k. ground (arith, e.beq_iff x.0 k, e.beq_iff y.0 k, e.beq_iff y.0 x.0)),
          ground (arith, e.beq_iff x.0 y.0, e.beq_iff y.0 x.0),
        )
  get-Permᴰ (Permᴰ.trans p q) h =
      let (first, h') = get-Permᴰ p h in
      let (second, h'') = get-Permᴰ q h' in ((λ k. first k ∙ second k), h'')

  pub distinct-put :
      (k : K) (v : V) (d : Dict K V) → distinct d ≡ true → distinct (put k v d) ≡ true
  unfolding distinct put get
  distinct-put k v [] h = refl
  distinct-put k v ((j, w) ∷ d) h =
      ground (arith, distinct-put k v d, get-put k j v d, e.beq_iff j k, e.beq_iff k j)

  -- `[x for x in d if test(key)]`
  pub get-keep :
      (test : K → Bool) (k : K) (d : Dict K V)
      → get k (keep (λ x. test x.0) d) ≡ (if test k then get k d else none)
  unfolding keep get
  get-keep test k [] = ground arith
  get-keep test k ((j, v) ∷ d) = elim (Bool-cases (j == k)) [
    | inl same ↦
        let e₁ = (e.beq_iff j k).0 same in ground (arith, get-keep test k d, same, ap test e₁)
    | inr other ↦ ground (arith, get-keep test k d, other)
  ]

  pub distinct-keep :
      (test : K → Bool) (d : Dict K V)
      → distinct d ≡ true
      → distinct (keep (λ x. test x.0) d) ≡ true
  unfolding distinct keep
  distinct-keep test [] h = refl
  distinct-keep test ((j, v) ∷ d) h = ground (arith, distinct-keep test d, get-keep test j d)

  -- `{key: value for ... in d}`
  pub get-update-nil : (k : K) (d : Dict K V) → distinct d ≡ true → get k (update [] d) ≡ get k d
  unfolding get
  get-update-nil k d h = ground (arith, get-update k d [] h)
