-- ===== src/Dict.antt =====
-- Python's `dict`: an association list in insertion order, where a write to a present key stays in
-- its place. The model's basic container, for every `dict[...]` of the application.
pub mod Amounts
pub mod Distinct
pub mod Select
pub mod Unvisited
use mathlib.Core.Path.{subst₂}
use mathlib.Core.Option.{some-injective}
use aobp.Prelude.{
  ℕ, ◌≡◌, refl, sym, Bool, true, false, ◌||◌, Option, none, some, List, [], ◌∷◌, ◌++◌, map, arith,
  Eq, ◌==◌, if◌then◌else◌, is_some, member, inl, inr, Bool-cases, All,
}

abbrev pub Dict {ℓ κ} : Type ℓ → Type κ → Type (ℓ ⊔ κ)
Dict K V = List (K × V)

module _ {ℓ κ} {K : Type ℓ} {V : Type κ} where
  unfoldable pub keys : Dict K V → List K
  keys = map (λ e. e.0)

  unfoldable pub values : Dict K V → List V
  values = map (λ e. e.1)

module _ {ℓ} {K : Type ℓ} ⦃e : Eq K⦄ where
  pub beq_refl : (k : K) → (k == k) ≡ true
  beq_refl k = (e.beq_iff k k).1 refl

module _ {ℓ κ} {K : Type ℓ} {V : Type κ} ⦃e : Eq K⦄ where
  -- `d.get(k)`
  unfoldable pub get : K → Dict K V → Option V
  get k [] = none
  get k ((j, v) ∷ d) = if j == k then some v else get k d

  -- `d[k] = v`
  unfoldable pub put : K → V → Dict K V → Dict K V
  put k v [] = (k, v) ∷ []
  put k v ((j, w) ∷ d) = if j == k then (j, v) ∷ d else (j, w) ∷ put k v d

  -- `d.pop(k, None)`
  unfoldable pub remove : K → Dict K V → Dict K V
  remove k [] = []
  remove k ((j, v) ∷ d) = let rest = remove k d in if j == k then rest else (j, v) ∷ rest

  -- `k in d`
  abbrev pub has : K → Dict K V → Bool
  has k d = is_some (get k d)

  -- `d.setdefault(k, v)`
  unfoldable pub set_default : K → V → Dict K V → Dict K V
  set_default k v d = if has k d then d else put k v d

  -- `d.update(items)`
  unfoldable pub update : Dict K V → Dict K V → Dict K V
  update d [] = d
  update d ((k, v) ∷ items) = update (put k v d) items

  pub get-put :
      (k j : K) (v : V) (d : Dict K V) → get j (put k v d) ≡ (if k == j then some v else get j d)
  unfolding get put
  get-put k j v [] = refl
  get-put k j v ((i, w) ∷ d) =
      ground (arith, e.beq_iff k j, e.beq_iff i k, e.beq_iff i j, get-put k j v d)

  pub get-remove :
      (k j : K) (d : Dict K V) → get j (remove k d) ≡ (if k == j then none else get j d)
  unfolding get remove
  get-remove k j [] = ground arith
  get-remove k j ((i, w) ∷ d) =
      ground (arith, e.beq_iff k j, e.beq_iff i k, e.beq_iff i j, get-remove k j d)

  pub get-set_default :
      (k j : K) (v : V) (d : Dict K V)
      → get j (set_default k v d) ≡ (if has j d then get j d else if k == j then some v else none)
  unfolding set_default
  get-set_default k j v d = ground (arith, get-put k j v d, e.beq_iff k j)

  pub member-keys : (k : K) (d : Dict K V) → member k (keys d) ≡ has k d
  unfolding member keys get
  member-keys k [] = refl
  member-keys k ((j, v) ∷ d) = ground (arith, member-keys k d)

  -- What holds of every entry holds after a write of an entry for which it holds.
  pub get-put_all {μ} :
      (P : K → V → Type μ) (k : K) (v : V) (d : Dict K V)
      → P k v
      → ((j : K) (w : V) → get j d ≡ some w → P j w)
      → (j : K) (w : V) → get j (put k v d) ≡ some w
      → P j w
  get-put_all P k v d here rest j w h = elim (Bool-cases (k == j)) [
    | inl same ↦
        let e₁ : some v ≡ some w = rw (get-put, same) at h in
        subst₂ P ((e.beq_iff k j).0 same) (some-injective v w e₁) here
    | inr other ↦ rest j w (rw (get-put, other) at h)
  ]

  -- The keys of the items are all among `ks`.
  abbrev pub Listed : List K → Dict K V → Type 0
  Listed ks = All (λ item. member (item.0) ks ≡ true)

  Listed-cons : (k : K) (ks : List K) (items : Dict K V) → Listed ks items → Listed (k ∷ ks) items
  unfolding member
  Listed-cons k ks [] h = tt
  Listed-cons k ks ((j, q) ∷ items) h = (ground arith, Listed-cons k ks items h.1)

  pub Listed-keys : (items : Dict K V) → Listed (keys items) items
  unfolding keys member
  Listed-keys [] = tt
  Listed-keys ((k, q) ∷ items) =
      (ground (arith, beq_refl k), Listed-cons k (keys items) items (Listed-keys items))
