-- ===== src/Blueprints/Buildable.antt =====
-- How many runs the assets allow: the greatest number for which there is enough of every material.
use aobp.Prelude.{
  ℕ, ◌+◌, ◌*◌, ◌/◌, ◌≤◌, ◌≡◌, ◌↔◌, refl, subst, true, Option, none, some, List, [], ◌∷◌, arith,
  if◌then◌else◌, nat_eq, ◌==◌, All, is_some,
}
use aobp.Dict.{Dict, get}
use aobp.Dict.Amounts.{amount, add_to, amount-add_to}
use aobp.Cache.{is_empty}
use aobp.BuildChain.{Material}
use aobp.Blueprints.{
  Asset, asset_totals, material_quantity_per_run, min_runs, material_card, materials_loop, as_int,
  blueprint_page,
}

-- What the assets hold of a type, everywhere and at a location.
unfoldable pub owned : ℕ → List Asset → ℕ
owned t [] = 0
owned t (a ∷ assets) = (if a.type_id == t then a.quantity else 0) + owned t assets

unfoldable pub owned_at : ℕ → ℕ → List Asset → ℕ
owned_at location_id t [] = 0
owned_at location_id t (a ∷ assets) =
    (if a.location_id == location_id then (if a.type_id == t then a.quantity else 0) else 0)
    + owned_at location_id t assets

amount-asset_totals :
    (location_id t : ℕ) (assets : List Asset) (on_site everywhere : Dict ℕ ℕ)
    → let totals = asset_totals location_id assets (on_site, everywhere) in
      (amount t totals.0 ≡ amount t on_site + owned_at location_id t assets)
      × (amount t totals.1 ≡ amount t everywhere + owned t assets)
unfolding asset_totals owned owned_at
amount-asset_totals location_id t [] on_site everywhere = (omega arith, omega arith)
amount-asset_totals location_id t (a ∷ assets) on_site everywhere =
    let on_site' =
      if a.location_id == location_id then add_to a.type_id a.quantity on_site else on_site in
    let (here, all) =
      amount-asset_totals location_id t assets on_site' (add_to a.type_id a.quantity everywhere) in
    (
      ground (arith, here, amount-add_to a.type_id t a.quantity on_site),
      ground (arith, all, amount-add_to a.type_id t a.quantity everywhere),
    )

amount-asset_totals_new :
    (location_id t : ℕ) (assets : List Asset)
    → let totals = asset_totals location_id assets ([], []) in
      (amount t totals.0 ≡ owned_at location_id t assets) × (amount t totals.1 ≡ owned t assets)
unfolding get
amount-asset_totals_new location_id t assets =
    let (here, all) = amount-asset_totals location_id t assets [] [] in
    (omega (arith, here), omega (arith, all))

-- `n` runs are at most as many, where `none` is without a bound.
abbrev AtMost : ℕ → Option ℕ → Type 0
AtMost n none = Unit
AtMost n (some runs) = n ≤ runs

le-div : (n a b : ℕ) → 1 ≤ b → (n ≤ a / b) ↔ (n * b ≤ a)
le-div n a b h = (λ k. grind arith, λ k. grind arith)

AtMost-min_runs :
    (n k : ℕ) (runs : Option ℕ) → AtMost n (min_runs runs k) ↔ (AtMost n runs × (n ≤ k))
unfolding min_runs
AtMost-min_runs n k none = ((λ h. (tt, h)), (λ h. h.1))
AtMost-min_runs n k (some runs) =
    ((λ h. (omega arith, omega arith)), (λ h. omega (arith, h.0, h.1)))

module _ (scaled : ℕ → ℕ → ℕ) (me : ℕ) where
  -- There is enough of the material for `n` runs.
  abbrev pub IsEnough : (ℕ → ℕ) → ℕ → Material → Type 0
  IsEnough have n m = n * material_quantity_per_run scaled m.quantity me ≤ have m.type_id

  needed-positive : (q : ℕ) → 1 ≤ material_quantity_per_run scaled q me
  unfolding material_quantity_per_run
  needed-positive q = omega arith

  module _ (on_site everywhere : Dict ℕ ℕ) (n : ℕ) where
    AtMost-materials_loop :
        (materials : List Material) (on_site_runs global_runs : Option ℕ)
        → let r = materials_loop scaled me on_site everywhere materials on_site_runs global_runs in
          (AtMost n r.on_site_buildable
            ↔ (AtMost n on_site_runs × All (IsEnough (λ t. amount t on_site) n) materials))
          × (AtMost n r.global_buildable
              ↔ (AtMost n global_runs × All (IsEnough (λ t. amount t everywhere) n) materials))
    unfolding materials_loop material_card
    AtMost-materials_loop [] on_site_runs global_runs =
        (((λ h. (h, tt)), (λ h. h.0)), ((λ h. (h, tt)), (λ h. h.0)))
    AtMost-materials_loop (m ∷ materials) on_site_runs global_runs =
        let needed = material_quantity_per_run scaled m.quantity me in
        let here = amount m.type_id on_site in
        let all = amount m.type_id everywhere in
        let (rest, rest') =
          AtMost-materials_loop materials (min_runs on_site_runs (here / needed))
            (min_runs global_runs (all / needed)) in
        (
          step rest (AtMost-min_runs n (here / needed) on_site_runs)
              (le-div n here needed (needed-positive m.quantity)),
          step rest' (AtMost-min_runs n (all / needed) global_runs)
              (le-div n all needed (needed-positive m.quantity)),
        )
      where
        step :
            {A B C D E F : Type 0} → (A ↔ (B × C)) → (B ↔ (D × E)) → (E ↔ F) → (A ↔ (D × (F × C)))
        step rest first enough = (
          (λ a. let (b, c) = rest.0 a in let (d, e) = first.0 b in (d, (enough.0 e, c))),
          (λ h. rest.1 (first.1 (h.0, enough.1 h.1.0), h.1.1)),
        )

le-as_int : (n : ℕ) (runs : Option ℕ) → is_some runs ≡ true → (n ≤ as_int runs) ↔ AtMost n runs
unfolding as_int
le-as_int n none h = absurd (cc)
le-as_int n (some runs) h = ((λ k. k), (λ k. k))

is_some-materials_loop :
    (scaled : ℕ → ℕ → ℕ) (me : ℕ) (on_site everywhere : Dict ℕ ℕ) (materials : List Material)
    (a b : Option ℕ)
    → is_some a ≡ true
    → is_some b ≡ true
    → let r = materials_loop scaled me on_site everywhere materials a b in
      (is_some r.on_site_buildable ≡ true) × (is_some r.global_buildable ≡ true)
unfolding materials_loop material_card min_runs
is_some-materials_loop scaled me on_site everywhere [] a b p q = (p, q)
is_some-materials_loop scaled me on_site everywhere (m ∷ materials) a b p q =
    is_some-materials_loop scaled me on_site everywhere materials _ _ (is_some-min_runs a _)
      (is_some-min_runs b _)
  where
    is_some-min_runs : (runs : Option ℕ) (k : ℕ) → is_some (min_runs runs k) ≡ true
    is_some-min_runs none k = refl
    is_some-min_runs (some runs) k = refl

counted_as :
    (scaled : ℕ → ℕ → ℕ) (me n : ℕ) (materials : List Material) {A B : Type 0} {have have' : ℕ → ℕ}
    → (A ↔ B)
    → (B ↔ (Unit {0} × All (IsEnough scaled me have n) materials))
    → ((t : ℕ) → have t ≡ have' t)
    → (A ↔ All (IsEnough scaled me have' n) materials)
counted_as scaled me n materials {A = A} first second same =
    subst (λ h. A ↔ All (IsEnough scaled me h n) materials) (λ i t. same t i)
      ((λ a. (second.0 (first.0 a)).1), (λ enough. first.1 (second.1 (tt, enough))))

-- For a blueprint with at least one material: the number of runs that the page calls buildable is the
-- greatest number for which the assets hold enough of every material, at the blueprint's own location
-- and in all places; `owned` and `owned_at` are the sums over the assets.
pub blueprint_page-buildable :
    (scaled : ℕ → ℕ → ℕ) (me location_id : ℕ) (material : Material) (materials : List Material)
    (assets : List Asset) (n : ℕ)
    → let page = blueprint_page scaled me location_id (material ∷ materials) assets in
      let all = material ∷ materials in
      ((n ≤ page.on_site_buildable)
        ↔ All (IsEnough scaled me (λ t. owned_at location_id t assets) n) all)
      × ((n ≤ page.global_buildable) ↔ All (IsEnough scaled me (λ t. owned t assets) n) all)
unfolding blueprint_page is_empty materials_loop material_card get
blueprint_page-buildable scaled me location_id material materials assets n =
    let totals = asset_totals location_id assets ([], []) in
    let needed = material_quantity_per_run scaled material.quantity me in
    let (some_here, some_all) =
      is_some-materials_loop scaled me totals.0 totals.1 materials
        (min_runs none (amount material.type_id totals.0 / needed))
        (min_runs none (amount material.type_id totals.1 / needed)) (unfold min_runs in refl)
        (unfold min_runs in refl) in
    let (here, all) =
      AtMost-materials_loop scaled me totals.0 totals.1 n (material ∷ materials) none none in
    (
      counted_as scaled me n (material ∷ materials) (le-as_int n _ some_here) here
          (λ t. (amount-asset_totals_new location_id t assets).0),
      counted_as scaled me n (material ∷ materials) (le-as_int n _ some_all) all
          (λ t. (amount-asset_totals_new location_id t assets).1),
    )
