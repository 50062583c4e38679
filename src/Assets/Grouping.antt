-- ===== src/Assets/Grouping.antt =====
-- What the loops over the assets collect: a place of every asset, and the quantities of the types.
use aobp.Prelude.{
  ℕ, ◌+◌, ◌≡◌, refl, sym, ap, ◌∙◌, Bool, true, ◌&&◌, ◌||◌, List, [], ◌∷◌, arith, nat_eq,
  nat_beq_iff, if◌then◌else◌, ◌==◌, All, All-map, inl, inr, Bool-cases, Option-cases, string_eq,
}
use aobp.Result.{ok}
use aobp.Dict.{Dict, Listed-keys, get, put, has, get-put, member-keys}
use aobp.Dict.Amounts.{add_to, total, total-add_to}
use aobp.Assets.{Asset}
use aobp.Assets.Categories.{Groups, add_asset, group_assets, resolve_each}
use aobp.Assets.Quantities.{owned, at, place-at}

-- Every asset has a place.
abbrev pub Placed : Dict ℕ ℕ → List Asset → Type 0
Placed resolved = All (λ a. has (Asset.item_id a) resolved ≡ true)

Placed-put :
    (k v : ℕ) (resolved : Dict ℕ ℕ) (assets : List Asset)
    → Placed resolved assets
    → Placed (put k v resolved) assets
Placed-put k v resolved [] h = tt
Placed-put k v resolved (a ∷ assets) h =
    (ground (arith, h.0, get-put k a.item_id v resolved), Placed-put k v resolved assets h.1)

-- What `resolve_each` leaves: every asset is placed, and no key is lost.
pub record Resolves (all_assets todo : List Asset) (resolved : Dict ℕ ℕ) : Type 0 where
  pub result : Dict ℕ ℕ
  pub made : resolve_each all_assets todo resolved ≡ ok result
  pub placed : Placed result todo
  pub kept : (k : ℕ) → has k resolved ≡ true → has k result ≡ true

pub resolve_each-Resolves :
    (all_assets todo : List Asset) (resolved : Dict ℕ ℕ) → Resolves all_assets todo resolved
unfolding resolve_each
resolve_each-Resolves all_assets [] resolved = record {
  result = resolved;
  made = refl;
  placed = tt;
  kept = λ k h. h;
}
resolve_each-Resolves all_assets (a ∷ todo) resolved =
    let here = at all_assets a in
    let rest = resolve_each-Resolves all_assets todo (put a.item_id here resolved) in
    record {
      result = rest.result;
      made = rw (place-at all_assets a) rest.made;
      placed = (
        rest.kept a.item_id (
            ground
              (arith, nat_beq_iff a.item_id a.item_id, get-put a.item_id a.item_id here resolved)),
        rest.placed,
      );
      kept = λ k h. rest.kept k (ground (arith, h, get-put a.item_id k here resolved));
    }

-- The two dictionaries have the same types.
abbrev pub Paired : Groups → Type 0
Paired g = (t : ℕ) → has t g.quantity_by_type ≡ has t g.locations_by_type

has-put {ℓ} :
    {V : Type ℓ} (k t : ℕ) (v : V) (d : Dict ℕ V) → has t (put k v d) ≡ (k == t || has t d)
has-put k t v d = ground (arith, get-put k t v d)

add_asset-Paired : (a : Asset) (l : ℕ) (g : Groups) → Paired g → Paired (add_asset a l g)
unfolding add_asset add_to
add_asset-Paired a l g paired t =
    has-put a.type_id t _ g.quantity_by_type
    ∙ ap (λ b. a.type_id == t || b) (paired t)
    ∙ sym (has-put a.type_id t _ g.locations_by_type)

total-add_asset :
    (a : Asset) (l : ℕ) (g : Groups) (t : ℕ)
    → total t (add_asset a l g).quantity_by_type
      ≡ total t g.quantity_by_type + (if a.type_id == t then a.quantity else 0)
unfolding add_asset
total-add_asset a l g t = total-add_to a.type_id t a.quantity g.quantity_by_type

module _ (resolved : Dict ℕ ℕ) (belongs : ℕ → Bool) where
  pub record Grouped (assets : List Asset) (g : Groups) : Type 0 where
    pub result : Groups
    pub made : group_assets resolved belongs assets g ≡ ok result
    pub paired : Paired result
    pub totals :
        (t : ℕ)
        → total t result.quantity_by_type
          ≡ total t g.quantity_by_type + owned (λ a. belongs a.type_id && a.type_id == t) assets

  pub group_assets-Grouped :
      (assets : List Asset) (g : Groups) → Placed resolved assets → Paired g → Grouped assets g
  unfolding group_assets owned
  group_assets-Grouped [] g placed paired = record {
    result = g;
    made = refl;
    paired = paired;
    totals = λ t. omega arith;
  }
  group_assets-Grouped (a ∷ assets) g placed paired = elim (Bool-cases (belongs a.type_id)) [
    | inr other ↦
        let rest = group_assets-Grouped assets g placed.1 paired in
        record {
          result = rest.result;
          made = rw (group_assets, other) rest.made;
          paired = rest.paired;
          totals = λ t. ground (arith, other, rest.totals t);
        }
    | inl mine ↦ elim (Option-cases (get a.item_id resolved)) [
      | inl absent ↦ absurd (ground (arith, absent, placed.0))
      | inr (l, found) ↦
          let rest =
            group_assets-Grouped assets (add_asset a l g) placed.1
              (add_asset-Paired a l g paired) in
          record {
            result = rest.result;
            made = rw (group_assets, mine, found) rest.made;
            paired = rest.paired;
            totals = λ t. ground (arith, mine, rest.totals t, total-add_asset a l g t);
          }
    ]
  ]

pub no_groups-Paired : Paired (record { quantity_by_type = []; locations_by_type = [] })
unfolding get
no_groups-Paired t = refl

pub listed :
    (g : Groups) → Paired g → All (λ e. has (e.0) g.locations_by_type ≡ true) g.quantity_by_type
listed g paired =
    All-map (λ (e : ℕ × ℕ) m. sym (paired e.0) ∙ sym (member-keys e.0 g.quantity_by_type) ∙ m)
      g.quantity_by_type (Listed-keys g.quantity_by_type)
