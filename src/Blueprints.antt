-- ===== src/Blueprints.antt =====
-- The page of an owned blueprint, `blueprint_detail` of app/routes/blueprints.py: what its next run needs,
-- what is there of it, and how many runs the assets allow.
pub mod Buildable
pub mod Listing
mod Tests
use Prim.Native.Nat.{max, min}
use aobp.Prelude.{
  ℕ, ◌+◌, ◌-◌, ◌*◌, ◌/◌, Bool, true, false, Option, none, some, List, [], ◌∷◌, if◌then◌else◌,
  nat_eq, ◌==◌,
}
use aobp.Dict.{Dict, get}
use aobp.Dict.Amounts.{amount, add_to}
use aobp.Cache.{is_empty}
use aobp.BuildChain.{Material}

-- An `esi.AssetEntry`, by the fields that the page reads.
pub record Asset : Type 0 where
  pub type_id : ℕ
  pub quantity : ℕ
  pub location_id : ℕ

-- `_material_quantity_per_run`; `scaled base me` is `math.ceil(base * (1 - me / 100))` on floats.
unfoldable pub material_quantity_per_run : (ℕ → ℕ → ℕ) → ℕ → ℕ → ℕ
material_quantity_per_run scaled base_quantity material_efficiency =
    max 1 (scaled base_quantity material_efficiency)

-- The loop over the assets: what there is at the blueprint's location, and everywhere.
unfoldable pub asset_totals : ℕ → List Asset → Dict ℕ ℕ × Dict ℕ ℕ → Dict ℕ ℕ × Dict ℕ ℕ
asset_totals location_id [] totals = totals
asset_totals location_id (asset ∷ assets) (on_site, everywhere) = asset_totals location_id assets (
  if asset.location_id == location_id then add_to asset.type_id asset.quantity on_site else on_site,
  add_to asset.type_id asset.quantity everywhere,
)

-- A card of a material: what it shows.
pub record MaterialCard : Type 0 where
  pub type_id : ℕ
  pub needed : ℕ
  pub on_site_have : ℕ
  pub on_site_missing : ℕ
  pub global_have : ℕ
  pub global_missing : ℕ

-- `min(runs, n)`, where `none` is `math.inf`.
unfoldable pub min_runs : Option ℕ → ℕ → Option ℕ
min_runs none n = some n
min_runs (some runs) n = some (min runs n)

-- The variables of the loop over the materials.
pub record Readiness : Type 0 where
  pub cards : List MaterialCard
  pub on_site_buildable : Option ℕ
  pub global_buildable : Option ℕ

module _ (scaled : ℕ → ℕ → ℕ) (material_efficiency : ℕ) (on_site everywhere : Dict ℕ ℕ) where
  abbrev pub needed_of : Material → ℕ
  needed_of material = material_quantity_per_run scaled material.quantity material_efficiency

  -- One material; `needed` is at least 1.
  unfoldable pub material_card : Material → MaterialCard
  material_card material =
      let needed_ = needed_of material in
      let on_site_have_ = amount material.type_id on_site in
      let global_have_ = amount material.type_id everywhere in
      record {
        type_id = material.type_id;
        needed = needed_;
        on_site_have = on_site_have_;
        on_site_missing = needed_ - on_site_have_;
        global_have = global_have_;
        global_missing = needed_ - global_have_;
      }

  -- The loop over the materials, the cards from the first on.
  unfoldable pub materials_loop : List Material → Option ℕ → Option ℕ → Readiness
  materials_loop [] on_site_runs global_runs = record {
    cards = [];
    on_site_buildable = on_site_runs;
    global_buildable = global_runs;
  }
  materials_loop (material ∷ materials) on_site_runs global_runs =
      let card = material_card material in
      let rest =
        materials_loop materials (min_runs on_site_runs (card.on_site_have / card.needed))
          (min_runs global_runs (card.global_have / card.needed)) in
      record rest { cards = card ∷ rest.cards }

-- `int(buildable)`, which is a number once there is a material.
unfoldable pub as_int : Option ℕ → ℕ
as_int none = 0
as_int (some runs) = runs

pub record BlueprintPage : Type 0 where
  pub cards : List MaterialCard
  pub on_site_buildable : ℕ
  pub global_buildable : ℕ

-- The part of the handler behind its guards. Without materials nothing is buildable.
unfoldable pub blueprint_page : (ℕ → ℕ → ℕ) → ℕ → ℕ → List Material → List Asset → BlueprintPage
unfolding as_int
blueprint_page scaled material_efficiency location_id materials assets =
    let (on_site, everywhere) = asset_totals location_id assets ([], []) in
    let readiness =
      materials_loop scaled material_efficiency on_site everywhere materials none none in
    record {
      cards = readiness.cards;
      on_site_buildable = if is_empty materials then 0 else as_int readiness.on_site_buildable;
      global_buildable = if is_empty materials then 0 else as_int readiness.global_buildable;
    }
