-- ===== src/Locations.antt =====
-- app/services/locations.py: where an asset is, and names and security statuses looked up through the
-- cache, the database and ESI.
pub mod Chain
pub mod Lookup
mod Tests
use aobp.Prelude.{
  ℕ, zero, suc, String, Bool, true, false, Option, none, some, List, [], ◌∷◌, ◌++◌, map,
  if◌then◌else◌, nat_eq, string_eq, ◌==◌, member, length, get_or,
}
use aobp.Result.{Result, ok, raise, out_of_fuel}
use aobp.Text.{cache_key}
use aobp.Dict.{Dict, get, put, update}
use aobp.Dict.Select.{select}
use aobp.Cache.{Cache, is_empty, get_many_cached, set_many_cached}
use aobp.Sde.{missing}

-- What the walk reads of an `esi.AssetEntry`.
pub record Asset : Type 0 where
  pub location_id : ℕ
  pub location_type : String

module _ (assets_by_item_id : Dict ℕ Asset) where
  -- The loop of `resolve_container_chain`.
  unfoldable pub chain_loop : ℕ → ℕ → List ℕ → Result ℕ
  chain_loop zero current visited = raise out_of_fuel
  chain_loop (suc fuel) current visited = elim (get current assets_by_item_id) [
    | none ↦ ok current
    | some asset ↦ elim (member current visited) [
      | true ↦ ok current
      | false ↦ elim (asset.location_type == "item") [
        | false ↦ ok asset.location_id
        | true ↦ chain_loop fuel asset.location_id (current ∷ visited)
      ]
    ]
  ]

  -- Each round visits an asset that was not visited, so the assets and one more round are enough.
  unfoldable pub resolve_container_chain : ℕ → Result ℕ
  resolve_container_chain location_id = chain_loop (suc (length assets_by_item_id)) location_id []

-- What a lookup keeps: MongoDB's collection, the cache, and the ids that ESI was asked for. `D` is a
-- document of the collection and `V` a cached value.
pub record Shelf {ℓ κ} (V : Type ℓ) (D : Type κ) : Type (ℓ ⊔ κ) where
  pub collection : Dict ℕ D
  pub cache : Cache V
  pub asked : List ℕ

-- How the values of a lookup are kept; `R` is what it resolves an id to.
pub record Format {ℓ κ μ} (V : Type ℓ) (D : Type κ) (R : Type μ) : Type (ℓ ⊔ κ ⊔ μ) where
  -- the prefix of the cache's keys
  pub prefix : String
  -- a cached value as a result, and a result that is to be kept as a cached value
  pub of_cached : V → R
  pub to_cached : R → Option V
  -- a document that the query finds, as a cached value, and the document that the update writes
  pub readable : D → Option V
  pub document : V → D

abbrev pub and_then {ℓ κ} : {A : Type ℓ} {B : Type κ} → Option A → (A → Option B) → Option B
and_then none f = none
and_then (some a) f = f a

abbrev pub on_some {ℓ κ} : {A : Type ℓ} {B : Type κ} → (A → B) → Option A → Option B
on_some f none = none
on_some f (some a) = some (f a)

module _ {ℓ κ μ} {V : Type ℓ} {D : Type κ} {R : Type μ} (format : Format V D R) (ttl : ℕ)
    (fetch : ℕ → Result R) where
  -- The result that is kept is written to the collection and to the cache.
  unfoldable pub keep_resolved : ℕ → R → Shelf V D → Shelf V D
  keep_resolved id r s = elim (format.to_cached r) [
    | none ↦ s
    | some v ↦ record s {
      collection = put id (format.document v) s.collection;
      cache = set_many_cached s.cache ((cache_key format.prefix id, v) ∷ []) ttl;
    }
  ]

  -- The loop that asks ESI for the ids that are left.
  unfoldable pub ask_rest : List ℕ → Dict ℕ R → Shelf V D → Result (Dict ℕ R) × Shelf V D
  ask_rest [] resolved s = (ok resolved, s)
  ask_rest (id ∷ ids) resolved s =
      let asked = record s { asked = s.asked ++ id ∷ [] } in
      elim (fetch id) [
        | raise e ↦ (raise e, asked)
        | ok r ↦ ask_rest ids (put id r resolved) (keep_resolved id r asked)
      ]

  -- The collection's documents of the ids that the cache did not answer.
  unfoldable pub read_collection : List ℕ → Dict ℕ R → Shelf V D → Dict ℕ R × Shelf V D
  read_collection remaining resolved s =
      let find : ℕ → Option V = λ id. and_then (get id s.collection) format.readable in
      let newly_resolved = select find remaining in
      if is_empty remaining then (resolved, s) else (
        update resolved (select (λ id. on_some format.of_cached (find id)) remaining),
        record s {
          cache =
              set_many_cached s.cache (map (λ e. (cache_key format.prefix e.0, e.1)) newly_resolved)
                ttl;
        },
      )

  -- The four lookups, which differ in the format and in what is asked of ESI.
  unfoldable pub resolve : List ℕ → Shelf V D → Result (Dict ℕ R) × Shelf V D
  resolve ids s =
      let (cached, cache₁) = get_many_cached s.cache (map (cache_key format.prefix) ids) in
      let resolved =
        select (λ id. on_some format.of_cached (get (cache_key format.prefix id) cached)) ids in
      let (resolved', s') =
        read_collection (missing ids resolved) resolved (record s { cache = cache₁ }) in
      ask_rest (missing ids resolved') resolved' s'

-- A name or a status by id: only what ESI answered is kept.
abbrev pub plain {ℓ} : {V : Type ℓ} → String → Format V V (Option V)
plain prefix = record {
  prefix = prefix;
  of_cached = λ v. some v;
  to_cached = λ r. r;
  readable = λ d. some d;
  document = λ v. v;
}

-- A location: its name and its system. Only locations with a name are kept.
abbrev pub location_format :
    Format (String × Option ℕ) (Option String × Option ℕ) (Option String × Option ℕ)
location_format = record {
  prefix = "location_details";
  of_cached = λ v. (some v.0, v.1);
  to_cached = λ r. on_some (λ name. (name, r.1)) r.0;
  readable = λ d. on_some (λ name. (name, d.1)) d.0;
  document = λ v. (some v.0, v.1);
}

abbrev pub resolve_planet_names :
    ℕ
    → (ℕ → Result (Option String))
    → List ℕ
    → Shelf String String
    → Result (Dict ℕ (Option String)) × Shelf String String
resolve_planet_names = resolve (plain "planet_name")

abbrev pub resolve_system_names :
    ℕ
    → (ℕ → Result (Option String))
    → List ℕ
    → Shelf String String
    → Result (Dict ℕ (Option String)) × Shelf String String
resolve_system_names = resolve (plain "system_name")

-- A security status is kept as it is, whatever its type.
abbrev pub resolve_system_security_statuses {ℓ} :
    {F : Type ℓ}
    → ℕ
    → (ℕ → Result (Option F))
    → List ℕ
    → Shelf F F
    → Result (Dict ℕ (Option F)) × Shelf F F
resolve_system_security_statuses = resolve (plain "system_security")

abbrev pub resolve_location_system_ids :
    ℕ
    → (ℕ → Result (Option String × Option ℕ))
    → List ℕ
    → Shelf (String × Option ℕ) (Option String × Option ℕ)
    → Result (Dict ℕ (Option String × Option ℕ))
      × Shelf (String × Option ℕ) (Option String × Option ℕ)
resolve_location_system_ids = resolve location_format

pub record LocationInfo {ℓ} (F : Type ℓ) : Type ℓ where
  pub name : Option String
  pub security_status : Option F

-- The set of the systems that are known.
unfoldable pub known_systems : Dict ℕ (Option String × Option ℕ) → List ℕ
known_systems [] = []
known_systems ((_, (_, system)) ∷ found) =
    let rest = known_systems found in
    elim system [ none ↦ rest | some id ↦ if member id rest then rest else id ∷ rest ]

module _ {ℓ} {F : Type ℓ} where
  abbrev pub location_info : Dict ℕ (Option F) → Option String × Option ℕ → LocationInfo F
  location_info security_by_system found = record {
    name = found.0;
    security_status =
        and_then found.1 (λ id. and_then (get id security_by_system) (λ status. status));
  }

  -- `details` and `statuses` are what ESI answers to the two lookups.
  unfoldable pub resolve_location_info :
      ℕ
      → (ℕ → Result (Option String × Option ℕ))
      → (ℕ → Result (Option F))
      → List ℕ
      → Shelf (String × Option ℕ) (Option String × Option ℕ)
      → Shelf F F
      → Result (Dict ℕ (LocationInfo F))
        × (Shelf (String × Option ℕ) (Option String × Option ℕ) × Shelf F F)
  unfolding known_systems
  resolve_location_info ttl details statuses location_ids names security =
      let (answer, names') = resolve_location_system_ids ttl details location_ids names in
      elim answer [
        | raise e ↦ (raise e, (names', security))
        | ok found ↦
            let (answer', security') =
              resolve_system_security_statuses ttl statuses (known_systems found) security in
            elim answer' [
              | raise e ↦ (raise e, (names', security'))
              | ok security_by_system ↦ (
                ok (map (λ e. (e.0, location_info security_by_system e.1)) found),
                (names', security'),
              )
            ]
      ]
