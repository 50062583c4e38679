-- ===== src/Locations/Tests.antt =====
-- Containers in a hangar, names on a shelf, and the theorems on locations.py applied to them.
use aobp.Prelude.{
  ℕ, ◌≡◌, refl, sym, subst, String, true, Option, none, some, List, [], ◌∷◌, if◌then◌else◌, nat_eq,
  string_eq, ◌==◌, member, arith,
}
use aobp.Result.{ok}
use aobp.Text.{cache_key}
use aobp.Text.Keys.{cache_key-injective}
use aobp.Dict.{Dict, get, put, get-put_all}
use aobp.Locations.{Asset, chain_loop, resolve_container_chain, Shelf, plain, resolve}
use aobp.Locations.Chain.{Ends, resolve_container_chain-Ends}
use aobp.Locations.Lookup.{Agrees, IsResolved, resolve-IsResolved}

-- 3 lies in the box 2, 2 in the ship 1, and 1 in the station 60.
abbrev boxes : Dict ℕ Asset
boxes =
    (3, record { location_id = 2; location_type = "item" })
    ∷ (2, record { location_id = 1; location_type = "item" })
    ∷ (1, record { location_id = 60; location_type = "station" })
    ∷ []

chain_runs : resolve_container_chain boxes 2 ≡ ok 60
unfolding resolve_container_chain chain_loop get member
chain_runs = refl

resolve_container_chain-Ends_example :
    (r : ℕ) × (resolve_container_chain boxes 2 ≡ ok r) × Ends boxes 2 r
resolve_container_chain-Ends_example = resolve_container_chain-Ends boxes 2

-- Every planet has a name but the planet 9.
abbrev names : ℕ → Option String
names id = if id == 9 then none else some "Tanoo"

abbrev shelf : Shelf String String
shelf = record {
  collection = (4, "Tanoo") ∷ [];
  cache = record {
    enabled = true;
    entries = (cache_key "planet_name" 5, ("Tanoo", 60)) ∷ [];
    fault = λ _. none;
    calls = 0;
    hits = 0;
    misses = 0;
    errors = 0;
  };
  asked = [];
}

shelf-Agrees : Agrees (plain "planet_name") names shelf.collection shelf.cache
unfolding get put
shelf-Agrees = (
  (λ id d h v e. ground (arith, h, e)),
  λ k e h.
      get-put_all (λ j w. (id : ℕ) → j ≡ cache_key "planet_name" id → some w.0 ≡ names id)
        (cache_key "planet_name" 5) ("Tanoo", 60) []
        (λ id key.
          subst (λ i. some "Tanoo" ≡ names i) (cache_key-injective "planet_name" 5 id key) refl)
        (λ j w absent. cc) k e h,
)

abbrev asked : List ℕ
asked = 4 ∷ 5 ∷ 9 ∷ []

resolve-IsResolved_example :
    let after = resolve (plain "planet_name") 60 (λ id. ok (names id)) asked shelf in
    (res : Dict ℕ (Option String)) × (after.0 ≡ ok res)
    × IsResolved (plain "planet_name") names asked res
    × Agrees (plain "planet_name") names after.1.collection after.1.cache
resolve-IsResolved_example =
    resolve-IsResolved (plain "planet_name") names 60 (λ id. ok (names id)) (λ r v e. sym e)
      (λ v. refl) (λ id. refl) asked shelf shelf-Agrees
