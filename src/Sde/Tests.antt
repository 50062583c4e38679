-- ===== src/Sde/Tests.antt =====
-- A collection behind a cache that holds one of its documents, and the theorems applied to it.
use aobp.Prelude.{
  ℕ, ◌≡◌, refl, String, true, Option, none, some, List, [], ◌∷◌, if◌then◌else◌, member, nat_eq,
  string_eq, ◌==◌, keep, subst,
}
use aobp.Text.{cache_key, str}
use aobp.Text.Keys.{cache_key-injective}
use aobp.Dict.{get, put, get-put_all}
use aobp.Dict.Select.{select}
use aobp.Cache.{Cache, get_many_cached, set_many_cached, stored}
use aobp.Cache.Transparent.{Stores}
use aobp.Sde.{found_by_id, missing, keyed, cached_docs_by_id}
use aobp.Sde.ReadThrough.{Agrees, cached_docs_by_id-eq-collection}

abbrev names : ℕ → Option String
names id = if id == 34 then some "Tritanium" else if id == 35 then some "Pyerite" else none

abbrev asked : List ℕ
asked = 34 ∷ 35 ∷ 36 ∷ []

abbrev pyerite : ℕ
pyerite = 35

abbrev warm : Cache String
warm = record {
  enabled = true;
  entries = (cache_key "sde_type" 34, ("Tritanium", 60)) ∷ [];
  fault = λ _. none;
  calls = 0;
  hits = 0;
  misses = 0;
  errors = 0;
}

warm-Stores : Stores (Agrees names "sde_type") warm
unfolding put get
warm-Stores k e h =
    get-put_all (λ j w. Agrees names "sde_type" j w.0) (cache_key "sde_type" 34) ("Tritanium", 60)
      []
      (λ id key.
        subst (λ i. names i ≡ some "Tritanium") (cache_key-injective "sde_type" 34 id key) refl)
      (λ j w absent. cc) k e h

cached_docs_by_id-eq-collection_example :
    get pyerite (cached_docs_by_id names 60 "sde_type" asked warm).0
    ≡ (if member pyerite asked then names pyerite else none)
cached_docs_by_id-eq-collection_example =
    cached_docs_by_id-eq-collection names "sde_type" 60 asked warm warm-Stores pyerite

read_runs : (cached_docs_by_id names 60 "sde_type" asked warm).1.misses ≡ 2
unfolding cached_docs_by_id found_by_id missing keyed get_many_cached set_many_cached get put select
    cache_key stored keep str
read_runs = refl
