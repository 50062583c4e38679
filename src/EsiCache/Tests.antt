-- ===== src/EsiCache/Tests.antt =====
-- A store with rows of a character and of a corporation, and the theorems on esi_cache.py applied to it.
use aobp.Prelude.{ℕ, ◌≡◌, refl, String, true, none, some, List, [], ◌∷◌, nat_eq, string_eq}
use aobp.Result.{ok}
use aobp.Cache.{Cache}
use aobp.EsiCache.{character_id, Store, EntryType, tag, cached_list}
use aobp.EsiCache.Fresh.{IsUp, cached_list-twice}

-- Entries of one number.
abbrev number : EntryType ℕ ℕ
number = record { entry_type = λ n. some n; asdict = λ n. n }

abbrev empty_cache : Cache (List ℕ)
empty_cache = record {
  enabled = true;
  entries = [];
  fault = λ _. none;
  calls = 0;
  hits = 0;
  misses = 0;
  errors = 0;
}

abbrev two_owners : Store ℕ
two_owners = record {
  collections = ("assets", tag (character_id 7) 5 70 ∷ tag (character_id 8) 6 80 ∷ []) ∷ [];
  cache = empty_cache;
  requests = 0;
}

up : IsUp empty_cache
up = record { enabled = refl; fine = λ n. refl }

abbrev assets : String
assets = "assets"

abbrev fetched : List ℕ
fetched = 1 ∷ 2 ∷ []

cached_list-twice_example :
    let first = cached_list number assets "a" (character_id 7) 60 (ok fetched) 9 two_owners in
    let second = cached_list number assets "a" (character_id 7) 60 (ok []) 10 first.1 in
    (second.0 ≡ first.0) × (second.1.requests ≡ first.1.requests)
cached_list-twice_example =
    cached_list-twice number assets "a" (character_id 7) (λ n. refl) 60 9 10 fetched (ok [])
      two_owners up
