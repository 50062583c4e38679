-- ===== src/Cache/Transparent.antt =====
-- The cache only ever answers with what was stored, and keeps what agrees with the truth.
use aobp.Prelude.{
  ℕ, zero, suc, ◌≡◌, subst, String, ◌||◌, not, some, List, [], ◌∷◌, arith, nat_eq, string_eq, take,
  Bool-cases, Option-cases, inl, inr, All,
}
use aobp.Dict.{Dict, get, put, get-put_all}
use aobp.Dict.Select.{get-select}
use aobp.Cache.{Cache, is_empty, stored, get_many_cached, set_all, set_many_cached}

module _ {ℓ} {V : Type ℓ} where
  -- Every entry satisfies `P`.
  abbrev pub Stores {μ} : (String → V → Type μ) → Cache V → Type (ℓ ⊔ μ)
  Stores P c = (k : String) (e : V × ℕ) → get k c.entries ≡ some e → P k e.0

  -- A read changes counters only.
  pub entries-get_many_cached :
      (c : Cache V) (ks : List String) → (get_many_cached c ks).1.entries ≡ c.entries
  unfolding get_many_cached
  entries-get_many_cached c ks = ground arith

  module _ {μ} (P : String → V → Type μ) where
    set_all-Stores :
        (ttl : ℕ) (items : Dict String V) (entries : Dict String (V × ℕ))
        → All (λ item. P item.0 item.1) items
        → ((k : String) (e : V × ℕ) → get k entries ≡ some e → P k e.0)
        → (k : String) (e : V × ℕ) → get k (set_all ttl items entries) ≡ some e
        → P k e.0
    unfolding set_all
    set_all-Stores ttl [] entries h s = s
    set_all-Stores ttl ((k, v) ∷ items) entries h s =
        set_all-Stores ttl items (put k (v, ttl) entries) h.1
          (get-put_all (λ j e. P j e.0) k (v, ttl) entries h.0 s)

    All-take :
        (n : ℕ) (items : Dict String V)
        → All (λ item. P item.0 item.1) items
        → All (λ item. P item.0 item.1) (take n items)
    All-take zero items h = tt
    All-take (suc n) [] h = tt
    All-take (suc n) (x ∷ items) h = (h.0, All-take n items h.1)

    -- A write keeps what holds of every entry, if it holds of what is written, also where the
    -- pipeline fails half-way.
    pub set_many_cached-Stores :
        (c : Cache V) (items : Dict String V) (ttl : ℕ)
        → All (λ item. P item.0 item.1) items
        → Stores P c
        → Stores P (set_many_cached c items ttl)
    unfolding set_many_cached
    set_many_cached-Stores c items ttl h s = elim (Bool-cases (not c.enabled || is_empty items)) [
      | inl idle ↦ rw (idle, set_many_cached) s
      | inr busy ↦ elim (Option-cases (c.fault c.calls)) [
        | inl fine ↦ rw (busy, fine, set_many_cached) (set_all-Stores ttl items c.entries h s)
        | inr (n, broken) ↦
            rw (busy, broken, set_many_cached)
              (set_all-Stores ttl (take n items) c.entries (All-take n items h) s)
      ]
    ]

    pub get_many_cached-Stores :
        (c : Cache V) (ks : List String) → Stores P c → Stores P (get_many_cached c ks).1
    get_many_cached-Stores c ks s = rw entries-get_many_cached s

    -- What a read returns is stored under the key that was asked for.
    pub get_many_cached-sound :
        (c : Cache V) (ks : List String) (k : String) (v : V)
        → Stores P c
        → get k (get_many_cached c ks).0 ≡ some v
        → P k v
    unfolding get_many_cached stored get
    get_many_cached-sound c ks k v s h = elim (Option-cases (get k c.entries)) [
      | inl absent ↦ absurd (ground (arith, get-select (stored c.entries) k ks))
      | inr (e, present) ↦
          subst (P k) (ground (arith, get-select (stored c.entries) k ks)) (s k e present)
    ]
