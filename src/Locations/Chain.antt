-- ===== src/Locations/Chain.antt =====
-- The walk through the containers always ends, and where it ends.
use aobp.Prelude.{
  ℕ, zero, suc, ◌<◌, ◌≡◌, refl, sym, subst, true, false, none, some, List, [], ◌∷◌, arith, nat_eq,
  string_eq, nat_beq_iff, ◌==◌, member, length, Bool-cases, Option-cases, inl, inr,
}
use aobp.Result.{ok}
use aobp.Dict.{Dict, get}
use aobp.Dict.Unvisited.{unvisited, unvisited-le-length, unvisited-cons-lt}
use aobp.Locations.{Asset, chain_loop, resolve_container_chain}

module _ (assets : Dict ℕ Asset) where
  -- `a` lies directly inside the item `b`.
  abbrev pub Inside : ℕ → ℕ → Type 0
  Inside a b =
      (asset : Asset) × (get a assets ≡ some asset)
      × ((asset.location_type == "item") ≡ true)
      × (asset.location_id ≡ b)

  -- From item to item.
  pub data Reaches : ℕ → ℕ → Type 0 where
    here : {a b : ℕ} → a ≡ b → Reaches a b
    into : {a b c : ℕ} → Inside a b → Reaches b c → Reaches a c

  -- Where the walk may end: at a place that is no asset, at the place of an asset that is in no other
  -- item, or at an item of a cycle.
  pub data Ends (start : ℕ) : ℕ → Type 0 where
    outside : {r : ℕ} → Reaches start r → get r assets ≡ none → Ends start r
    placed :
        {r last : ℕ} (asset : Asset)
        → Reaches start last
        → get last assets ≡ some asset
        → (asset.location_type == "item") ≡ false
        → r ≡ asset.location_id
        → Ends start r
    cycle : {r next : ℕ} → Reaches start r → Inside r next → Reaches next r → Ends start r

  Reaches-trans : {a b c : ℕ} → Reaches a b → Reaches b c → Reaches a c
  Reaches-trans {a} {b} {c} (here e) q = subst (λ x. Reaches x c) (sym e) q
  Reaches-trans (into i p) q = into i (Reaches-trans p q)

  Reaches-snoc : {a b c : ℕ} → Reaches a b → Inside b c → Reaches a c
  Reaches-snoc p i = Reaches-trans p (into i (here refl))

  -- Every visited item leads to the current one in at least one step.
  abbrev Trail : List ℕ → ℕ → Type 0
  Trail visited current =
      (v : ℕ) → member v visited ≡ true → (next : ℕ) × Inside v next × Reaches next current

  Trail-cons :
      (visited : List ℕ) (current next : ℕ)
      → Trail visited current
      → Inside current next
      → Trail (current ∷ visited) next
  unfolding member
  Trail-cons visited current next trail i v h = elim (Bool-cases (current == v)) [
    | inl same ↦
        let e = (nat_beq_iff current v).0 same in (next, subst (λ x. Inside x next) e i, here refl)
    | inr other ↦ let (n, j, p) = trail v (ground (arith, other, h)) in (n, j, Reaches-snoc p i)
  ]

  chain_loop-Ends :
      (start fuel current : ℕ) (visited : List ℕ)
      → unvisited visited assets < fuel
      → Reaches start current
      → Trail visited current
      → (r : ℕ) × (chain_loop assets fuel current visited ≡ ok r) × Ends start r
  unfolding chain_loop
  chain_loop-Ends start zero current visited h p trail = absurd (omega arith)
  chain_loop-Ends start (suc fuel) current visited h p trail =
      elim (Option-cases (get current assets)) [
        | inl absent ↦ (current, rw (absent, chain_loop), outside p absent)
        | inr (asset, present) ↦ elim (Bool-cases (member current visited)) [
          | inl seen ↦
              let (next, i, q) = trail current seen in
              (current, rw (present, seen, chain_loop), cycle p i q)
          | inr fresh ↦ elim (Bool-cases (asset.location_type == "item")) [
            | inr site ↦ (
              asset.location_id,
              rw (present, fresh, site, chain_loop),
              placed asset p present site refl,
            )
            | inl item ↦
                let i : Inside current asset.location_id = (asset, present, item, refl) in
                let less = unvisited-cons-lt current visited assets asset present fresh in
                let (r, e, ends) =
                  chain_loop-Ends start fuel asset.location_id (current ∷ visited)
                    (omega (arith, less)) (Reaches-snoc p i)
                    (Trail-cons visited current asset.location_id trail i) in
                (r, rw (present, fresh, item, chain_loop) e, ends)
          ]
        ]
      ]

  -- For every location the walk ends: at a place reached from it through containers that is no known
  -- asset, or at the place of such a container that is in no other item, or, only where containers
  -- hold one another in a cycle, at an item of that cycle.
  pub resolve_container_chain-Ends :
      (location_id : ℕ)
      → (r : ℕ) × (resolve_container_chain assets location_id ≡ ok r) × Ends location_id r
  unfolding resolve_container_chain member
  resolve_container_chain-Ends location_id =
      chain_loop-Ends location_id (suc (length assets)) location_id []
        (omega (arith, unvisited-le-length [] assets)) (here refl) (λ v h. absurd (cc))
