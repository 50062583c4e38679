-- ===== src/Dict/Unvisited.antt =====
-- The measure of a walk that remembers where it was.
use aobp.Prelude.{
  ℕ, ◌+◌, ◌≤◌, ◌<◌, ◌≡◌, true, false, some, List, [], ◌∷◌, arith, if◌then◌else◌, member, length,
  nat_eq, nat_beq_iff,
}
use aobp.Dict.{Dict, get}

-- How many entries of a dictionary have not been visited.
unfoldable pub unvisited {ℓ} : {V : Type ℓ} → List ℕ → Dict ℕ V → ℕ
unvisited visited [] = 0
unvisited visited ((k, _) ∷ steps) = (if member k visited then 0 else 1) + unvisited visited steps

-- `more` holds every element of `less`.
abbrev pub Grows : List ℕ → List ℕ → Type 0
Grows less more = (k : ℕ) → member k less ≡ true → member k more ≡ true

pub Grows-cons : (t : ℕ) (xs : List ℕ) → Grows xs (t ∷ xs)
unfolding member
Grows-cons t xs k h = ground arith

module _ {ℓ} {V : Type ℓ} where
  pub unvisited-le-length : (xs : List ℕ) (steps : Dict ℕ V) → unvisited xs steps ≤ length steps
  unfolding unvisited
  unvisited-le-length xs [] = omega arith
  unvisited-le-length xs ((k, s) ∷ steps) = ground (arith, unvisited-le-length xs steps)

  pub unvisited-anti :
      (less more : List ℕ) (steps : Dict ℕ V)
      → Grows less more
      → unvisited more steps ≤ unvisited less steps
  unfolding unvisited
  unvisited-anti less more [] g = omega arith
  unvisited-anti less more ((k, s) ∷ steps) g =
      ground (arith, g k, unvisited-anti less more steps g)

  unvisited-cons-le :
      (t : ℕ) (xs : List ℕ) (steps : Dict ℕ V) → unvisited (t ∷ xs) steps ≤ unvisited xs steps
  unvisited-cons-le t xs steps = unvisited-anti xs (t ∷ xs) steps (Grows-cons t xs)

  -- A visit of a step that was not visited leaves fewer.
  pub unvisited-cons-lt :
      (t : ℕ) (xs : List ℕ) (steps : Dict ℕ V) (step : V)
      → get t steps ≡ some step
      → member t xs ≡ false
      → unvisited (t ∷ xs) steps < unvisited xs steps
  unfolding unvisited get member
  unvisited-cons-lt t xs [] step h m = cc
  unvisited-cons-lt t xs ((k, s) ∷ steps) step h m = ground (
    arith,
    nat_beq_iff k t,
    nat_beq_iff t k,
    unvisited-cons-le t xs steps,
    unvisited-cons-lt t xs steps step,
  )
