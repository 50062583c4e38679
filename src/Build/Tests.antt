-- ===== src/Build/Tests.antt =====
-- The page of a ship whose hulls are built, and its links.
use Prim.Native.Char.{code}
use aobp.Prelude.{
  ℕ, ◌+◌, ◌-◌, ◌*◌, ◌/◌, ◌≡◌, refl, String, true, false, ◌||◌, Option, none, some, List, [], ◌∷◌,
  ◌==◌, nat_eq, string_eq, if◌then◌else◌, get_or, member,
}
use aobp.Result.{Result, ok, raise, value_error}
use aobp.Text.Numbers.{
  Unicode, split, isdigit, all_digits, is_digit, is_space, lstrip, rstrip, read_int, decimal,
}
use aobp.Dict.{Dict}
use aobp.Cache.{Cache}
use aobp.Sde.Names.{TypeDoc}
use aobp.MarketPrices.{PriceDoc, unit_price}
use aobp.BuildChain.{Blueprint, BuildStep}
use aobp.BuildChain.Resolve.{RawMaterial}
use aobp.Build.{
  StepCard, RawCard, BuildPage, chain, toggled, build_param, read_build_set, item_build_chain,
  read_each,
}
use aobp.Build.Links.{read_build_set-toggled}

-- Of the characters beyond ASCII, `²` (178) is a digit that has no value.
abbrev unicode : Unicode
unicode = record { white = λ c. false; digit = λ c. code c == 178; decimal = λ c. none }

abbrev find : ℕ → Option Blueprint
find k =
    if k == 1
    then some
        (record { product_quantity = none; materials = record { type_id = 2; quantity = 3 } ∷ [] })
    else if k == 2
    then some
        (record { product_quantity = none; materials = record { type_id = 9; quantity = 5 } ∷ [] })
    else none

abbrev types : ℕ → Option TypeDoc
types t = some (record {
  name = some (if t == 1 then "Ship" else if t == 2 then "Hull" else "Ore");
  group_id = none;
  category_id = none;
})

abbrev ceil_div : ℕ → ℕ → Result ℕ
ceil_div a b = ok ((a + (b - 1)) / b)

abbrev times : ℕ → ℕ → Result ℕ
times n p = ok (n * p)

abbrev sum : List ℕ → ℕ
sum [] = 0
sum (x ∷ xs) = x + sum xs

abbrev no_redis : Cache TypeDoc
no_redis = record {
  enabled = false;
  entries = [];
  fault = λ n. none;
  calls = 0;
  hits = 0;
  misses = 0;
  errors = 0;
}

abbrev prices : Dict ℕ (PriceDoc ℕ)
prices = []

abbrev hull : BuildStep
hull = record {
  type_id = 2;
  name = "Hull";
  quantity_needed = 6;
  runs = 6;
  product_quantity = 1;
  materials = (9, 30) ∷ [];
}

abbrev ship : BuildStep
ship = record {
  type_id = 1;
  name = "Ship";
  quantity_needed = 2;
  runs = 2;
  product_quantity = 1;
  materials = (2, 6) ∷ [];
}

abbrev cards : List StepCard
cards =
    record { step = hull; buy_href = some "/build/items/1?qty=2" }
    ∷ record { step = ship; buy_href = none }
    ∷ []

abbrev ore : RawMaterial ℕ
ore = record { type_id = 9; name = "Ore"; quantity = 30; unit_price = 0; is_buildable = false }

abbrev raws : List (RawCard ℕ)
raws = record { material = ore; build_href = none } ∷ []

abbrev page : BuildPage ℕ
page = chain 0 0 0 cards raws

abbrev shown : String → Result (BuildPage ℕ × Cache TypeDoc)
unfolding item_build_chain
shown build =
    item_build_chain unicode ceil_div times ◌-◌ sum (λ p. p) 0 find types prices 60 1 2 build
      no_redis

-- `²` is a digit for `isdigit`, and `int` refuses it.
superscript : read_build_set unicode "2,²" ≡ raise value_error
unfolding read_build_set read_each split isdigit all_digits is_digit is_space lstrip rstrip read_int
    decimal
superscript = refl

read_build_set-toggled_example :
    (updated : List ℕ) × (read_build_set unicode (get_or (build_param (toggled true 9 (2 ∷ []))) "")
      ≡ ok updated)
    × ((j : ℕ) → member j updated ≡ (9 == j || member j (2 ∷ [])))
read_build_set-toggled_example = read_build_set-toggled unicode true 9 (2 ∷ [])
