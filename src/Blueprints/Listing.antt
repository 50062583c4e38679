-- ===== src/Blueprints/Listing.antt =====
-- The list of a character's blueprints, `list_blueprints` of app/routes/blueprints.py: its filters, its
-- order, and the links that change the order. The texts of an address are coded and decoded by
-- libraries; `lower` and `escape` are Python's, and a location's label is an argument.
pub mod Links
pub mod Rows
use Prim.Native.String.{String}
use Prim.Native.Char.{code}
use aobp.Prelude.{
  ℕ, Bool, true, false, ◌&&◌, ◌||◌, not, Option, none, some, List, [], ◌∷◌, ◌++◌, map, nat_eq,
  nat_beq, string_eq, member, leb, keep, frozenset, if◌then◌else◌, ◌==◌, get_or,
}
use aobp.Result.{Result, ok, raise, key_error, ◌>>=◌}
use aobp.Text.{str, ◌⧺◌, sorted, str_leb}
use aobp.Dict.{Dict, get, put, values}
use aobp.Cache.{is_empty}

-- Python's integers.
pub data ℤ : Type 0 where
  pos negsuc : ℕ → ℤ

-- `n == -k`
unfoldable pub is_minus : ℕ → ℤ → Bool
is_minus k (pos n) = false
is_minus k (negsuc n) = k == n

-- An `esi.BlueprintEntry`, by the fields that the list reads, with the place that its container chain
-- leads to.
pub record Blueprint : Type 0 where
  pub item_id : ℕ
  pub type_id : ℕ
  pub quantity : ℤ
  pub runs : ℤ
  pub material_efficiency : ℕ
  pub time_efficiency : ℕ
  pub location_id : ℕ

-- `quantity == -2 or runs != -1`
unfoldable pub is_copy_of : Blueprint → Bool
unfolding is_minus
is_copy_of bp = is_minus 1 bp.quantity || not (is_minus 0 bp.runs)

-- What the list reads of a document of `sde_types`.
pub record TypeDoc : Type 0 where
  pub name : Option String
  pub tech_level : Option ℕ

-- The parameters of a request.
pub record Request : Type 0 where
  pub f : Option String
  pub show : List String
  pub sort : String
  pub dir : String
  pub location : String
  pub search : String

-- `_Row`
pub record Row : Type 0 where
  pub name : String
  pub search_name : String
  pub is_copy : Bool
  pub is_t2 : Bool
  pub me : ℕ
  pub te : ℕ
  pub location_id : ℕ

-- `_FILTER_OPTIONS` and `_SORT_COLUMNS`
abbrev pub filter_options : List String
filter_options = "original" ∷ "copy" ∷ "t2" ∷ []

abbrev pub sort_columns : List String
sort_columns = "name" ∷ "me" ∷ "te" ∷ []

-- `frozenset(show) & set(_FILTER_OPTIONS) if f is not None else _DEFAULT_FILTERS`
unfoldable pub selected_of : Request → List String
selected_of q = elim q.f [
  | none ↦ "original" ∷ []
  | some _ ↦ keep (λ option. member option q.show) filter_options
]

unfoldable pub sort_of : Request → String
sort_of q = if member q.sort sort_columns then q.sort else "name"

unfoldable pub direction_of : Request → String
direction_of q = if member q.dir ("asc" ∷ "desc" ∷ []) then q.dir else "asc"

-- `part in text`
unfoldable pub is_prefix : String → String → Bool
is_prefix String.[] text = true
is_prefix (String.◌∷◌ c part) String.[] = false
is_prefix (String.◌∷◌ c part) (String.◌∷◌ d text) = nat_beq (code c) (code d) && is_prefix part text

unfoldable pub is_in : String → String → Bool
is_in part String.[] = is_prefix part ""
is_in part (String.◌∷◌ d text) = is_prefix part (String.◌∷◌ d text) || is_in part text

-- `strip` and `lower` of texts, and `escape`.
module _ (strip lower escape : String → String) where
  -- The row of a blueprint.
  unfoldable pub row_of : Dict ℕ TypeDoc → Blueprint → Row
  unfolding is_copy_of
  row_of type_docs bp =
      let found = get (Blueprint.type_id bp) type_docs in
      let default = "Type " ⧺ str bp.type_id in
      let raw_name : String = elim found [
        | none ↦ default
        | some doc ↦ get_or (TypeDoc.name doc) default
      ] in
      let tech_level_ : Option ℕ = elim found [ none ↦ none | some doc ↦ TypeDoc.tech_level doc ] in
      record {
        name = escape raw_name;
        search_name = lower raw_name;
        is_copy = is_copy_of bp;
        is_t2 = elim tech_level_ [ none ↦ false | some level ↦ level == 2 ];
        me = bp.material_efficiency;
        te = bp.time_efficiency;
        location_id = bp.location_id;
      }

  -- The condition of `visible_rows`, for the selected filters, the location and the search's text.
  unfoldable pub is_visible : List String → String → String → Row → Bool
  is_visible selected location search row =
      let search_query = lower (strip search) in
      (if Row.is_copy row then member "copy" selected else member "original" selected)
      && (not row.is_t2 || member "t2" selected)
      && (location == "" || str row.location_id == location)
      && (search_query == "" || is_in search_query row.search_name)

  -- `sort_keys[sort]`, as a comparison.
  unfoldable pub by_column : String → Row → Row → Bool
  by_column column a b =
      if column == "me"
      then leb a.me b.me
      else if column == "te"
      then leb a.te b.te
      else str_leb (lower a.name) (lower b.name)

  unfoldable pub in_order : String → String → Row → Row → Bool
  in_order column direction a b =
      if direction == "desc" then by_column column b a else by_column column a b

  -- The rows that the page shows.
  unfoldable pub visible_rows : Request → Dict ℕ TypeDoc → List Blueprint → List Row
  visible_rows q type_docs blueprints =
      sorted (in_order (sort_of q) (direction_of q))
        (keep (is_visible (selected_of q) q.location q.search) (map (row_of type_docs) blueprints))

-- `_query_string`, as the pairs that are encoded
unfoldable pub query_params :
    List String → String → String → String → String → List (String × String)
query_params selected sort direction location search =
    ("f", "1")
    ∷ (map (λ value. ("show", value)) selected
        ++ (("sort", sort)
            ∷ ("dir", direction)
            ∷ ((if location == "" then [] else ("location", location) ∷ [])
                ++ (if search == "" then [] else ("search", search) ∷ []))))

-- The parameters of `_sort_link` for a column of the page of `q`.
unfoldable pub sort_link : String → Request → List (String × String)
sort_link column q =
    let next_dir =
      if column == sort_of q then if direction_of q == "asc" then "desc" else "asc" else "asc" in
    query_params (selected_of q) column next_dir q.location q.search

-- What the handler's signature reads of an address: every value of `show`, the last value of another
-- parameter, or its default.
unfoldable pub values_of : String → List (String × String) → List String
values_of k [] = []
values_of k ((j, v) ∷ params) = let rest = values_of k params in if j == k then v ∷ rest else rest

unfoldable pub last_of : String → List (String × String) → Option String
last_of k [] = none
last_of k ((j, v) ∷ params) = elim (last_of k params) [
  | some w ↦ some w
  | none ↦ if j == k then some v else none
]

unfoldable pub read_request : List (String × String) → Request
read_request params = record {
  f = last_of "f" params;
  show = values_of "show" params;
  sort = get_or (last_of "sort" params) "name";
  dir = get_or (last_of "dir" params) "asc";
  location = get_or (last_of "location" params) "";
  search = get_or (last_of "search" params) "";
}
