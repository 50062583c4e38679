-- ===== src/Blueprints/Listing/Links.antt =====
-- The request that is read from a sort link: the page's filters, the link's column, and the other
-- direction where the column was chosen already.
use mathlib.Core.List.{append-nil}
use aobp.Prelude.{
  ◌≡◌, refl, ap, ◌∙◌, String, Bool, true, false, none, some, List, [], ◌∷◌, ◌++◌, map, arith,
  string_eq, member, keep, if◌then◌else◌, ◌==◌, get_or, inl, inr, Option-cases,
}
use aobp.Blueprints.Listing.{
  Request, filter_options, selected_of, sort_of, direction_of, query_params, sort_link, values_of,
  last_of, read_request,
}

-- The options of which three tests hold.
kept : Bool → Bool → Bool → List String
kept a b c =
    let third = if c then "t2" ∷ [] else [] in
    let second = if b then "copy" ∷ third else third in if a then "original" ∷ second else second

keep-options :
    (test : String → Bool)
    → keep test filter_options ≡ kept (test "original") (test "copy") (test "t2")
unfolding keep kept
keep-options test = refl

member-kept :
    (a b c : Bool) → keep (λ option. member option (kept a b c)) filter_options ≡ kept a b c
unfolding keep kept member
member-kept true true true = refl
member-kept true true false = refl
member-kept true false true = refl
member-kept true false false = refl
member-kept false true true = refl
member-kept false true false = refl
member-kept false false true = refl
member-kept false false false = refl

-- The selected filters are kept when they are sent again.
selected_again :
    (q : Request) → keep (λ option. member option (selected_of q)) filter_options ≡ selected_of q
unfolding selected_of member keep
selected_again q = elim (Option-cases q.f) [
  | inl absent ↦ rw absent (unfold kept in member-kept true false false)
  | inr (f, present) ↦ rw (present, keep-options) (member-kept _ _ _)
]

values_of-shows :
    (selected : List String) (params : List (String × String))
    → values_of "show" (map (λ value. ("show", value)) selected ++ params)
      ≡ selected ++ values_of "show" params
unfolding values_of
values_of-shows [] params = refl
values_of-shows (s ∷ selected) params = ap (λ rest. s ∷ rest) (values_of-shows selected params)

last_of-shows :
    (k : String) (selected : List String) (params : List (String × String))
    → ("show" == k) ≡ false
    → last_of k (map (λ value. ("show", value)) selected ++ params) ≡ last_of k params
unfolding last_of
last_of-shows k [] params other = refl
last_of-shows k (s ∷ selected) params other =
    ground (arith, last_of-shows k selected params other, other)

-- What follows the filters, where the two last parameters may be left out.
tail_params : Bool → Bool → String → String → String → String → List (String × String)
tail_params no_location no_search sort direction location search =
    ("sort", sort)
    ∷ ("dir", direction)
    ∷ ((if no_location then [] else ("location", location) ∷ [])
        ++ (if no_search then [] else ("search", search) ∷ []))

-- What is read of them.
abbrev Reads : Bool → Bool → String → String → String → String → List (String × String) → Type 0
Reads no_location no_search sort direction location search params =
    (values_of "show" params ≡ [])
    × (last_of "f" params ≡ none)
    × (last_of "sort" params ≡ some sort)
    × (last_of "dir" params ≡ some direction)
    × (last_of "location" params ≡ (if no_location then none else some location))
    × (last_of "search" params ≡ (if no_search then none else some search))

tail_params-Reads :
    (no_location no_search : Bool) (sort direction location search : String)
    → Reads no_location no_search sort direction location search
        (tail_params no_location no_search sort direction location search)
unfolding tail_params values_of last_of
tail_params-Reads true true s d l t = (refl, refl, refl, refl, refl, refl)
tail_params-Reads true false s d l t = (refl, refl, refl, refl, refl, refl)
tail_params-Reads false true s d l t = (refl, refl, refl, refl, refl, refl)
tail_params-Reads false false s d l t = (refl, refl, refl, refl, refl, refl)

-- The whole list of parameters.
abbrev whole : List String → List (String × String) → List (String × String)
whole selected rest = ("f", "1") ∷ (map (λ value. ("show", value)) selected ++ rest)

last_of-whole :
    (k : String) (selected : List String) (rest : List (String × String))
    → ("show" == k) ≡ false
    → ("f" == k) ≡ false
    → last_of k (whole selected rest) ≡ last_of k rest
unfolding last_of
last_of-whole k selected rest show f = ground (arith, last_of-shows k selected rest show, f)

values_of-whole :
    (selected : List String) (rest : List (String × String))
    → values_of "show" rest ≡ []
    → values_of "show" (whole selected rest) ≡ selected
unfolding values_of
values_of-whole selected rest h = values_of-shows selected rest ∙ rw h (append-nil selected)

last_of-f :
    (selected : List String) (rest : List (String × String))
    → last_of "f" rest ≡ none
    → last_of "f" (whole selected rest) ≡ some "1"
unfolding last_of
last_of-f selected rest h = ground (arith, last_of-shows "f" selected rest refl, h)

get_or-none : (s : String) → get_or (if s == "" then none else some s) "" ≡ s
get_or-none s = ground (arith, string_eq.beq_iff s "")

-- A request for the filters of `q` and its two texts, by another column and direction.
pub record Follows (q : Request) (column direction : String) (q' : Request) : Type 0 where
  pub selected : selected_of q' ≡ selected_of q
  pub sort : q'.sort ≡ column
  pub dir : q'.dir ≡ direction
  pub location : q'.location ≡ q.location
  pub search : q'.search ≡ q.search

read_selected :
    (selected : List String) (rest : List (String × String))
    → values_of "show" rest ≡ []
    → last_of "f" rest ≡ none
    → selected_of (read_request (whole selected rest))
      ≡ keep (λ option. member option selected) filter_options
unfolding selected_of read_request
read_selected selected rest no_show no_f =
    rw (last_of-f selected rest no_f, values_of-whole selected rest no_show) refl

query_params-Follows :
    (q : Request) (column direction : String)
    → Follows q column direction
        (read_request (query_params (selected_of q) column direction q.location q.search))
unfolding query_params read_request tail_params
query_params-Follows q column direction =
    let no_location = q.location == "" in
    let no_search = q.search == "" in
    let rest = tail_params no_location no_search column direction q.location q.search in
    let (no_show, no_f, sorts, directs, locates, searches) =
      tail_params-Reads no_location no_search column direction q.location q.search in
    record {
      selected = read_selected (selected_of q) rest no_show no_f ∙ selected_again q;
      sort =
          ap (λ o. get_or o "name") (last_of-whole "sort" (selected_of q) rest refl refl ∙ sorts);
      dir = ap (λ o. get_or o "asc") (last_of-whole "dir" (selected_of q) rest refl refl ∙ directs);
      location =
          ap (λ o. get_or o "") (last_of-whole "location" (selected_of q) rest refl refl ∙ locates)
          ∙ get_or-none q.location;
      search =
          ap (λ o. get_or o "") (last_of-whole "search" (selected_of q) rest refl refl ∙ searches)
          ∙ get_or-none q.search;
    }

-- What the page of a sort link is: the same filters, the link's column and its direction.
pub sort_link-Follows :
    (column : String) (q : Request)
    → Follows q column
        (if column == sort_of q then if direction_of q == "asc" then "desc" else "asc" else "asc")
        (read_request (sort_link column q))
unfolding sort_link
sort_link-Follows column q = query_params-Follows q column _
