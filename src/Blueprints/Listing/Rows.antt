-- ===== src/Blueprints/Listing/Rows.antt =====
-- The rows of the list of blueprints, and what the sort links make of them.
use mathlib.Core.List.{Permᴰ}
use mathlib.Core.List.Permᴰ
use aobp.Prelude.{
  ℕ, ◌≤◌, ◌≡◌, leb, refl, sym, ap, ◌∙◌, String, Bool, true, false, ◌⊎◌, List, [], ◌∷◌, map, arith,
  string_eq, member, keep, if◌then◌else◌, ◌==◌, inl, inr, Bool-cases,
}
use aobp.Text.{str_leb}
use aobp.Text.Sorting.{sorted-Permᴰ, ascending, ascending-sorted, str_leb_total}
use aobp.Dict.{Dict, beq_refl}
use aobp.Blueprints.Listing.{
  Blueprint, TypeDoc, Request, Row, sort_columns, selected_of, sort_of, direction_of, by_column,
  in_order, is_visible, row_of, visible_rows, sort_link, read_request,
}
use aobp.Blueprints.Listing.Links.{Follows, sort_link-Follows}

-- The direction that a column's link asks for.
abbrev pub other_direction : String → Request → String
other_direction column q =
    if column == sort_of q then if direction_of q == "asc" then "desc" else "asc" else "asc"

-- A value that passed a test, or the default.
tested_or {ℓ} :
    (P : String → Type ℓ) (test : Bool) (s default : String)
    → (test ≡ true → P s)
    → P default
    → P (if test then s else default)
tested_or P true s default passed otherwise = passed refl
tested_or P false s default passed otherwise = otherwise

member-sort_of : (q : Request) → member (sort_of q) sort_columns ≡ true
unfolding sort_of
member-sort_of q =
    tested_or (λ s. member s sort_columns ≡ true) (member q.sort sort_columns) q.sort "name"
      (λ e. e) (unfold member in refl)

abbrev IsDirection : String → Type 0
IsDirection d = (d ≡ "asc") ⊎ (d ≡ "desc")

member-IsDirection : (d : String) → member d ("asc" ∷ "desc" ∷ []) ≡ true → IsDirection d
unfolding member
member-IsDirection d h = elim (Bool-cases ("asc" == d)) [
  | inl up ↦ inl (sym ((string_eq.beq_iff "asc" d).0 up))
  | inr other ↦ inr (sym ((string_eq.beq_iff "desc" d).0 (ground (arith, h, other))))
]

-- A page has one of the two directions.
direction_of-IsDirection : (q : Request) → IsDirection (direction_of q)
unfolding direction_of
direction_of-IsDirection q =
    tested_or IsDirection (member q.dir ("asc" ∷ "desc" ∷ [])) q.dir "asc"
      (member-IsDirection q.dir) (inl refl)

-- What is known of the request that a link asks for.
sort_of-Follows :
    (column direction : String) (q q' : Request)
    → member column sort_columns ≡ true
    → Follows q column direction q'
    → sort_of q' ≡ column
unfolding sort_of
sort_of-Follows column direction q q' known f = rw (f.sort, known) refl

direction_of-Follows :
    (column direction : String) (q q' : Request)
    → IsDirection direction
    → Follows q column direction q'
    → direction_of q' ≡ direction
unfolding direction_of member
direction_of-Follows column direction q q' (inl up) f = rw (f.dir, up) refl
direction_of-Follows column direction q q' (inr down) f = rw (f.dir, down) refl

other_direction-IsDirection :
    (column : String) (q : Request) → IsDirection (other_direction column q)
other_direction-IsDirection column q =
    tested_or IsDirection (column == sort_of q) (if direction_of q == "asc" then "desc" else "asc")
      "asc"
      (λ same.
        tested_or IsDirection (direction_of q == "asc") "desc" "asc" (λ up. inr refl) (inl refl))
      (inl refl)

-- The other direction of the page's own column.
flip : String → String
flip direction = if direction == "asc" then "desc" else "asc"

flip_twice : (d : String) → IsDirection d → flip (flip d) ≡ d
unfolding flip
flip_twice d (inl up) = rw up refl
flip_twice d (inr down) = rw down refl

other_direction-flip :
    (column : String) (q : Request)
    → sort_of q ≡ column
    → other_direction column q ≡ flip (direction_of q)
unfolding flip
other_direction-flip column q same = rw same (
    ap (λ b. if b then if direction_of q == "asc" then "desc" else "asc" else "asc")
      (beq_refl column))

-- What the page's order says of a row and of a row that is shown somewhere behind it: the column's values
-- rise for `asc`, and fall for `desc`. Names are compared in lower case.
pub data IsInLine (lower : String → String) (column direction : String) (a b : Row) : Type 0 where
  me_up : column ≡ "me" → direction ≡ "asc" → a.me ≤ b.me → IsInLine lower column direction a b
  me_down : column ≡ "me" → direction ≡ "desc" → b.me ≤ a.me → IsInLine lower column direction a b
  te_up : column ≡ "te" → direction ≡ "asc" → a.te ≤ b.te → IsInLine lower column direction a b
  te_down : column ≡ "te" → direction ≡ "desc" → b.te ≤ a.te → IsInLine lower column direction a b
  name_up :
      column ≡ "name"
      → direction ≡ "asc"
      → str_leb (lower a.name) (lower b.name) ≡ true
      → IsInLine lower column direction a b
  name_down :
      column ≡ "name"
      → direction ≡ "desc"
      → str_leb (lower b.name) (lower a.name) ≡ true
      → IsInLine lower column direction a b

-- Each row and the next one.
abbrev pub Chain {ℓ κ} : {A : Type ℓ} → (A → A → Type κ) → List A → Type κ
Chain R [] = Unit
Chain R (x ∷ []) = Unit
Chain R (x ∷ y ∷ ys) = R x y × Chain R (y ∷ ys)

Chain-ascending {ℓ κ} :
    {A : Type ℓ} (le : A → A → Bool) (R : A → A → Type κ)
    → ((a b : A) → le a b ≡ true → R a b)
    → (xs : List A) → ascending le xs ≡ true
    → Chain R xs
unfolding ascending
Chain-ascending le R f [] h = tt
Chain-ascending le R f (x ∷ []) h = tt
Chain-ascending le R f (x ∷ y ∷ ys) h =
    (f x y (ground (arith, h)), Chain-ascending le R f (y ∷ ys) (ground (arith, h)))

-- A column is one of the three.
abbrev IsColumn : String → Type 0
IsColumn c = (c ≡ "name") ⊎ ((c ≡ "me") ⊎ (c ≡ "te"))

member-IsColumn : (c : String) → member c sort_columns ≡ true → IsColumn c
unfolding member
member-IsColumn c h = elim (Bool-cases ("name" == c)) [
  | inl name ↦ inl (sym ((string_eq.beq_iff "name" c).0 name))
  | inr other ↦ elim (Bool-cases ("me" == c)) [
    | inl me ↦ inr (inl (sym ((string_eq.beq_iff "me" c).0 me)))
    | inr last ↦ inr (inr (sym ((string_eq.beq_iff "te" c).0 (ground (arith, h, other, last)))))
  ]
]

module _ (strip lower escape : String → String) where
  in_order-IsInLine :
      (column direction : String) (a b : Row)
      → IsColumn column
      → IsDirection direction
      → in_order strip lower escape column direction a b ≡ true
      → IsInLine lower column direction a b
  unfolding in_order by_column
  in_order-IsInLine column direction a b (inl c) (inl d) h = name_up c d (rw (c, d) at h)
  in_order-IsInLine column direction a b (inl c) (inr d) h = name_down c d (rw (c, d) at h)
  in_order-IsInLine column direction a b (inr (inl c)) (inl d) h =
      let low : leb a.me b.me ≡ true = rw (c, d) at h in me_up c d (ground (arith, low))
  in_order-IsInLine column direction a b (inr (inl c)) (inr d) h =
      let low : leb b.me a.me ≡ true = rw (c, d) at h in me_down c d (ground (arith, low))
  in_order-IsInLine column direction a b (inr (inr c)) (inl d) h =
      let low : leb a.te b.te ≡ true = rw (c, d) at h in te_up c d (ground (arith, low))
  in_order-IsInLine column direction a b (inr (inr c)) (inr d) h =
      let low : leb b.te a.te ≡ true = rw (c, d) at h in te_down c d (ground (arith, low))

  by_column_total :
      (column : String) (a b : Row)
      → by_column strip lower escape column a b ≡ false
      → by_column strip lower escape column b a ≡ true
  unfolding by_column
  by_column_total column a b h = ground (arith, h, str_leb_total (lower a.name) (lower b.name))

  in_order_total :
      (column direction : String) (a b : Row)
      → in_order strip lower escape column direction a b ≡ false
      → in_order strip lower escape column direction b a ≡ true
  unfolding in_order
  in_order_total column direction a b h =
      ground (arith, h, by_column_total column a b, by_column_total column b a)

  -- The rows that pass the filters.
  abbrev passing : Request → Dict ℕ TypeDoc → List Blueprint → List Row
  passing q docs blueprints =
      keep (is_visible strip lower escape (selected_of q) q.location q.search)
        (map (row_of strip lower escape docs) blueprints)

  passing-Follows :
      (column direction : String) (q q' : Request) (docs : Dict ℕ TypeDoc)
      (blueprints : List Blueprint)
      → Follows q column direction q'
      → passing q' docs blueprints ≡ passing q docs blueprints
  passing-Follows column direction q q' docs blueprints f =
      rw (f.selected, f.location, f.search) refl

  -- The page of a sort link shows the same rows. It is sorted by the link's column, in the direction that
  -- is the other one if the page was sorted by that column, and ascending if it was not: from each row
  -- to the next, the column's values (or the names in lower case) rise for `asc` and fall for `desc`.
  pub visible_rows-sort_link :
      (column : String) (q : Request) (docs : Dict ℕ TypeDoc) (blueprints : List Blueprint)
      → member column sort_columns ≡ true
      → let q' = read_request (sort_link column q) in
        let rows = visible_rows strip lower escape q' docs blueprints in
        Permᴰ rows (visible_rows strip lower escape q docs blueprints)
        × (sort_of q' ≡ column)
        × (direction_of q' ≡ other_direction column q)
        × Chain (IsInLine lower column (other_direction column q)) rows
  unfolding visible_rows
  visible_rows-sort_link column q docs blueprints known =
      let q' = read_request (sort_link column q) in
      let f = sort_link-Follows column q in
      let same = passing-Follows column _ q q' docs blueprints f in
      let sorted_by = sort_of-Follows column _ q q' known f in
      let directed = direction_of-Follows column _ q q' (other_direction-IsDirection column q) f in
      (
        Permᴰ.trans (sorted-Permᴰ _ (passing q' docs blueprints))
            (rw same (Permᴰ.symm (sorted-Permᴰ _ (passing q docs blueprints)))),
        sorted_by,
        directed,
        Chain-ascending (in_order strip lower escape column (other_direction column q))
            (IsInLine lower column (other_direction column q))
            (λ a b.
              in_order-IsInLine column (other_direction column q) a b (member-IsColumn column known)
                (other_direction-IsDirection column q))
            _
            (rw (sorted_by, directed)
              (ascending-sorted _ (in_order_total column (other_direction column q))
                (passing q' docs blueprints))),
      )

  -- Following the link of the page's own column twice gives the page back.
  pub visible_rows-sort_link_twice :
      (q : Request) (docs : Dict ℕ TypeDoc) (blueprints : List Blueprint)
      → let column = sort_of q in
        let q' = read_request (sort_link column q) in
        visible_rows strip lower escape (read_request (sort_link column q')) docs blueprints
        ≡ visible_rows strip lower escape q docs blueprints
  unfolding visible_rows
  visible_rows-sort_link_twice q docs blueprints =
      let column = sort_of q in
      let q' = read_request (sort_link column q) in
      let q'' = read_request (sort_link column q') in
      let f = sort_link-Follows column q in
      let g = sort_link-Follows column q' in
      let known = member-sort_of q in
      let first = sort_of-Follows column _ q q' known f in
      let second = sort_of-Follows column _ q' q'' known g in
      let down =
        direction_of-Follows column _ q q' (other_direction-IsDirection column q) f
        ∙ other_direction-flip column q refl in
      let up : direction_of q'' ≡ direction_of q =
        direction_of-Follows column _ q' q'' (other_direction-IsDirection column q') g
        ∙ other_direction-flip column q' first
        ∙ ap flip down
        ∙ flip_twice (direction_of q) (direction_of-IsDirection q) in
      let same =
        passing-Follows column _ q' q'' docs blueprints g
        ∙ passing-Follows column _ q q' docs blueprints f in
      rw (second, up, same) refl
