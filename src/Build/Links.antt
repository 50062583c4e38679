-- ===== src/Build/Links.antt =====
-- The links of the page of a build chain: what they select, and which selection they stand for.
use aobp.Prelude.{
  ℕ, ◌≡◌, refl, ◌∙◌, Bool, true, false, ◌&&◌, ◌||◌, not, List, [], ◌∷◌, map, arith, nat_eq,
  nat_beq_iff, string_eq, member, leb, if◌then◌else◌, ◌==◌, get_or, frozenset, member-frozenset,
  member-keep,
}
use aobp.Result.{ok}
use aobp.Text.{str, sorted}
use aobp.Text.Sorting.{member-sorted}
use aobp.Text.Numbers.{Unicode, split, join, lstrip, rstrip, isdigit}
use aobp.Text.Numbers.RoundTrip.{split-join, isdigit-str, int-str}
use aobp.Cache.{is_empty}
use aobp.Build.{read_each, read_build_set, toggled, build_param}

member-toggled :
    (adding : Bool) (t j : ℕ) (build_set : List ℕ)
    → member j (toggled adding t build_set)
      ≡ (if adding then t == j || member j build_set else not (j == t) && member j build_set)
unfolding toggled member
member-toggled true t j build_set = ground (arith, nat_beq_iff t j)
member-toggled false t j build_set = member-keep (λ u. not (u == t)) j build_set

module _ (u : Unicode) where
  read_each-str : (ns : List ℕ) → read_each u (map str ns) ≡ ok ns
  unfolding read_each
  read_each-str [] = refl
  read_each-str (n ∷ ns) = rw (isdigit-str, int-str, read_each-str ns)

  read_build_set-join : (ns : List ℕ) → read_build_set u (join (map str ns)) ≡ ok (frozenset ns)
  unfolding read_build_set
  read_build_set-join [] = unfold read_each join split isdigit lstrip rstrip frozenset in refl
  read_build_set-join (n ∷ ns) = rw (split-join, read_each-str)

  build_param-join :
      (updated : List ℕ) → get_or (build_param updated) "" ≡ join (map str (sorted leb updated))
  unfolding build_param is_empty
  build_param-join [] = unfold sorted join in refl
  build_param-join (n ∷ ns) = refl

  -- The selection that is read from a link's address, by the new page, is the page's with the type
  -- added or removed, whatever the number of types and their order.
  pub read_build_set-toggled :
      (adding : Bool) (t : ℕ) (build_set : List ℕ)
      → (updated : List ℕ) × (read_build_set u
            (get_or (build_param (toggled adding t build_set)) "")
          ≡ ok updated)
        × ((j : ℕ)
            → member j updated ≡ (
                if adding
                then t == j || member j build_set
                else not (j == t) && member j build_set))
  read_build_set-toggled adding t build_set =
      let after = toggled adding t build_set in
      (
        frozenset (sorted leb after),
        rw build_param-join (read_build_set-join (sorted leb after)),
        λ j.
            member-frozenset j (sorted leb after)
            ∙ member-sorted leb j after
            ∙ member-toggled adding t j build_set,
      )
