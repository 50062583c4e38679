-- ===== src/Sde/Names.antt =====
-- The documents of `sde_types`, as the pages read them, and the name that is shown of a type.
use aobp.Prelude.{
  ℕ, ◌≡◌, ap, ◌∙◌, String, Option, none, some, List, get_or, nat_eq, string_eq, true, if◌then◌else◌,
  member,
}
use aobp.Text.{str, ◌⧺◌}
use aobp.Dict.{Dict, get}
use aobp.Cache.{Cache}
use aobp.Cache.Transparent.{Stores}
use aobp.Sde.{type_docs}
use aobp.Sde.ReadThrough.{Agrees, cached_docs_by_id-eq-collection}

-- A field is `none` where the document has none.
pub record TypeDoc : Type 0 where
  pub name : Option String
  pub group_id : Option ℕ
  pub category_id : Option ℕ

-- `str(doc.get("name", f"Type {type_id}"))` of a document that may be missing.
unfoldable pub name_in : ℕ → Option TypeDoc → String
name_in type_id none = "Type " ⧺ str type_id
name_in type_id (some doc) = get_or doc.name ("Type " ⧺ str type_id)

-- The pages' `_type_name`.
unfoldable pub type_name : Dict ℕ TypeDoc → ℕ → String
type_name docs type_id = name_in type_id (get type_id docs)

-- Whatever Redis does, the name that is shown is the collection's.
pub type_name-type_docs :
    (sde_types : ℕ → Option TypeDoc) (ttl : ℕ) (ids : List ℕ) (cache : Cache TypeDoc)
    → Stores (Agrees sde_types "sde_type") cache
    → (t : ℕ) → member t ids ≡ true
    → type_name (type_docs sde_types ttl ids cache).0 t ≡ name_in t (sde_types t)
unfolding type_name type_docs
type_name-type_docs sde_types ttl ids cache agree t asked = ap (name_in t) (
    cached_docs_by_id-eq-collection sde_types "sde_type" ttl ids cache agree t
    ∙ ap (λ b. if b then sde_types t else none) asked)
