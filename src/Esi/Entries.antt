-- ===== src/Esi/Entries.antt =====
-- The entries of esi.py: the JSON objects of ESI's answers as records, and the data classes' `asdict`.
use aobp.Prelude.{
  ℕ, String, Bool, true, Option, none, some, List, [], ◌∷◌, if◌then◌else◌, string_eq, ◌&&◌, member,
  get_or,
}
use aobp.Result.{Result, ok, raise, key_error, ◌>>=◌}
use aobp.Dict.{Dict, get}
use aobp.EsiCache.{EntryType}

-- A JSON value. What the code only hands on, such as a decimal or a list, is kept as its text.
pub data Json : Type 0 where
  null : Json
  number : ℕ → Json
  text : String → Json
  truth : Bool → Json
  other : String → Json

-- `entry[key]`
unfoldable pub item : String → Dict String Json → Result Json
item key entry = elim (get key entry) [ none ↦ raise key_error | some v ↦ ok v ]

-- `entry.get(key)`
abbrev pub optional : String → Dict String Json → Json
optional key entry = get_or (get key entry) null

-- The comprehension over an answer's entries: the first one that fails raises.
unfoldable pub each {ℓ} :
    {T : Type ℓ} → (Dict String Json → Result T) → List (Dict String Json) → Result (List T)
each make [] = ok []
each make (entry ∷ entries) = do t ← make entry; ts ← each make entries; ok (t ∷ ts)

abbrev pub accepted {ℓ} : {T : Type ℓ} → Result T → Option T
accepted (ok t) = some t
accepted (raise _) = none

-- Whether a call with the entries as keywords has no keyword that is not a field.
unfoldable pub only : List String → Dict String Json → Bool
only fields [] = true
only fields ((k, _) ∷ entry) = member k fields && only fields entry

pub record AssetEntry : Type 0 where
  pub item_id : Json
  pub type_id : Json
  pub location_id : Json
  pub location_flag : Json
  pub location_type : Json
  pub quantity : Json
  pub is_singleton : Json

-- One entry of ESI's answer.
unfoldable pub asset_entry : Dict String Json → Result AssetEntry
unfolding item
asset_entry entry = do
  item_id_ ← item "item_id" entry
  type_id_ ← item "type_id" entry
  location_id_ ← item "location_id" entry
  location_flag_ ← item "location_flag" entry
  location_type_ ← item "location_type" entry
  quantity_ ← item "quantity" entry
  is_singleton_ ← item "is_singleton" entry
  ok (record {
    item_id = item_id_;
    type_id = type_id_;
    location_id = location_id_;
    location_flag = location_flag_;
    location_type = location_type_;
    quantity = quantity_;
    is_singleton = is_singleton_;
  })

unfoldable pub asset_asdict : AssetEntry → Dict String Json
asset_asdict e =
    ("item_id", e.item_id)
    ∷ ("type_id", e.type_id)
    ∷ ("location_id", e.location_id)
    ∷ ("location_flag", e.location_flag)
    ∷ ("location_type", e.location_type)
    ∷ ("quantity", e.quantity)
    ∷ ("is_singleton", e.is_singleton)
    ∷ []

-- `AssetEntry(**entry)`: every field has to be there, and nothing else.
unfoldable pub asset_from : Dict String Json → Option AssetEntry
unfolding only asset_entry
asset_from entry =
    if only
      ("item_id" ∷ "type_id" ∷ "location_id" ∷ "location_flag" ∷ "location_type" ∷ "quantity"
        ∷ "is_singleton" ∷ [])
      entry
    then accepted (asset_entry entry)
    else none

abbrev pub asset_class : EntryType (Dict String Json) AssetEntry
asset_class = record { entry_type = asset_from; asdict = asset_asdict }

pub record BlueprintEntry : Type 0 where
  pub item_id : Json
  pub type_id : Json
  pub location_id : Json
  pub location_flag : Json
  pub quantity : Json
  pub runs : Json
  pub material_efficiency : Json
  pub time_efficiency : Json

-- One entry of ESI's answer.
unfoldable pub blueprint_entry : Dict String Json → Result BlueprintEntry
unfolding item
blueprint_entry entry = do
  item_id_ ← item "item_id" entry
  type_id_ ← item "type_id" entry
  location_id_ ← item "location_id" entry
  location_flag_ ← item "location_flag" entry
  quantity_ ← item "quantity" entry
  runs_ ← item "runs" entry
  material_efficiency_ ← item "material_efficiency" entry
  time_efficiency_ ← item "time_efficiency" entry
  ok (record {
    item_id = item_id_;
    type_id = type_id_;
    location_id = location_id_;
    location_flag = location_flag_;
    quantity = quantity_;
    runs = runs_;
    material_efficiency = material_efficiency_;
    time_efficiency = time_efficiency_;
  })

unfoldable pub blueprint_asdict : BlueprintEntry → Dict String Json
blueprint_asdict e =
    ("item_id", e.item_id)
    ∷ ("type_id", e.type_id)
    ∷ ("location_id", e.location_id)
    ∷ ("location_flag", e.location_flag)
    ∷ ("quantity", e.quantity)
    ∷ ("runs", e.runs)
    ∷ ("material_efficiency", e.material_efficiency)
    ∷ ("time_efficiency", e.time_efficiency)
    ∷ []

-- `BlueprintEntry(**entry)`: every field has to be there, and nothing else.
unfoldable pub blueprint_from : Dict String Json → Option BlueprintEntry
unfolding only blueprint_entry
blueprint_from entry =
    if only
      ("item_id" ∷ "type_id" ∷ "location_id" ∷ "location_flag" ∷ "quantity" ∷ "runs"
        ∷ "material_efficiency" ∷ "time_efficiency" ∷ [])
      entry
    then accepted (blueprint_entry entry)
    else none

abbrev pub blueprint_class : EntryType (Dict String Json) BlueprintEntry
blueprint_class = record { entry_type = blueprint_from; asdict = blueprint_asdict }

pub record IndustryJobEntry : Type 0 where
  pub job_id : Json
  pub activity_id : Json
  pub blueprint_id : Json
  pub blueprint_type_id : Json
  pub product_type_id : Json
  pub facility_id : Json
  pub runs : Json
  pub status : Json
  pub start_date : Json
  pub end_date : Json

-- One entry of ESI's answer.
unfoldable pub industry_job_entry : Dict String Json → Result IndustryJobEntry
unfolding item
industry_job_entry entry = do
  job_id_ ← item "job_id" entry
  activity_id_ ← item "activity_id" entry
  blueprint_id_ ← item "blueprint_id" entry
  blueprint_type_id_ ← item "blueprint_type_id" entry
  let product_type_id_ = optional "product_type_id" entry
  facility_id_ ← item "facility_id" entry
  runs_ ← item "runs" entry
  status_ ← item "status" entry
  start_date_ ← item "start_date" entry
  end_date_ ← item "end_date" entry
  ok (record {
    job_id = job_id_;
    activity_id = activity_id_;
    blueprint_id = blueprint_id_;
    blueprint_type_id = blueprint_type_id_;
    product_type_id = product_type_id_;
    facility_id = facility_id_;
    runs = runs_;
    status = status_;
    start_date = start_date_;
    end_date = end_date_;
  })

unfoldable pub industry_job_asdict : IndustryJobEntry → Dict String Json
industry_job_asdict e =
    ("job_id", e.job_id)
    ∷ ("activity_id", e.activity_id)
    ∷ ("blueprint_id", e.blueprint_id)
    ∷ ("blueprint_type_id", e.blueprint_type_id)
    ∷ ("product_type_id", e.product_type_id)
    ∷ ("facility_id", e.facility_id)
    ∷ ("runs", e.runs)
    ∷ ("status", e.status)
    ∷ ("start_date", e.start_date)
    ∷ ("end_date", e.end_date)
    ∷ []

-- All fields of the data class, the optional one of ESI's answer as well.
unfoldable pub industry_job_fields : Dict String Json → Result IndustryJobEntry
unfolding item
industry_job_fields entry = do
  job_id_ ← item "job_id" entry
  activity_id_ ← item "activity_id" entry
  blueprint_id_ ← item "blueprint_id" entry
  blueprint_type_id_ ← item "blueprint_type_id" entry
  product_type_id_ ← item "product_type_id" entry
  facility_id_ ← item "facility_id" entry
  runs_ ← item "runs" entry
  status_ ← item "status" entry
  start_date_ ← item "start_date" entry
  end_date_ ← item "end_date" entry
  ok (record {
    job_id = job_id_;
    activity_id = activity_id_;
    blueprint_id = blueprint_id_;
    blueprint_type_id = blueprint_type_id_;
    product_type_id = product_type_id_;
    facility_id = facility_id_;
    runs = runs_;
    status = status_;
    start_date = start_date_;
    end_date = end_date_;
  })

-- `IndustryJobEntry(**entry)`: every field has to be there, and nothing else.
unfoldable pub industry_job_from : Dict String Json → Option IndustryJobEntry
unfolding only industry_job_fields
industry_job_from entry =
    if only
      ("job_id" ∷ "activity_id" ∷ "blueprint_id" ∷ "blueprint_type_id" ∷ "product_type_id"
        ∷ "facility_id" ∷ "runs" ∷ "status" ∷ "start_date" ∷ "end_date" ∷ [])
      entry
    then accepted (industry_job_fields entry)
    else none

abbrev pub industry_job_class : EntryType (Dict String Json) IndustryJobEntry
industry_job_class = record { entry_type = industry_job_from; asdict = industry_job_asdict }
