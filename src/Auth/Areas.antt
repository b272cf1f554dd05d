-- ===== src/Auth/Areas.antt =====
-- A user's areas as the tokens carry them, and getAreaTypeFlags
-- (src/plugins/areas/helpers/user-areas.js).
use pafs_backend_api.Prelude.{
  ℕ, String, Bool, List, [], ◌∷◌, Option, none, some, ◌===◌, holds_text, if◌then◌else◌,
}

pub record UserArea : Type 0 where
  pub area_id : ℕ
  pub primary : Bool
  pub name : String
  pub area_type : String

pub record AreaTypeFlags : Type 0 where
  pub primary_area_type : Option String
  pub is_rma : Bool
  pub is_pso : Bool
  pub is_ea : Bool

-- `areas.find((a) => a.primary)`
unfoldable pub find_primary : List UserArea → Option UserArea
find_primary [] = none
find_primary (a ∷ areas) = if a.primary then some a else find_primary areas

-- `primaryArea?.areaType || null`: an empty text counts as null.
unfoldable pub area_type_of : Option UserArea → Option String
area_type_of none = none
area_type_of (some a) = if a.area_type === "" then none else some a.area_type

unfoldable pub get_area_type_flags : List UserArea → AreaTypeFlags
unfolding find_primary area_type_of
get_area_type_flags areas =
    let primary = area_type_of (find_primary areas) in
    record {
      primary_area_type = primary;
      is_rma = holds_text primary "RMA";
      is_pso = holds_text primary "PSO Area";
      is_ea = holds_text primary "EA Area";
    }
