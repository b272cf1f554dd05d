-- ===== src/Areas.antt =====
-- The rows of areas (prisma/schema.prisma, pafs_core_areas) as their readers see them, and
-- src/plugins/areas/helpers/area-utils.js. Prisma is not code of the repository: its calls are the
-- fields of a record, with what its documentation promises of them. A call that throws makes the
-- whole read throw, which is left out.
pub mod Hierarchy
pub mod Access
pub mod Fixtures
mod Tests
use pafs_backend_api.Prelude.{
  ℕ, String, Bool, true, ◌≡◌, ◌||◌, ◌&&◌, List, [], ◌∷◌, Option, none, some, map, codes, leb, ◌-◌,
  ◌==◌, ◌===◌, if◌then◌else◌, any, All, false,
}

pub record Area : Type 0 where
  pub id : ℕ
  pub name : String
  pub parent_id : Option ℕ
  pub area_type : String
  pub sub_type : Option String

-- AREA_TYPE_MAP
abbrev pub rma : String
rma = "RMA"

abbrev pub pso : String
pso = "PSO Area"

abbrev pub ea : String
ea = "EA Area"

-- `toUpperCase` on the letters of ASCII, as the code points of the text
abbrev pub upper : ℕ → ℕ
upper c = if leb b'a' c && leb c b'z' then c - 32 else c

abbrev pub upper_codes : String → List ℕ
upper_codes s = map upper (codes s)

abbrev pub same_codes : List ℕ → List ℕ → Bool
same_codes [] [] = true
same_codes [] (d ∷ ds) = false
same_codes (c ∷ cs) [] = false
same_codes (c ∷ cs) (d ∷ ds) = (c == d) && same_codes cs ds

unfoldable pub is_area_type : String → String → Bool
is_area_type area_type expected = same_codes (upper_codes area_type) (upper_codes expected)

unfoldable pub is_pso_area : String → Bool
is_pso_area area_type =
    same_codes (upper_codes area_type) (codes "PSO")
    || same_codes (upper_codes area_type) (upper_codes pso)

abbrev pub has_id : List ℕ → ℕ → Bool
has_id ids k = any (λ j. j == k) ids

pub record AreaRows : Type 0 where
  -- findFirst({ where: { id } })
  pub find_by_id : ℕ → Option Area
  -- findMany({ where })
  pub find_many : (Area → Bool) → List Area
  pub find_by_id-id : (k : ℕ) {a : Area} → find_by_id k ≡ some a → a.id ≡ k
  -- the rows that are found are stored and satisfy the condition
  pub find_many-stored : (p : Area → Bool) → All (λ a. find_by_id a.id ≡ some a) (find_many p)
  pub find_many-holds : (p : Area → Bool) → All (λ a. p a ≡ true) (find_many p)
  -- and no other row satisfies it
  pub find_many-complete :
      (p : Area → Bool) (k : ℕ) {a : Area}
      → find_by_id k ≡ some a
      → p a ≡ true
      → has_id (map (λ b. b.id) (find_many p)) k ≡ true
