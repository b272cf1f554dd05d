-- ===== src/Areas/Tests.antt =====
-- The theorems on areas at concrete rows.
use pafs_backend_api.Prelude.{
  subst, ◌===◌, eq_iff, ℕ, ◌≡◌, refl, true, List, [], ◌∷◌, none, some, ◌==◌, Bool-cases, inl, inr,
  map, All,
}
use pafs_backend_api.Areas.{Area, pso, is_area_type}
use pafs_backend_api.Areas.Fixtures.{anglian, north, all, find_in, rows, coordinator}
use pafs_backend_api.Areas.Hierarchy.{
  read_area_with_parents, fetch_parent_chain, build_area_with_parents_result,
}
use pafs_backend_api.Areas.Hierarchy.Cached.{
  read_all, read_uncached, no_entries, cached_reads-uncached,
}
use pafs_backend_api.Areas.Access.{resolve_user_area_ids}
use pafs_backend_api.Areas.Access.Updates.{IsUpdatable, IsTop, listed_areas-IsUpdatable}

found_in :
    (Q : Area → Type 0) (xs : List Area) (k : ℕ) (a : Area) → All Q xs → find_in xs k ≡ some a → Q a
found_in Q [] k a h e = cc e
found_in Q (x ∷ xs) k a h e = elim (Bool-cases (x.id == k)) [
  | inl same ↦ let found : x ≡ a = cc (same, e) in subst Q found h.0
  | inr other ↦ found_in Q xs k a h.1 (cc (other, e))
]

is_top : (j : ℕ) (p : Area) → find_in all j ≡ some p → p.area_type ≡ pso → IsTop rows p
unfolding is_area_type
is_top j p e h =
    found_in (λ a. a.area_type === pso ≡ true → IsTop rows a) all j p
      (λ t. tt, (λ t. refl, (λ t. cc t, tt))) e ((eq_iff p.area_type pso).1 h)

cached_reads-uncached_example :
    read_all rows ((0, 3) ∷ (5, 4) ∷ (3600001, 3) ∷ []) no_entries
    ≡ map (read_uncached rows) ((0, 3) ∷ (5, 4) ∷ (3600001, 3) ∷ [])
cached_reads-uncached_example = cached_reads-uncached rows ((0, 3) ∷ (5, 4) ∷ (3600001, 3) ∷ [])

listed_areas-IsUpdatable_example : IsUpdatable rows coordinator 3
unfolding resolve_user_area_ids
listed_areas-IsUpdatable_example =
    listed_areas-IsUpdatable rows coordinator 3 (3 ∷ []) refl refl refl
      (record { area = north; found = refl; typed = refl; numbered = refl }, tt) is_top refl refl

-- What is made at the start for the area North has its parent as an area of the programme and
-- coordination team, and what is read of it does not.
warm_entry_differs :
    ((build_area_with_parents_result rows north).pso_area ≡ some anglian)
    × (read_area_with_parents rows 4
        ≡ some (record { area = north; pso_area = none; ea_area = some anglian }))
unfolding build_area_with_parents_result read_area_with_parents fetch_parent_chain is_area_type
warm_entry_differs = (refl, refl)
