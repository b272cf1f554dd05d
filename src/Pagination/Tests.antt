-- ===== src/Pagination/Tests.antt =====
-- Pages of concrete lists.
use pafs_backend_api.Prelude.{◌+◌, ◌/◌, ◌≤◌, ◌≡◌, ◌↔◌, arith, some, pos, negsuc}
use pafs_backend_api.Pagination.{build_pagination_meta, normalize_pagination_params}
use pafs_backend_api.Pagination.Pages.{normalize-bounds, on_one_page}

on_one_page_example :
    ((((build_pagination_meta 3 20 45).start ≤ 44 + 1)
        × (44 + 1 ≤ (build_pagination_meta 3 20 45).end))
      ↔ (3 ≡ 44 / 20 + 1))
    × (44 / 20 + 1 ≤ (build_pagination_meta 3 20 45).total_pages)
on_one_page_example = on_one_page 3 20 45 44 (omega arith) (omega arith) (omega arith)

large_sizes_are_cut :
    (1 ≤ (normalize_pagination_params 20 10000 (some (negsuc 3)) (some (pos 99999))).page)
    × ((1 ≤ (normalize_pagination_params 20 10000 (some (negsuc 3)) (some (pos 99999))).page_size)
        × ((normalize_pagination_params 20 10000 (some (negsuc 3)) (some (pos 99999))).page_size
            ≤ 10000))
large_sizes_are_cut =
    normalize-bounds 20 10000 (some (negsuc 3)) (some (pos 99999)) (omega arith) (omega arith)
