-- ===== src/Projects/Edits/Rights.antt =====
-- What a save of a project does not ask: for access to the area that the project is in.
use pafs_backend_api.Prelude.{
  ℕ, ◌≡◌, refl, sym, ap, ◌∙◌, String, Bool, false, [], ◌∷◌, Option, some, ◌==◌, if◌then◌else◌,
}
use pafs_backend_api.JwtAuth.Cache.{Credentials}
use pafs_backend_api.Areas.{AreaRows}
use pafs_backend_api.Projects.Permissions.{can_update_project}
use pafs_backend_api.Projects.Edits.{
  EditError, EditPayload, ExistingProject, or_id, read_area, details, unless_allowed, first_of,
  is_create, validate_create, check_change, specific_result, validate_update,
  validate_update_permissions, validate_common_fields, is_name_unchanged,
  validate_update_area_change, validate_update_specific_fields, changed_area, perform_validations,
  not_allowed_to_update,
}

or_named : (o e : Option ℕ) (k : ℕ) → o ≡ some k → k == 0 ≡ false → or_id o e ≡ some k
or_named o e k h n = rw (h, n) refl

changed_to :
    (o : Option ℕ) (i k : ℕ)
    → o ≡ some k
    → i == k ≡ false
    → k == 0 ≡ false
    → changed_area o (some i) ≡ some k
changed_to o i k h d n = rw (h, n, d) refl

abbrev pub in_area : ExistingProject → ℕ → ExistingProject
in_area e j = record e { area_id = some j }

module _ (rows : AreaRows) (name_taken : Option String → Option String → Bool) (c : Credentials)
    (level : String) (p : EditPayload) where
  same_permission :
      (k i j : ℕ) (e : ExistingProject)
      → p.area_id ≡ some k
      → k == 0 ≡ false
      → validate_update_permissions rows c (in_area e i) p.area_id
        ≡ validate_update_permissions rows c (in_area e j) p.area_id
  unfolding validate_update_permissions
  same_permission k i j e named n =
      let answer : Option ℕ → Option EditError = λ o.
        unless_allowed (can_update_project c (details (read_area rows o))) not_allowed_to_update in
      ap answer
        (or_named p.area_id (some i) k named n ∙ sym (or_named p.area_id (some j) k named n))

  same_change :
      (k i j : ℕ)
      → p.area_id ≡ some k
      → i == k ≡ false
      → j == k ≡ false
      → k == 0 ≡ false
      → validate_update_area_change rows c p.area_id (some i)
        ≡ validate_update_area_change rows c p.area_id (some j)
  unfolding validate_update_area_change
  same_change k i j named ni nj n =
      ap (check_change rows c)
        (changed_to p.area_id i k named ni n ∙ sym (changed_to p.area_id j k named nj n))

  same_specific :
      (k i j : ℕ) (e : ExistingProject)
      → p.area_id ≡ some k
      → i == k ≡ false
      → j == k ≡ false
      → k == 0 ≡ false
      → validate_update_specific_fields rows c level p (in_area e i)
        ≡ validate_update_specific_fields rows c level p (in_area e j)
  unfolding validate_update_specific_fields
  same_specific k i j e named ni nj n =
      ap (specific_result level p e.fields) (same_change k i j named ni nj n)

  same_update :
      (k i j : ℕ) (e : ExistingProject)
      → p.area_id ≡ some k
      → i == k ≡ false
      → j == k ≡ false
      → k == 0 ≡ false
      → validate_update rows name_taken c level p (some (in_area e i))
        ≡ validate_update rows name_taken c level p (some (in_area e j))
  unfolding validate_common_fields is_name_unchanged
  same_update k i j e named ni nj n =
      ap
        (λ o.
          first_of (o ∷ validate_common_fields name_taken p (some (in_area e i)) ∷ [])
            (validate_update_specific_fields rows c level p (in_area e i)))
        (same_permission k i j e named n)
      ∙ ap
          (λ q.
            first_of
              (validate_update_permissions rows c (in_area e j) p.area_id
                ∷ validate_common_fields name_taken p (some (in_area e i))
                ∷ [])
              q)
          (same_specific k i j e named ni nj n)

  -- Where a payload names an area, the result is the same whatever other area the project is in: no
  -- access to the area of the project is asked for.
  pub old_area_ignored :
      (k i j : ℕ) (e : ExistingProject)
      → p.area_id ≡ some k
      → i == k ≡ false
      → j == k ≡ false
      → k == 0 ≡ false
      → perform_validations rows name_taken c level p (some (in_area e i))
        ≡ perform_validations rows name_taken c level p (some (in_area e j))
  unfolding perform_validations
  old_area_ignored k i j e named ni nj nk =
      ap (λ q. if is_create p then validate_create rows name_taken c level p else q)
        (same_update k i j e named ni nj nk)
