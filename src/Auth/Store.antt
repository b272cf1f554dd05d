-- ===== src/Auth/Store.antt =====
-- The users table as its client sees it. Prisma is not code of the repository: its calls are the
-- fields of a record, and the laws are what its documentation promises of them.
pub mod Laws
use pafs_backend_api.Prelude.{ℕ, String, ◌≡◌, ◌≢◌, ◌⊎◌, Bool, true, false, Option, none, some}
use pafs_backend_api.Auth.User.{User}

-- A write that leaves the unique columns alone, or clears a nullable one, breaks no constraint.
pub record KeepsKeys (patch : User → User) : Type 0 where
  pub id : (u : User) → (patch u).id ≡ u.id
  pub email : (u : User) → (patch u).email ≡ u.email
  pub reset_token :
      (u : User)
      → ((patch u).reset_password_token ≡ u.reset_password_token)
        ⊎ ((patch u).reset_password_token ≡ none)
  pub invitation_token :
      (u : User)
      → ((patch u).invitation_token ≡ u.invitation_token) ⊎ ((patch u).invitation_token ≡ none)

pub record Users : Type 1 where
  pub Rows : Type 0
  -- findUnique({ where: { id } })
  pub find : ℕ → Rows → Option User
  -- findUnique and findFirst by any other column
  pub find_first : (User → Bool) → Rows → Option User
  -- update({ where: { id }, data }); `none` is a throw, as for a missing row (P2025)
  pub update : ℕ → (User → User) → Rows → Option Rows
  -- updateMany({ where: { id, ...the test }, data }), with the count that it returns
  pub update_where : ℕ → (User → Bool) → (User → User) → Rows → Option (ℕ × Rows)
  -- the row that is returned has the id asked for
  pub find-id : (k : ℕ) (t : Rows) {u : User} → find k t ≡ some u → u.id ≡ k
  -- the row that is returned satisfies the condition, and is the row stored under its id
  pub find_first-holds :
      (p : User → Bool) (t : Rows) {u : User} → find_first p t ≡ some u → p u ≡ true
  pub find_first-find :
      (p : User → Bool) (t : Rows) {u : User} → find_first p t ≡ some u → find u.id t ≡ some u
  -- null is returned only when no row satisfies the condition
  pub find_first-none :
      (p : User → Bool) (k : ℕ) (t : Rows) {u : User}
      → find_first p t ≡ none
      → find k t ≡ some u
      → p u ≡ false
  -- no two rows have one email address
  pub email_unique :
      (j k : ℕ) (t : Rows) {u v : User}
      → find j t ≡ some u
      → find k t ≡ some v
      → u.email ≡ v.email
      → j ≡ k
  -- nor one reset token
  pub reset_token_unique :
      (j k : ℕ) (t : Rows) {u v : User} {token : String}
      → find j t ≡ some u
      → find k t ≡ some v
      → u.reset_password_token ≡ some token
      → v.reset_password_token ≡ some token
      → j ≡ k
  -- a write that keeps the unique columns is made where the row exists
  pub update-found :
      (k : ℕ) (patch : User → User) (t : Rows) {u : User}
      → KeepsKeys patch
      → find k t ≡ some u
      → (t' : Rows) × (update k patch t ≡ some t')
  -- a write that is made changes the row to the patched one, and no other row
  pub find-update_self :
      (k : ℕ) (patch : User → User) (t : Rows) {t' : Rows} {u : User}
      → update k patch t ≡ some t'
      → find k t ≡ some u
      → find k t' ≡ some (patch u)
  pub find-update_other :
      (k j : ℕ) (patch : User → User) (t : Rows) {t' : Rows}
      → update k patch t ≡ some t'
      → j ≢ k
      → find j t' ≡ find j t
  -- a conditional write counts the row and changes it where the test holds, and does nothing where
  -- it does not
  pub update_where-found :
      (k : ℕ) (test : User → Bool) (patch : User → User) (t : Rows) {u : User}
      → KeepsKeys patch
      → find k t ≡ some u
      → test u ≡ true
      → (t' : Rows) × (update_where k test patch t ≡ some (1, t'))
        × (find k t' ≡ some (patch u))
        × ((j : ℕ) → j ≢ k → find j t' ≡ find j t)
  pub update_where-missed :
      (k : ℕ) (test : User → Bool) (patch : User → User) (t : Rows) {u : User}
      → find k t ≡ some u
      → test u ≡ false
      → update_where k test patch t ≡ some (0, t)
