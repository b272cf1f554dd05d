-- ===== src/Auth/Fixtures/OneRow.antt =====
-- A users table with at most one row, as an instance of the interface of Auth/Store.
use pafs_backend_api.Prelude.{
  ℕ, String, ◌≡◌, ◌≢◌, Bool, true, false, Option, none, some, ◌==◌, ◌&&◌, if◌then◌else◌, arith,
}
use pafs_backend_api.Auth.User.{User}
use pafs_backend_api.Auth.Store.{Users, KeepsKeys}

abbrev find_row : ℕ → Option User → Option User
find_row k none = none
find_row k (some u) = if u.id == k then some u else none

abbrev find_first_row : (User → Bool) → Option User → Option User
find_first_row p none = none
find_first_row p (some u) = if p u then some u else none

abbrev update_row : ℕ → (User → User) → Option User → Option (Option User)
update_row k patch none = none
update_row k patch (some u) =
    if u.id == k then (if (patch u).id == k then some (some (patch u)) else none) else none

pub row_id : (k : ℕ) (t : Option User) {u : User} → find_row k t ≡ some u → u.id ≡ k
row_id k none h = cc
row_id k (some v) h = ground arith

pub row_holds :
    (p : User → Bool) (t : Option User) {u : User} → find_first_row p t ≡ some u → p u ≡ true
row_holds p none h = cc
row_holds p (some v) h = ground arith

pub row_find :
    (p : User → Bool) (t : Option User) {u : User}
    → find_first_row p t ≡ some u
    → find_row u.id t ≡ some u
row_find p none h = cc
row_find p (some v) h = ground arith

pub row_none :
    (p : User → Bool) (k : ℕ) (t : Option User) {u : User}
    → find_first_row p t ≡ none
    → find_row k t ≡ some u
    → p u ≡ false
row_none p k none h e = cc
row_none p k (some v) h e = ground arith

pub row_unique :
    (j k : ℕ) (t : Option User) {u v : User}
    → find_row j t ≡ some u
    → find_row k t ≡ some v
    → u.email ≡ v.email
    → j ≡ k
row_unique j k none h e m = cc
row_unique j k (some w) h e m = ground arith

pub row_found :
    (k : ℕ) (patch : User → User) (t : Option User) {u : User}
    → KeepsKeys patch
    → find_row k t ≡ some u
    → (t' : Option User) × (update_row k patch t ≡ some t')
row_found k patch none keeps h = cc
row_found k patch (some v) keeps h = (some (patch v), ground (arith, keeps.id v))

pub row_self :
    (k : ℕ) (patch : User → User) (t : Option User) {t' : Option User} {u : User}
    → update_row k patch t ≡ some t'
    → find_row k t ≡ some u
    → find_row k t' ≡ some (patch u)
row_self k patch none {t'} e h = cc
row_self k patch (some v) {t' = none} e h = ground arith
row_self k patch (some v) {t' = some w} e h = ground arith

pub row_other :
    (k j : ℕ) (patch : User → User) (t : Option User) {t' : Option User}
    → update_row k patch t ≡ some t'
    → j ≢ k
    → find_row j t' ≡ find_row j t
row_other k j patch none {t'} e h = cc
row_other k j patch (some v) {t' = none} e h = ground arith
row_other k j patch (some v) {t' = some w} e h = ground arith

abbrev update_row_where : ℕ → (User → Bool) → (User → User) → Option User → Option (ℕ × Option User)
update_row_where k test patch none = some (0, none)
update_row_where k test patch (some u) =
    if u.id == k && test u
    then (if (patch u).id == k then some (1, some (patch u)) else none)
    else some (0, some u)

pub row_token :
    (j k : ℕ) (t : Option User) {u v : User} {token : String}
    → find_row j t ≡ some u
    → find_row k t ≡ some v
    → u.reset_password_token ≡ some token
    → v.reset_password_token ≡ some token
    → j ≡ k
row_token j k none h e m n = cc
row_token j k (some w) h e m n = ground arith

row_alone :
    (k : ℕ) (patch : User → User) (v : User) (j : ℕ)
    → (patch v).id ≡ v.id
    → v.id ≡ k
    → j ≢ k
    → find_row j (some (patch v)) ≡ find_row j (some v)
row_alone k patch v j same id ne = ground (arith, same, id, ne)

pub row_where :
    (k : ℕ) (test : User → Bool) (patch : User → User) (t : Option User) {u : User}
    → KeepsKeys patch
    → find_row k t ≡ some u
    → test u ≡ true
    → (t' : Option User) × (update_row_where k test patch t ≡ some (1, t'))
      × (find_row k t' ≡ some (patch u))
      × ((j : ℕ) → j ≢ k → find_row j t' ≡ find_row j t)
row_where k test patch none keeps h m = cc
row_where k test patch (some v) {u} keeps h m =
    let id : v.id ≡ k = ground arith in
    (
      some (patch v),
      ground (arith, keeps.id v, h, m),
      ground (arith, keeps.id v, h),
      λ j ne. row_alone k patch v j (keeps.id v) id ne,
    )

pub row_where_missed :
    (k : ℕ) (test : User → Bool) (patch : User → User) (t : Option User) {u : User}
    → find_row k t ≡ some u
    → test u ≡ false
    → update_row_where k test patch t ≡ some (0, t)
row_where_missed k test patch none h m = cc
row_where_missed k test patch (some v) h m = ground (arith, h, m)

abbrev pub one_row : Users
one_row = record {
  Rows = Option User;
  find = find_row;
  find_first = find_first_row;
  update = update_row;
  update_where = update_row_where;
  find-id = row_id;
  find_first-holds = row_holds;
  find_first-find = row_find;
  find_first-none = row_none;
  email_unique = row_unique;
  reset_token_unique = row_token;
  update-found = row_found;
  find-update_self = row_self;
  find-update_other = row_other;
  update_where-found = row_where;
  update_where-missed = row_where_missed;
}
