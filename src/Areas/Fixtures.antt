-- ===== src/Areas/Fixtures.antt =====
-- Rows with three areas, one below the other, and a user of the middle one.
use pafs_backend_api.Prelude.{
  ℕ, ◌≡◌, refl, ap, Bool, true, false, List, [], ◌∷◌, Option, none, some, ◌==◌, ==_iff,
  if◌then◌else◌, Bool-cases, inl, inr, map, filter, All, sym, ◌∙◌,
}
use pafs_backend_api.Areas.{Area, AreaRows, rma, pso, ea, has_id}
use pafs_backend_api.JwtAuth.Cache.{Credentials}

abbrev pub anglian : Area
anglian = record { id = 9; name = "Anglian"; parent_id = none; area_type = ea; sub_type = none }

abbrev pub north : Area
north = record { id = 4; name = "North"; parent_id = some 9; area_type = pso; sub_type = some "AN" }

abbrev pub council : Area
council = record {
  id = 3;
  name = "Council";
  parent_id = some 4;
  area_type = rma;
  sub_type = some "C";
}

abbrev pub all : List Area
all = anglian ∷ north ∷ council ∷ []

abbrev pub find_in : List Area → ℕ → Option Area
find_in [] k = none
find_in (x ∷ xs) k = if x.id == k then some x else find_in xs k

pub filter-All :
    (Q : Area → Type 0) (p : Area → Bool) (xs : List Area) → All Q xs → All Q (filter p xs)
filter-All Q p [] h = tt
filter-All Q p (x ∷ xs) h = elim (Bool-cases (p x)) [
  | inl e ↦ rw e (h.0, filter-All Q p xs h.1)
  | inr e ↦ rw e (filter-All Q p xs h.1)
]

pub filter-holds : (p : Area → Bool) (xs : List Area) → All (λ a. p a ≡ true) (filter p xs)
filter-holds p [] = tt
filter-holds p (x ∷ xs) = elim (Bool-cases (p x)) [
  | inl e ↦ rw e (e, filter-holds p xs)
  | inr e ↦ rw e (filter-holds p xs)
]

pub find_in-id : (xs : List Area) (k : ℕ) (a : Area) → find_in xs k ≡ some a → a.id ≡ k
find_in-id [] k a h = cc h
find_in-id (x ∷ xs) k a h = elim (Bool-cases (x.id == k)) [
  | inl e ↦
      let id : x.id ≡ k = (==_iff x.id k).0 e in
      let same : x ≡ a = cc (e, h) in sym (ap (λ b. b.id) same) ∙ id
  | inr e ↦ find_in-id xs k a (cc (e, h))
]

pub find_in-listed :
    (p : Area → Bool) (xs : List Area) (k : ℕ) (a : Area)
    → find_in xs k ≡ some a
    → p a ≡ true
    → has_id (map (λ b. b.id) (filter p xs)) k ≡ true
find_in-listed p [] k a h t = cc h
find_in-listed p (x ∷ xs) k a h t = elim (Bool-cases (x.id == k)) [
  | inl e ↦
      let same : x ≡ a = cc (e, h) in let kept : p x ≡ true = ap p same ∙ t in rw (kept, e) refl
  | inr e ↦
      let rest = find_in-listed p xs k a (cc (e, h)) t in
      elim (Bool-cases (p x)) [ inl kept ↦ rw (kept, e) rest | inr left ↦ rw left rest ]
]

abbrev pub rows : AreaRows
rows = record {
  find_by_id = find_in all;
  find_many = λ p. filter p all;
  find_by_id-id = λ k {a} h. find_in-id all k a h;
  find_many-stored =
      λ p. filter-All (λ a. find_in all a.id ≡ some a) p all (refl, (refl, (refl, tt)));
  find_many-holds = λ p. filter-holds p all;
  find_many-complete = λ p k {a} h t. find_in-listed p all k a h t;
}

-- A user of the programme and coordination team of the area North.
abbrev pub coordinator : Credentials
coordinator = record {
  user_id = 1;
  email = "c@example.org";
  first_name = "C";
  last_name = "D";
  is_admin = false;
  session_id = "s";
  areas = record { area_id = 4; primary = true; name = "North"; area_type = "PSO Area" } ∷ [];
  flags = record {
    primary_area_type = some "PSO Area";
    is_rma = false;
    is_pso = true;
    is_ea = false;
  };
}
