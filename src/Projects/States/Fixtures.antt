-- ===== src/Projects/States/Fixtures.antt =====
-- Tables with one project, number 5, which is legacy and in area 3, below area 4: the rows are the
-- states by the number of the project, and every call returns. A second set of tables is the same
-- but takes no write.
use pafs_backend_api.Prelude.{
  ℕ, String, true, false, Option, none, some, ◌≡◌, refl, sym, ap, subst, ◌==◌, ◌===◌, if◌then◌else◌,
  Bool-cases, inl, inr,
}
use pafs_backend_api.Projects.Submission.Fixtures.{defence}
use pafs_backend_api.Projects.States.{ProjectStatus, ProjectRow, LoadedProject, ProjectTables}

abbrev pub States : Type 0
States = ℕ → Option ProjectStatus

abbrev pub row : ProjectRow
row = record { id = 5; reference_number = "ANC501E/000A/005A"; is_legacy = true }

abbrev pub loaded : Option ProjectStatus → LoadedProject
loaded state = record {
  id = 5;
  reference_number = "ANC501E/000A/005A";
  is_legacy = true;
  is_revised = false;
  state = state;
  area_id = 3;
  pso_area_id = some 4;
  project = defence;
}

abbrev when_known {ℓ} : {A : Type ℓ} → String → A → Option A
when_known r a = if r === "ANC501E/000A/005A" then some a else none

abbrev set_state : ℕ → ProjectStatus → States → States
set_state k s t j = if j == k then some s else t j

pub some-injective {ℓ} : {A : Type ℓ} {a b : A} → some a ≡ some b → a ≡ b
some-injective h = cc h

pub loaded-state :
    (r : String) (t : States) (p : LoadedProject)
    → some (when_known r (loaded (t 5))) ≡ some (some p)
    → p.state ≡ t p.id
loaded-state r t p h = elim (Bool-cases (r === "ANC501E/000A/005A")) [
  | inl e ↦ let same : loaded (t 5) ≡ p = cc (e, h) in subst (λ q. q.state ≡ t q.id) same refl
  | inr e ↦ cc (e, h)
]

abbrev pub tables : ProjectTables
tables = record {
  Rows = States;
  find_project = λ r t. some (when_known r row);
  load_project = λ r t. some (when_known r (loaded (t 5)));
  find_state = λ k t. some (t k);
  upsert_state = λ k s t. some (set_state k s t);
  stamp_submitted = λ r b t. some t;
  state_of = λ k t. t k;
  find_state-state_of = λ k t h. sym (some-injective h);
  load_project-state_of = λ r t {p} h. loaded-state r t p h;
  state_of-upsert_state = λ j k s t h. sym (ap (λ f. f j) (some-injective h));
  state_of-stamp_submitted = λ j r b t h. sym (ap (λ f. f j) (some-injective h));
}

-- Before any call every project is in one state.
abbrev pub all_in_state : ProjectStatus → States
all_in_state s k = some s
