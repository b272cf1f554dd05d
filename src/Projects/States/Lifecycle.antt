-- ===== src/Projects/States/Lifecycle.antt =====
-- The life cycle of a proposal: the changes of state that the routes are there to make.
use pafs_backend_api.Prelude.{
  ℕ, Bool, true, false, Option, none, some, ◌≡◌, inl, inr, ◌==◌, ==_iff, if◌then◌else◌, Bool-cases,
  subst, sym, ap, refl, ◌∙◌,
}
use pafs_backend_api.Projects.States.{
  ProjectStatus, revise, other_state, draft, submitted, approved, rejected, completed, archived,
  resolve_status, is_editable,
}

-- A proposal open to changes is submitted; a submitted one is sent back, approved or rejected; a
-- legacy one that was completed by mistake is submitted.
pub data Step (s u : Option ProjectStatus) : Type 0 where
  submission :
      (is_legacy is_revised : Bool)
      → is_editable (resolve_status s is_legacy is_revised) ≡ true
      → u ≡ some submitted
      → Step s u
  sent_back : s ≡ some submitted → u ≡ some draft → Step s u
  approval : s ≡ some submitted → u ≡ some approved → Step s u
  rejection : s ≡ some submitted → u ≡ some rejected → Step s u
  correction : s ≡ some completed → u ≡ some submitted → Step s u

pub data Reaches : Option ProjectStatus → Option ProjectStatus → Type 0 where
  here : {s : Option ProjectStatus} → Reaches s s
  after_step : {s u w : Option ProjectStatus} → Step s u → Reaches u w → Reaches s w

pub Reaches-trans : {s u w : Option ProjectStatus} → Reaches s u → Reaches u w → Reaches s w
Reaches-trans here g = g
Reaches-trans (after_step h f) g = after_step h (Reaches-trans f g)

pub Reaches-same : {s u : Option ProjectStatus} → u ≡ s → Reaches s u
Reaches-same {s} e = subst (λ x. Reaches s x) (sym e) here

-- A write of the state of `j` is a step of it, and of no other project.
pub Reaches-write :
    (k j : ℕ) (state_of : ℕ → Option ProjectStatus) {u w : Option ProjectStatus}
    → Step (state_of j) w
    → u ≡ (if k == j then w else state_of k)
    → Reaches (state_of k) u
Reaches-write k j state_of {u} {w} h e = elim (Bool-cases (k == j)) [
  | inl same ↦
      let k_is_j : k ≡ j = (==_iff k j).0 same in
      let now : u ≡ w = cc (e, same) in
      subst (λ x. Reaches (state_of x) u) (sym k_is_j)
        (subst (λ x. Reaches (state_of j) x) (sym now) (after_step h here))
  | inr other ↦ Reaches-same (cc (e, other))
]

-- No step leaves an approved, a rejected or an archived proposal.
abbrev pub is_settled : Option ProjectStatus → Bool
is_settled none = false
is_settled (some approved) = true
is_settled (some rejected) = true
is_settled (some archived) = true
is_settled (some s) = false

settled-editable :
    (s : Option ProjectStatus) (is_legacy is_revised : Bool)
    → is_settled s ≡ true
    → is_editable (resolve_status s is_legacy is_revised) ≡ false
unfolding resolve_status
settled-editable none l r h = cc h
settled-editable (some draft) l r h = cc h
settled-editable (some revise) l r h = cc h
settled-editable (some submitted) l r h = refl
settled-editable (some completed) l r h = refl
settled-editable (some approved) l r h = refl
settled-editable (some rejected) l r h = refl
settled-editable (some archived) l r h = refl
settled-editable (some (other_state x)) l r h = cc h

-- A settled state that a step leaves: there is none.
Step-settled : {s u : Option ProjectStatus} → is_settled s ≡ true → Step s u → u ≡ s
Step-settled {s} h (submission l r e f) = cc (settled-editable s l r h, e)
Step-settled h (sent_back e f) = cc (ap is_settled e, h)
Step-settled h (approval e f) = cc (ap is_settled e, h)
Step-settled h (rejection e f) = cc (ap is_settled e, h)
Step-settled h (correction e f) = cc (ap is_settled e, h)

pub Reaches-settled : {s u : Option ProjectStatus} → is_settled s ≡ true → Reaches s u → u ≡ s
Reaches-settled h here = refl
Reaches-settled {s} h (after_step {u = v} g f) =
    let still : v ≡ s = Step-settled h g in Reaches-settled (cc (ap is_settled still, h)) f ∙ still
