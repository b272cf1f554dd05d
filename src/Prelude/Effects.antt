-- ===== src/Prelude/Effects.antt =====
-- What an asynchronous operation over a stored state does: it returns a value, or it throws. The
-- state is what the writes up to then have left.
use mathlib.Core.Path.{◌≡◌, refl}
use mathlib.Core.Option.{Option, none, some}

pub data Outcome (S A : Type 0) : Type 0 where
  returned : A → S → Outcome S A
  threw : S → Outcome S A

-- The state after the operation, whichever way it ended.
abbrev pub after : {S A : Type 0} → Outcome S A → S
after (returned a s) = s
after (threw s) = s

abbrev pub value : {S A : Type 0} → Outcome S A → Option A
value (returned a s) = some a
value (threw s) = none

abbrev pub then_run : {S A B : Type 0} → Outcome S A → (A → S → Outcome S B) → Outcome S B
then_run (returned a s) k = k a s
then_run (threw s) k = threw s

-- A write that the store may refuse by throwing.
abbrev pub attempt : {S A : Type 0} → S → Option S → (S → Outcome S A) → Outcome S A
attempt s none k = threw s
attempt s (some t) k = k t

abbrev pub failed : {S A : Type 0} → Outcome S A → Outcome S A
failed (returned a s) = threw s
failed (threw s) = threw s

-- `Promise.all([first, second])`: the second runs in any case, and a throw of either is one of both.
abbrev pub after_both : {S A : Type 0} → Outcome S A → (S → Outcome S A) → Outcome S A
after_both (returned a s) k = k s
after_both (threw s) k = failed (k s)

-- What holds of the state after an operation that is composed of others.
module _ {S : Type 0} (P : S → Type 0) where
  after-failed : {A : Type 0} (o : Outcome S A) → P (after o) → P (after (failed o))
  after-failed (returned a s) h = h
  after-failed (threw s) h = h

  pub after-then_run :
      {A B : Type 0} (o : Outcome S A) (k : A → S → Outcome S B)
      → P (after o)
      → ((a : A) (s : S) → P s → P (after (k a s)))
      → P (after (then_run o k))
  after-then_run (returned a s) k h keep = keep a s h
  after-then_run (threw s) k h keep = h

  pub after-attempt :
      {B : Type 0} (s : S) (o : Option S) (k : S → Outcome S B)
      → P s
      → ((t : S) → o ≡ some t → P (after (k t)))
      → P (after (attempt s o k))
  after-attempt s none k h keep = h
  after-attempt s (some t) k h keep = keep t refl

  pub after-after_both :
      {B : Type 0} (o : Outcome S B) (k : S → Outcome S B)
      → P (after o)
      → ((s : S) → P s → P (after (k s)))
      → P (after (after_both o k))
  after-after_both (returned a s) k h keep = keep s h
  after-after_both (threw s) k h keep = after-failed (k s) (keep s h)

-- Both parts of a Promise.all that returned have returned.
pub after_both-returned :
    {S A : Type 0} (o : Outcome S A) (k : S → Outcome S A) {a : A} {u : S}
    → after_both o k ≡ returned a u
    → (b : A) × (v : S) × (o ≡ returned b v) × (k v ≡ returned a u)
after_both-returned (returned b v) k h = (b, v, refl, h)
after_both-returned {S = S} {A = A} (threw v) k {a} {u} h = absurd (never (k v) h)
  where
    never : (o : Outcome S A) → failed o ≡ returned a u → ⊥
    never (returned b w) e = cc
    never (threw w) e = cc

pub then_run-returned :
    {S A B : Type 0} (o : Outcome S A) (k : A → S → Outcome S B) {b : B} {u : S}
    → then_run o k ≡ returned b u
    → (a : A) × (v : S) × (o ≡ returned a v) × (k a v ≡ returned b u)
then_run-returned (returned a v) k h = (a, v, refl, h)
then_run-returned (threw v) k h = cc
