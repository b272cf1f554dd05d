-- ===== src/Projects/Funding/Fixtures/Search.antt =====
-- Facts about searches of lists, for the tables of the tests.
use pafs_backend_api.Prelude.{
  ℕ, ◌≡◌, refl, sym, ap, subst, Bool, true, false, ◌&&◌, List, [], ◌∷◌, some, ◌==◌, if◌then◌else◌,
  ==_iff, Bool-cases, inl, inr, arith, filter, any,
}
use pafs_backend_api.Projects.Funding.{has_number}

pub and_true : (a b : Bool) → (a && b) ≡ true → (a ≡ true) × (b ≡ true)
and_true true b h = (refl, h)
and_true false b h = cc

pub some_list : {A : Type 0} {xs ys : List A} → some xs ≡ some ys → xs ≡ ys
some_list e = cc

pub any_has :
    (test : ℕ → Bool) (k : ℕ) (ks : List ℕ)
    → has_number ks k ≡ true
    → test k ≡ true
    → any test ks ≡ true
any_has test k [] h e = cc
any_has test k (j ∷ ks) h e = elim (Bool-cases (j == k)) [
  | inl same ↦
      let there : test j ≡ true = subst (λ x. test x ≡ true) (sym ((==_iff j k).0 same)) e in
      rw there refl
  | inr other ↦ ground (arith, any_has test k ks (rw other at h) e)
]

pub if_true : {A : Type 0} (b : Bool) (x y : A) → b ≡ true → (if b then x else y) ≡ x
if_true true x y h = refl
if_true false x y h = cc

pub has-filter :
    (test : ℕ → Bool) (y : ℕ) (ys : List ℕ)
    → has_number (filter test ys) y ≡ (has_number ys y && test y)
has-filter test y [] = refl
has-filter test y (z ∷ ys) = elim (Bool-cases (z == y)) [
  | inl e ↦
      let same : test z ≡ test y = ap test ((==_iff z y).0 e) in
      ground (arith, e, same, has-filter test y ys)
  | inr e ↦ ground (arith, e, has-filter test y ys)
]
