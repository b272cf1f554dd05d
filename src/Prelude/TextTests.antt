-- ===== src/Prelude/TextTests.antt =====
-- Texts cut, joined and trimmed.
use pafs_backend_api.Prelude.{◌≡◌, refl, [], ◌∷◌, split_commas, join_commas, trim}

cut : split_commas "a, b,,c" ≡ "a" ∷ " b" ∷ "" ∷ "c" ∷ []
unfolding split_commas
cut = refl

joined : join_commas ("a" ∷ "b" ∷ []) ≡ "a,b"
unfolding join_commas
joined = refl

trimmed : trim "  a b " ≡ "a b"
unfolding trim
trimmed = refl
