-- ===== src/Prelude/Commas.antt =====
-- Texts without commas that are joined by commas are what the joined text is cut into.
use Prim.Native.Char.{Char}
use Prim.Native.String.{String, ◌++◌ as append}
use text.Mathlib.TextLemmas.{nil-append, cons-append}
use mathlib.Core.Path.{◌≡◌, refl, ap, ◌∙◌}
use mathlib.Core.Logic.{inl, inr}
use mathlib.Core.Bool.{Bool, true, false}
use mathlib.Core.List.{List, [], ◌∷◌}
use pafs_backend_api.Prelude.Tests.{if◌then◌else◌, Bool-cases}
use pafs_backend_api.Prelude.Lists.{All}
use pafs_backend_api.Prelude.Text.{is_comma, before_first, split_commas, join_commas, is_empty_text}

abbrev pub has_comma : String → Bool
has_comma String.[] = false
has_comma (String.◌∷◌ c s) = if is_comma c then true else has_comma s

split_commas-one : (w : String) → has_comma w ≡ false → split_commas w ≡ w ∷ []
unfolding split_commas
split_commas-one String.[] h = refl
split_commas-one (String.◌∷◌ c w) h = elim (Bool-cases (is_comma c)) [
  | inl e ↦ cc (rw e at h)
  | inr e ↦ rw e (ap (before_first c) (split_commas-one w (rw e at h)))
]

split_commas-cons :
    (c : Char) (s : String)
    → is_comma c ≡ false
    → split_commas (String.◌∷◌ c s) ≡ before_first c (split_commas s)
unfolding split_commas
split_commas-cons c s e = rw e refl

after_comma : (t : String) → split_commas (String.◌∷◌ "," t) ≡ "" ∷ split_commas t
unfolding split_commas
after_comma t = refl

split_commas-comma : (s : String) → split_commas (append "," s) ≡ "" ∷ split_commas s
split_commas-comma s =
    ap (λ t. split_commas t) (cons-append "," "" s ∙ ap (λ t. String.◌∷◌ "," t) (nil-append s))
    ∙ after_comma s

split_commas-append :
    (w rest : String)
    → has_comma w ≡ false
    → split_commas (append w (append "," rest)) ≡ w ∷ split_commas rest
split_commas-append String.[] rest h =
    ap (λ t. split_commas t) (nil-append (append "," rest)) ∙ split_commas-comma rest
split_commas-append (String.◌∷◌ c w) rest h = elim (Bool-cases (is_comma c)) [
  | inl e ↦ cc (rw e at h)
  | inr e ↦
      ap (λ t. split_commas t) (cons-append c w (append "," rest))
      ∙ split_commas-cons c (append w (append "," rest)) e
      ∙ ap (before_first c) (split_commas-append w rest (rw e at h))
]

-- The items of a list that is not empty come back, if none has a comma.
pub split_commas-join_commas :
    (w : String) (ws : List String)
    → All (λ s. has_comma s ≡ false) (w ∷ ws)
    → split_commas (join_commas (w ∷ ws)) ≡ w ∷ ws
unfolding join_commas
split_commas-join_commas w [] h = split_commas-one w h.0
split_commas-join_commas w (v ∷ ws) h =
    split_commas-append w (join_commas (v ∷ ws)) h.0
    ∙ ap (λ vs. w ∷ vs) (split_commas-join_commas v ws h.1)

is_empty_text-append : (w s : String) → is_empty_text w ≡ false → is_empty_text (append w s) ≡ false
is_empty_text-append String.[] s h = cc
is_empty_text-append (String.◌∷◌ c w) s h = ap (λ t. is_empty_text t) (cons-append c w s)

-- A joined text whose first item is not empty is not.
pub is_empty_text-join_commas :
    (w : String) (ws : List String)
    → is_empty_text w ≡ false
    → is_empty_text (join_commas (w ∷ ws)) ≡ false
unfolding join_commas
is_empty_text-join_commas w [] h = h
is_empty_text-join_commas w (v ∷ ws) h = is_empty_text-append w _ h
