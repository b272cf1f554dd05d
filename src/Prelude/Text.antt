-- ===== src/Prelude/Text.antt =====
-- Texts: their code points, and the JavaScript operations on them that the program uses.
use Prim.Native.Char.{Char, code}
use Prim.Native.String.{String, ◌++◌ as append}
use Prim.Native.Nat.{ℕ}
use mathlib.Core.Bool.{Bool, true, false, ◌||◌, ◌&&◌}
use mathlib.Core.List.{List, [], ◌∷◌}
use pafs_backend_api.Prelude.Tests.{◌==◌, leb, if◌then◌else◌}

abbrev pub codes : String → List ℕ
codes String.[] = []
codes (String.◌∷◌ c s) = code c ∷ codes s

abbrev pub is_empty_text : String → Bool
is_empty_text String.[] = true
is_empty_text (String.◌∷◌ c s) = false

-- The white space of `trim` among the ASCII characters, and the no-break space.
abbrev pub is_space : Char → Bool
is_space c = (leb 9 (code c) && leb (code c) 13) || code c == 32 || code c == 160

abbrev pub is_comma : Char → Bool
is_comma c = code c == b','

-- A character put before the first of the parts of a text.
abbrev pub before_first : Char → List String → List String
before_first c [] = String.◌∷◌ c String.[] ∷ []
before_first c (w ∷ ws) = String.◌∷◌ c w ∷ ws

-- `text.split(',')`
unfoldable pub split_commas : String → List String
split_commas String.[] = String.[] ∷ []
split_commas (String.◌∷◌ c s) =
    let rest = split_commas s in if is_comma c then String.[] ∷ rest else before_first c rest

-- `texts.join(',')`
unfoldable pub join_commas : List String → String
join_commas [] = String.[]
join_commas (w ∷ []) = w
join_commas (w ∷ v ∷ ws) = append w (append "," (join_commas (v ∷ ws)))

unfoldable pub trim_start : String → String
trim_start String.[] = String.[]
trim_start (String.◌∷◌ c s) = if is_space c then trim_start s else String.◌∷◌ c s

unfoldable pub trim_end : String → String
trim_end String.[] = String.[]
trim_end (String.◌∷◌ c s) =
    let rest = trim_end s in
    if is_space c && is_empty_text rest then String.[] else String.◌∷◌ c rest

unfoldable pub trim : String → String
unfolding trim_start trim_end
trim s = trim_end (trim_start s)

-- `text.replaceAll('-', '/')`
unfoldable pub dashes_to_slashes : String → String
dashes_to_slashes String.[] = String.[]
dashes_to_slashes (String.◌∷◌ c s) =
    let rest = dashes_to_slashes s in
    if code c == b'-' then String.◌∷◌ "/" rest else String.◌∷◌ c rest
