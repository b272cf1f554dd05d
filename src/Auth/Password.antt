-- ===== src/Auth/Password.antt =====
-- src/plugins/auth/helpers/password.js. bcrypt is a parameter: `compare` is `none` where it throws.
use pafs_backend_api.Prelude.{
  ℕ, String, ◌≡◌, Bool, true, false, ◌&&◌, ◌||◌, List, [], ◌∷◌, Option, none, some, ◌==◌, codes,
  if◌then◌else◌,
}

-- BCRYPT_VALID_PREFIXES, /^\$2[abxy]?\$/
abbrev is_variant : ℕ → Bool
is_variant c = c == b'a' || c == b'b' || c == b'x' || c == b'y'

abbrev starts_dollar : List ℕ → Bool
starts_dollar [] = false
starts_dollar (c ∷ cs) = c == b'$'

abbrev after_version : List ℕ → Bool
after_version [] = false
after_version (c ∷ cs) = c == b'$' || (is_variant c && starts_dollar cs)

abbrev bcrypt_prefix : List ℕ → Bool
bcrypt_prefix (a ∷ b ∷ cs) = a == b'$' && b == b'2' && after_version cs
bcrypt_prefix _ = false

unfoldable pub has_valid_prefix : String → Bool
has_valid_prefix hash = bcrypt_prefix (codes hash)

-- `hash` takes the salt that bcrypt draws; a hash that it made has a valid prefix, and compares
-- true with the text that it was made of.
pub record Bcrypt : Type 0 where
  pub hash : String → String → String
  pub compare : String → String → Option Bool
  pub hash-prefix : (salt plain : String) → has_valid_prefix (hash salt plain) ≡ true
  pub compare-hash : (salt plain : String) → compare plain (hash salt plain) ≡ some true

abbrev caught : Option Bool → Bool
caught none = false
caught (some match) = match

module _ (bcrypt : Bcrypt) where
  unfoldable pub hash_password : String → String → String
  hash_password salt plain = bcrypt.hash salt plain

  unfoldable pub verify_password : String → String → Bool
  unfolding has_valid_prefix
  verify_password plain hashed =
      if has_valid_prefix hashed then caught (bcrypt.compare plain hashed) else false
