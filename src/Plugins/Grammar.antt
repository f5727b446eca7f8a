-- ===== src/Plugins/Grammar.antt =====
-- The regular expressions of names, tags and versions in internal/plugins/manifest.go.
use nova_nas.Base.{
  ℕ, Bool, true, false, not, ◌&&◌, ◌||◌, Option, none, some, [], ◌∷◌, Text, leb, length, ◌==◌,
  if◌then◌else◌,
}
use nova_nas.Base.Options.{◌>>=◌}

abbrev pub is_digit : ℕ → Bool
is_digit c = leb b'0' c && leb c b'9'

abbrev pub is_lower_alnum : ℕ → Bool
is_lower_alnum c = is_digit c || leb b'a' c && leb c b'z'

abbrev pub is_label_char : ℕ → Bool
is_label_char c = is_lower_alnum c || c == b'-'

unfoldable pub all_chars : (ℕ → Bool) → Text → Bool
all_chars ok [] = true
all_chars ok (c ∷ s) = ok c && all_chars ok s

-- Whether the last character passes, of a text that has one.
unfoldable pub last_char : (ℕ → Bool) → Text → Bool
last_char ok [] = true
last_char ok (c ∷ []) = ok c
last_char ok (c ∷ d ∷ s) = last_char ok (d ∷ s)

-- `^[a-z0-9]([a-z0-9-]{0,38}[a-z0-9])?$`
unfoldable pub name_re : Text → Bool
name_re [] = false
name_re (c ∷ s) =
    is_lower_alnum c && all_chars is_label_char s && last_char is_lower_alnum s && leb (length s) 39

-- `^[a-z0-9][a-z0-9-]*$`
unfoldable pub tag_re : Text → Bool
tag_re [] = false
tag_re (c ∷ s) = is_lower_alnum c && all_chars is_label_char s

abbrev pub is_version_char : ℕ → Bool
is_version_char c = is_lower_alnum c || leb b'A' c && leb c b'Z' || c == b'.' || c == b'-'

-- A run of characters that pass, and what follows it.
unfoldable pub span : (ℕ → Bool) → Text → Text × Text
span ok [] = ([], [])
span ok (c ∷ s) = let (run, rest) = span ok s in if ok c then (c ∷ run, rest) else ([], c ∷ s)

-- What follows a run of digits, if there is one.
unfoldable pub after_digits : Text → Option Text
after_digits s = let (run, rest) = span is_digit s in if length run == 0 then none else some rest

-- What follows a character.
unfoldable pub after_char : ℕ → Text → Option Text
after_char c [] = none
after_char c (d ∷ s) = if d == c then some s else none

-- The build part, to the end.
unfoldable pub build_re : Text → Bool
build_re [] = true
build_re (c ∷ s) = c == b'+' && not (length s == 0) && all_chars is_version_char s

-- The pre-release part and the build part.
unfoldable pub suffix_re : Text → Bool
suffix_re [] = true
suffix_re (c ∷ s) =
    let (run, rest) = span is_version_char s in
    if c == b'-' then not (length run == 0) && build_re rest else build_re (c ∷ s)

-- The three numbers and what follows them.
unfoldable pub numbers_re : Text → Option Text
numbers_re s = do
  s1 ← after_digits s
  s2 ← after_char b'.' s1
  s3 ← after_digits s2
  s4 ← after_char b'.' s3
  after_digits s4

-- `versionRE`
unfoldable pub version_re : Text → Bool
version_re s =
    let bare = elim (after_char b'v' s) as (λ _. Text) [ none ↦ s | some t ↦ t ] in
    elim (numbers_re bare) as (λ _. Bool) [ none ↦ false | some rest ↦ suffix_re rest ]
