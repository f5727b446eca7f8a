-- ===== src/Plugins/Package/Paths.antt =====
-- Absolute paths as the lists of their components, and the functions of Go's `path/filepath` on them that
-- internal/plugins/ui_assets.go uses.
use nova_nas.Base.{
  ◌≡◌, refl, ap, ◌∙◌, sym, Bool, true, false, not, ◌&&◌, ◌||◌, List, [], ◌∷◌, ◌++◌, map, Text,
  codes, text_eq, nat_eq, ◌=?◌, contains, length, drop_last, split, onto_first, has_prefix, ◌==◌,
  if◌then◌else◌, arith, inl, inr, Bool-cases, ℕ,
}
use mathlib.Core.List.{append_assoc, append-nil}

abbrev pub dot : Text
dot = codes "."

abbrev pub dot_dot : Text
dot_dot = codes ".."

-- One component of a path, after those of `stack`.
unfoldable pub push_part : List Text → Text → List Text
push_part stack p =
    if length p == 0 || p =? dot
    then stack
    else if p =? dot_dot
    then drop_last stack
    else stack ++ p ∷ []

-- `filepath.Join` of an absolute clean path with further components.
unfoldable pub join : List Text → List Text → List Text
join stack [] = stack
join stack (p ∷ ps) = join (push_part stack p) ps

-- `filepath.Clean` of a path that begins with a slash.
unfoldable pub clean : Text → List Text
clean path = join [] (split b'/' path)

unfoldable pub slashed : List Text → Text
slashed [] = []
slashed (p ∷ ps) = b'/' ∷ p ++ slashed ps

-- The text of an absolute clean path.
unfoldable pub path_text : List Text → Text
path_text [] = codes "/"
path_text (p ∷ ps) = slashed (p ∷ ps)

unfoldable pub rel_text : List Text → Text
rel_text [] = dot
rel_text (p ∷ ps) = p ++ slashed ps

-- `filepath.Rel` of absolute clean paths.
unfoldable pub rel : List Text → List Text → List Text
rel [] target = target
rel (b ∷ base) [] = map (λ _. dot_dot) (b ∷ base)
rel (b ∷ base) (t ∷ target) =
    let rest = rel base target in
    if b =? t then rest else map (λ _. dot_dot) (b ∷ base) ++ t ∷ target

-- `strings.Contains(s, "..")`
unfoldable pub contains_dots : Text → Bool
contains_dots [] = false
contains_dots (c ∷ s) = has_prefix (c ∷ s) dot_dot || contains_dots s

-- A name of an entry of a directory: not empty, not `.` or `..`, and without a slash.
abbrev pub is_plain : Text → Bool
is_plain p = not (length p == 0) && not (p =? dot) && not (p =? dot_dot) && not (contains p b'/')

abbrev pub all_plain : List Text → Bool
all_plain [] = true
all_plain (p ∷ ps) = is_plain p && all_plain ps

abbrev no_slashes : List Text → Bool
no_slashes [] = true
no_slashes (p ∷ ps) = not (contains p b'/') && no_slashes ps

onto_first-no_slashes :
    (c : ℕ) (ps : List Text)
    → (c == b'/') ≡ false
    → no_slashes ps ≡ true
    → no_slashes (onto_first c ps) ≡ true
unfolding contains
onto_first-no_slashes c [] h n = ground (arith, h)
onto_first-no_slashes c (p ∷ ps) h n = ground (arith, h, n)

split-no_slashes : (s : Text) → no_slashes (split b'/' s) ≡ true
unfolding split contains
split-no_slashes [] = refl
split-no_slashes (c ∷ s) = elim (Bool-cases (c == b'/')) [
  | inl slash ↦ ground (arith, slash, split-no_slashes s)
  | inr other ↦ rw other (onto_first-no_slashes c (split b'/' s) other (split-no_slashes s))
]

pub all_plain-append :
    (ps qs : List Text) → all_plain ps ≡ true → all_plain qs ≡ true → all_plain (ps ++ qs) ≡ true
all_plain-append [] qs h k = k
all_plain-append (p ∷ ps) qs h k = ground (arith, h, all_plain-append ps qs (ground (arith, h)) k)

all_plain-snoc :
    (ps : List Text) (p : Text)
    → all_plain ps ≡ true
    → is_plain p ≡ true
    → all_plain (ps ++ p ∷ []) ≡ true
all_plain-snoc ps p h k = all_plain-append ps (p ∷ []) h (ground (arith, k))

pub all_plain-drop_last : (ps : List Text) → all_plain ps ≡ true → all_plain (drop_last ps) ≡ true
unfolding drop_last
all_plain-drop_last [] h = refl
all_plain-drop_last (p ∷ []) h = refl
all_plain-drop_last (p ∷ q ∷ ps) h = ground (arith, h, all_plain-drop_last (q ∷ ps))

push_part-all_plain :
    (stack : List Text) (p : Text)
    → all_plain stack ≡ true
    → contains p b'/' ≡ false
    → all_plain (push_part stack p) ≡ true
unfolding push_part
push_part-all_plain stack p h n =
    ground (arith, h, n, all_plain-drop_last stack h, all_plain-snoc stack p h)

join-all_plain :
    (stack ps : List Text)
    → all_plain stack ≡ true
    → no_slashes ps ≡ true
    → all_plain (join stack ps) ≡ true
unfolding join
join-all_plain stack [] h n = h
join-all_plain stack (p ∷ ps) h n =
    join-all_plain (push_part stack p) ps (push_part-all_plain stack p h (ground (arith, n)))
      (ground (arith, n))

-- A cleaned path has only plain components.
pub clean-all_plain : (path : Text) → all_plain (clean path) ≡ true
unfolding clean
clean-all_plain path = join-all_plain [] (split b'/' path) refl (split-no_slashes path)

-- Plain components are put behind what is there.
pub join_of_plain : (stack ps : List Text) → all_plain ps ≡ true → join stack ps ≡ stack ++ ps
unfolding join push_part
join_of_plain stack [] h = sym (append-nil stack)
join_of_plain stack (p ∷ ps) h =
    let pushed : (push_part stack p ≡ stack ++ p ∷ []) = ground (arith, h) in
    ap (λ s. join s ps) pushed
    ∙ join_of_plain (stack ++ p ∷ []) ps (ground (arith, h))
    ∙ append_assoc stack (p ∷ []) ps
