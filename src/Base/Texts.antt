-- ===== src/Base/Texts.antt =====
-- Text as a list of code points, and the functions of Go's `strings` and `strconv` that walk it.
use Prim.Native.Nat.{ℕ, suc, ◌+◌, ◌-◌, ◌*◌}
use Prim.Native.Char.{code}
use Prim.Native.String.{String}
use mathlib.Core.Bool.{Bool, true, false, ◌&&◌, ◌||◌}
use mathlib.Core.List.{List, [], ◌∷◌}
use mathlib.Core.Option.{Option, none, some}
use mathlib.Core.Path.{◌≡◌}
use mathlib.Core.Logic.{◌↔◌}
use native.Mathlib.Omega.{arith}
use mathlib.Core.Logic.{inl, inr}
use Prim.Native.Nat.{◌≤◌}
use nova_nas.Base.Tests.{Bool-cases, leb, ◌==◌, if◌then◌else◌}
use nova_nas.Base.Int.{ℤ, pos, negsuc, pos_part, max_int}
use nova_nas.Base.Keys.{Eq}

abbrev pub Text : Type 0
Text = List ℕ

abbrev pub codes : String → Text
codes String.[] = []
codes (String.◌∷◌ c s) = code c ∷ codes s

unfoldable pub text_beq : Text → Text → Bool
text_beq [] [] = true
text_beq (x ∷ xs) (y ∷ ys) = x == y && text_beq xs ys
text_beq _ _ = false

pub text_beq_iff : (a b : Text) → (text_beq a b ≡ true) ↔ (a ≡ b)
unfolding text_beq
text_beq_iff [] [] = ground arith
text_beq_iff (x ∷ a) (y ∷ b) = ground (arith, text_beq_iff a b)
text_beq_iff [] (y ∷ b) = ground arith
text_beq_iff (x ∷ a) [] = ground arith

instance abbrev pub text_eq : Eq Text
text_eq = record { beq = text_beq; beq_iff = text_beq_iff }

-- `unicode.IsSpace`
abbrev pub is_space : ℕ → Bool
is_space c =
    leb 9 c && leb c 13
    || c == 0x20
    || c == 0x85
    || c == 0xa0
    || c == 0x1680
    || leb 0x2000 c && leb c 0x200a
    || c == 0x2028
    || c == 0x2029
    || c == 0x202f
    || c == 0x205f
    || c == 0x3000

-- Puts a character in front of the first piece.
abbrev pub onto_first : ℕ → List Text → List Text
onto_first c [] = (c ∷ []) ∷ []
onto_first c (p ∷ ps) = (c ∷ p) ∷ ps

-- `strings.Split(s, sep)` for a separator of one character: never empty.
unfoldable pub split : ℕ → Text → List Text
split sep [] = [] ∷ []
split sep (c ∷ cs) = let rest = split sep cs in if c == sep then [] ∷ rest else onto_first c rest

abbrev pub drop_empty : List Text → List Text
drop_empty [] = []
drop_empty ([] ∷ ps) = drop_empty ps
drop_empty ((c ∷ p) ∷ ps) = (c ∷ p) ∷ drop_empty ps

-- The pieces between white space, empty ones too.
pub split_space : Text → List Text
split_space [] = [] ∷ []
split_space (c ∷ cs) =
    let rest = split_space cs in if is_space c then [] ∷ rest else onto_first c rest

-- `strings.Fields(s)`
unfoldable pub fields : Text → List Text
unfolding split_space
fields s = drop_empty (split_space s)

unfoldable pub trim_left : Text → Text
trim_left [] = []
trim_left (c ∷ cs) = let rest = trim_left cs in if is_space c then rest else c ∷ cs

unfoldable pub trim_right : Text → Text
trim_right [] = []
trim_right (c ∷ cs) = elim (trim_right cs) [
  | [] ↦ if is_space c then [] else c ∷ []
  | d ∷ ds ↦ c ∷ d ∷ ds
]

-- `strings.TrimSpace(s)`
unfoldable pub trim_space : Text → Text
unfolding trim_left trim_right
trim_space s = trim_right (trim_left s)

-- The text before and after the first `sep`, if there is one.
unfoldable pub cut : ℕ → Text → Option (Text × Text)
cut sep [] = none
cut sep (c ∷ cs) = elim (cut sep cs) [
  | none ↦ if c == sep then some ([], cs) else none
  | some (a, b) ↦ if c == sep then some ([], cs) else some (c ∷ a, b)
]

pub digits_from : ℕ → Text → Option ℕ
digits_from acc [] = some acc
digits_from acc (c ∷ cs) =
    let rest = digits_from (10 * acc + (c - b'0')) cs in
    if leb b'0' c && leb c b'9' then rest else none

-- A non-empty run of digits.
pub digits : Text → Option ℕ
unfolding digits_from
digits [] = none
digits (c ∷ cs) = digits_from 0 (c ∷ cs)

abbrev int_of_pos : Option ℕ → Option ℤ
int_of_pos none = none
int_of_pos (some n) = if leb n max_int then some (pos n) else none

abbrev int_of_neg : Option ℕ → Option ℤ
int_of_neg none = none
int_of_neg (some n) =
    if n == 0 then some (pos 0) else if leb n (suc max_int) then some (negsuc (n - 1)) else none

-- `strconv.Atoi(s)`: a sign, then decimal digits, within the range of a 64-bit `int`.
unfoldable pub atoi : Text → Option ℤ
unfolding digits
atoi [] = none
atoi (c ∷ cs) =
    if c == b'-'
    then int_of_neg (digits cs)
    else if c == b'+'
    then int_of_pos (digits cs)
    else int_of_pos (digits (c ∷ cs))

int_of_pos_bound : (o : Option ℕ) {z : ℤ} → int_of_pos o ≡ some z → pos_part z ≤ max_int
int_of_pos_bound none h = absurd cc
int_of_pos_bound (some n) h = ground arith

int_of_neg_bound : (o : Option ℕ) {z : ℤ} → int_of_neg o ≡ some z → pos_part z ≤ max_int
int_of_neg_bound none h = absurd cc
int_of_neg_bound (some n) h = ground arith

-- What `Atoi` returns fits an `int`.
pub atoi_bound : (s : Text) (z : ℤ) → atoi s ≡ some z → pos_part z ≤ max_int
unfolding atoi
atoi_bound [] z h = absurd cc
atoi_bound (c ∷ cs) z h = elim (Bool-cases (c == b'-')) [
  | inl minus ↦ int_of_neg_bound (digits cs) (rw minus at h)
  | inr not_minus ↦ elim (Bool-cases (c == b'+')) [
    | inl plus ↦ int_of_pos_bound (digits cs) (rw (not_minus, plus) at h)
    | inr not_plus ↦ int_of_pos_bound (digits (c ∷ cs)) (rw (not_minus, not_plus) at h)
  ]
]

-- `strings.HasPrefix(s, prefix)`
unfoldable pub has_prefix : Text → Text → Bool
has_prefix s [] = true
has_prefix [] (c ∷ prefix) = false
has_prefix (d ∷ s) (c ∷ prefix) = d == c && has_prefix s prefix

-- `strings.TrimRight(s, c)` for one character.
unfoldable pub trim_right_of : ℕ → Text → Text
trim_right_of c [] = []
trim_right_of c (d ∷ ds) = elim (trim_right_of c ds) [
  | [] ↦ if d == c then [] else d ∷ []
  | e ∷ es ↦ d ∷ e ∷ es
]

-- A letter's lower case, for the letters whose lower case is an ASCII one: `K` and `s` have a second form.
abbrev fold_to : ℕ → ℕ
fold_to c =
    if leb b'A' c && leb c b'Z'
    then c + 32
    else if c == 0x212a
    then b'k'
    else if c == 0x17f
    then b's'
    else c

-- `strings.EqualFold(s, t)` for a `t` of lower-case ASCII letters.
unfoldable pub equal_fold : Text → Text → Bool
equal_fold [] [] = true
equal_fold (c ∷ s) (d ∷ t) = fold_to c == d && equal_fold s t
equal_fold _ _ = false
