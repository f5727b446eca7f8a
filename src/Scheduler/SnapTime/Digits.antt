-- ===== src/Scheduler/SnapTime/Digits.antt =====
-- The readers of digits, of the dash and of the prefix, on what was written and on any text.
use nova_nas.Base.{ℕ, ◌+◌, ◌*◌, ◌/◌, ◌%◌, ◌<◌, ◌≡◌, some, [], ◌∷◌, ◌++◌, ==_iff, Text, arith}
use nova_nas.Base.Options.{◌>>=◌, >>=-eq-some}
use nova_nas.Scheduler.SnapTime.{two, four, take_two, take_four, skip_dash, strip_prefix}

pub take_two_written : (n : ℕ) (s : Text) → n < 100 → take_two (two n ++ s) ≡ some (n, s)
unfolding take_two
take_two_written n s h = ground arith

pub take_four_written : (n : ℕ) (s : Text) → n < 10000 → take_four (four n ++ s) ≡ some (n, s)
unfolding take_four
take_four_written n s h =
    ground (arith, take_two_written (n / 100) (two n ++ s), take_two_written (n % 100) s)

pub take_two_read : (s r : Text) (n : ℕ) → take_two s ≡ some (n, r) → (s ≡ two n ++ r) × (n < 100)
unfolding take_two
take_two_read [] r n h = absurd cc
take_two_read (a ∷ []) r n h = absurd cc
take_two_read (a ∷ b ∷ s) r n h = ground arith

pub take_four_read :
    (s r : Text) (n : ℕ) → take_four s ≡ some (n, r) → (s ≡ four n ++ r) × (n < 10000)
unfolding take_four
take_four_read s r n h =
    let ((high, s1), e1, h1) =
      >>=-eq-some (take_two s)
        (λ (p : ℕ × Text). take_two p.1 >>= λ (q : ℕ × Text). some (100 * p.0 + q.0, q.1)) h in
    let ((low, s2), e2, h2) =
      >>=-eq-some (take_two s1) (λ (q : ℕ × Text). some (100 * high + q.0, q.1)) h1 in
    ground (arith, take_two_read s s1 high e1, take_two_read s1 s2 low e2, h2)

pub skip_dash_read : (s r : Text) → skip_dash s ≡ some r → s ≡ b'-' ∷ r
unfolding skip_dash
skip_dash_read [] r h = absurd cc
skip_dash_read (c ∷ s) r h = ground (arith, ==_iff c b'-')

pub strip_prefix_written :
    (prefix s : Text) (c : ℕ) → strip_prefix (prefix ++ c ∷ []) (prefix ++ c ∷ s) ≡ some s
unfolding strip_prefix
strip_prefix_written [] s c = ground (arith, ==_iff c c)
strip_prefix_written (p ∷ ps) s c = ground (arith, ==_iff p p, strip_prefix_written ps s c)

pub strip_prefix_read :
    (prefix s r : Text) (c : ℕ) → strip_prefix (prefix ++ c ∷ []) s ≡ some r → s ≡ prefix ++ c ∷ r
unfolding strip_prefix
strip_prefix_read [] [] r c h = absurd cc
strip_prefix_read [] (x ∷ s) r c h = ground (arith, ==_iff c x)
strip_prefix_read (p ∷ ps) [] r c h = absurd cc
strip_prefix_read (p ∷ ps) (x ∷ s) r c h = ground (arith, ==_iff p x, strip_prefix_read ps s r c)
