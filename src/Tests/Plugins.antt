-- ===== src/Tests/Plugins.antt =====
-- The theorem on the picked version of internal/plugins/dependencies.go, with a small version library: a
-- version is as high as its text is long, and a constraint asks for at least the length of its text.
use nova_nas.Base.{
  ℕ, refl, arith, Option, some, List, [], ◌∷◌, codes, length, ltb, leb, Text, trim_space,
}
use nova_nas.Plugins.Dependencies.Versions.{
  Semver, is_blank, filter_empty, join, pick_best, better, pick_highest_satisfying,
}
use nova_nas.Plugins.Dependencies.Pick.{Ordered, Highest, Combined, pick_highest_satisfying-Highest}

abbrev lengths : Semver
lengths = record {
  Version = ℕ;
  Constraints = ℕ;
  new_version = λ t. some (length t);
  new_constraint = λ t. some (length t);
  check = λ c v. leb c v;
  greater_than = λ a b. ltb b a;
}

lengths-Ordered : Ordered lengths
lengths-Ordered = record {
  irreflexive = λ v. ground arith;
  no_greater = λ a b c h k. ground arith;
  asymmetric = λ a b h. ground arith;
}

abbrev offered : List Text
offered = codes "1" ∷ codes "1.2.3" ∷ codes "1.2" ∷ []

pick_highest_satisfying-Highest_example :
    (c : Option ℕ) × Combined lengths (codes ">1" ∷ codes " " ∷ []) c
    × Highest lengths c offered (codes "1.2.3")
unfolding pick_highest_satisfying pick_best better filter_empty is_blank trim_space join
pick_highest_satisfying-Highest_example =
    pick_highest_satisfying-Highest lengths lengths-Ordered offered (codes ">1" ∷ codes " " ∷ [])
      (codes "1.2.3") refl
