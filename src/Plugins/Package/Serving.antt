-- ===== src/Plugins/Package/Serving.antt =====
-- Which files the user interfaces' handler serves.
use nova_nas.Base.{
  ◌≡◌, refl, ap, ◌∙◌, Bool, true, false, Option, some, List, [], ◌∷◌, ◌++◌, Text, codes, text_eq,
  nat_eq, contains, lookup, arith, Option-cases, text_beq, inl, inr, ◌⊎◌,
}
use mathlib.Core.List.{append_assoc}
use nova_nas.Plugins.Package.{UiAssets, file, entry_parts, serve}
use nova_nas.Plugins.Package.Paths.{
  join, all_plain, clean-all_plain, join_of_plain, all_plain-append,
}
use nova_nas.Plugins.Package.Contained.{Inside}

-- What is served is the path asked for, or the script in it where it is a directory.
serve_file :
    (ui : UiAssets) (stat : List Text → Option Bool) (plugin rest : Text) (dir path : List Text)
    → lookup ui plugin ≡ some dir
    → serve ui stat plugin rest ≡ file path
    → (path ≡ join dir (entry_parts rest))
      ⊎ (path ≡ join (join dir (entry_parts rest)) (codes "main.js" ∷ []))
unfolding serve
serve_file ui stat plugin rest dir path there h =
    elim (Option-cases (stat (join dir (entry_parts rest)))) [
      | inl nothing ↦ absurd (ground (arith, there, h, nothing))
      | inr (true, is_dir) ↦ inr (ground (arith, there, h, is_dir))
      | inr (false, is_file) ↦ inl (ground (arith, there, h, is_file))
    ]

entry_parts-all_plain : (rest : Text) → all_plain (entry_parts rest) ≡ true
unfolding entry_parts
entry_parts-all_plain rest = clean-all_plain _

-- The path that is handed to `http.ServeFile` lies in the directory that is registered for the plugin, below it by
-- plain names alone.
pub serve-Inside :
    (ui : UiAssets) (stat : List Text → Option Bool) (plugin rest : Text) (dir path : List Text)
    → lookup ui plugin ≡ some dir
    → serve ui stat plugin rest ≡ file path
    → Inside dir path
unfolding contains text_beq
serve-Inside ui stat plugin rest dir path there h =
    let parts = entry_parts rest in
    let plain = entry_parts-all_plain rest in
    let full = join_of_plain dir parts plain in
    let script = codes "main.js" ∷ [] in
    elim (serve_file ui stat plugin rest dir path there h) [
      | inl asked ↦ (parts, asked ∙ full, plain)
      | inr below ↦ (
        parts ++ script,
        below
            ∙ join_of_plain (join dir parts) script refl
            ∙ ap (λ l. l ++ script) full
            ∙ append_assoc dir parts script,
        all_plain-append parts script plain refl,
      )
    ]
