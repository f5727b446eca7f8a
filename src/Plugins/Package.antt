-- ===== src/Plugins/Package.antt =====
-- internal/plugins/ui_assets.go: the unpacking of a package and the serving of a plugin's user interface. The
-- directories given are absolute and clean; what the disk and the archive's reader answer is an argument.
pub mod Paths
pub mod Contained
pub mod Serving
use nova_nas.Base.{
  ℕ, ◌-◌, ◌*◌, Bool, true, false, ◌&&◌, ◌||◌, Option, none, some, List, [], ◌∷◌, ◌++◌, Text, codes,
  text_eq, ◌=?◌, Result, ok, err, length, drop_last, take, has_prefix, ltb, insert, delete, lookup,
  if◌then◌else◌,
}
use nova_nas.Plugins.Package.Paths.{join, clean, path_text, rel, rel_text, contains_dots, dot_dot}

-- `maxExtractBytes`, 512 MiB
abbrev pub max_extract_bytes : ℕ
max_extract_bytes = 536870912

pub data EntryType : Type 0 where
  directory regular other_type : EntryType

-- A header of the archive with the bytes that its reader yields, and whether it fails after them.
pub record Entry : Type 0 where
  pub name : Text
  pub typeflag : EntryType
  pub size : ℕ
  pub body : Text
  pub broken : Bool

-- `ends_badly`: the reader fails after the last entry.
pub record Archive : Type 0 where
  pub entries : List Entry
  pub ends_badly : Bool

-- Each tells how a call on a path fails, if it does.
pub record Disk : Type 0 where
  pub make_dir : List Text → Option Text
  pub open_file : List Text → Option Text
  pub close_file : List Text → Option Text
  pub read_file : List Text → Option Text

-- The calls that change the disk. A file is opened truncated, so that it has what is written.
pub data DiskCall : Type 0 where
  make_dir : List Text → DiskCall
  write_file : List Text → Text → DiskCall

pub data ExtractError : Type 0 where
  not_gzip not_tar too_large copy_failed missing_manifest : ExtractError
  escapes_root : Text → ExtractError
  disk_failed : Text → ExtractError

-- The variables of the loop, and the calls made so far.
pub record Unpack : Type 0 where
  pub remaining : ℕ
  pub has_ui : Bool
  pub manifest : Option Text
  pub calls : List DiskCall

abbrev pub note : Unpack → DiskCall → Unpack
note st call = record st { calls = st.calls ++ call ∷ [] }

abbrev manifest_yaml : Text
manifest_yaml = codes "manifest.yaml"

-- `if err != nil { return err }` after a call on the disk.
unfoldable pub attempt :
    Option Text → Unpack → Unpack × Option ExtractError → Unpack × Option ExtractError
attempt (some msg) st rest = (st, some (disk_failed msg))
attempt none st rest = rest

module _ (disk : Disk) where
  -- A written file: the manifest is read back, which yields what was written, and `ui/` is noticed.
  unfoldable pub note_file : Unpack → List Text → Text → Text → Unpack × Option ExtractError
  note_file st full name copied =
      let seen : Unpack = record st { has_ui = st.has_ui || has_prefix name (codes "ui/") } in
      if name =? manifest_yaml
      then attempt (disk.read_file full) st (record seen { manifest = some copied }, none)
      else (seen, none)

  -- From `io.CopyN` on: at most `remaining` bytes are copied.
  unfoldable pub write_entry : Unpack → Entry → List Text → Text → Unpack × Option ExtractError
  write_entry st e full name =
      let copied = take st.remaining e.body in
      let written = note st (write_file full copied) in
      let charged : Unpack = record written { remaining = st.remaining - length copied } in
      if e.broken && ltb (length e.body) st.remaining
      then (written, some copy_failed)
      else attempt (disk.close_file full) charged (note_file charged full name copied)

  unfoldable pub unpack_file : Unpack → Entry → List Text → Text → Unpack × Option ExtractError
  unpack_file st e full name =
      let made = note st (make_dir (drop_last full)) in
      if ltb st.remaining e.size
      then (st, some too_large)
      else attempt (disk.make_dir (drop_last full)) made
          (attempt (disk.open_file full) made (write_entry made e full name))

  unfoldable pub unpack_dir : Unpack → List Text → Text → Unpack × Option ExtractError
  unpack_dir st full name =
      let made = note st (make_dir full) in
      attempt (disk.make_dir full) made
        (record made { has_ui = made.has_ui || name =? codes "ui" }, none)

  unfoldable pub unpack_as :
      EntryType → Unpack → Entry → List Text → Text → Unpack × Option ExtractError
  unpack_as directory st e full name = unpack_dir st full name
  unpack_as regular st e full name = unpack_file st e full name
  unpack_as other_type st e full name = (st, none)

-- The variables before the loop, after the directory was made.
abbrev pub start : List Text → Unpack
start dest = record {
  remaining = max_extract_bytes;
  has_ui = false;
  manifest = none;
  calls = make_dir dest ∷ [];
}

-- `if err != nil { return err }` after the first call.
unfoldable pub begin_at :
    {A : Type 0}
    → Option Text
    → List DiskCall
    → List DiskCall × Result ExtractError A
    → List DiskCall × Result ExtractError A
begin_at (some msg) calls rest = (calls, err (disk_failed msg))
begin_at none calls rest = rest

-- The path of an entry as an absolute one.
unfoldable pub entry_parts : Text → List Text
entry_parts name = clean (b'/' ∷ name)

module _ (disk : Disk) (dest : List Text) where
  unfoldable pub unpack_entry : Unpack → Entry → Unpack × Option ExtractError
  unpack_entry st e =
      let parts = entry_parts e.name in
      let full = join dest parts in
      let name = rel_text (rel dest full) in
      if contains_dots (path_text parts)
      then (st, some (escapes_root e.name))
      else if has_prefix name dot_dot
      then (st, some (escapes_root e.name))
      else unpack_as disk e.typeflag st e full name

  unfoldable pub unpack_all : Unpack → List Entry → Bool → Unpack × Option ExtractError
  unpack_all st [] false = (st, none)
  unpack_all st [] true = (st, some not_tar)
  unpack_all st (e ∷ es) bad =
      let r = unpack_entry st e in
      elim r.1 as (λ _. Unpack × Option ExtractError) [
        | some why ↦ (r.0, some why)
        | none ↦ unpack_all r.0 es bad
      ]

  -- What follows the loop.
  unfoldable pub extract_result :
      Unpack → Option ExtractError → Result ExtractError (Text × Option (List Text))
  extract_result st (some why) = err why
  extract_result st none =
      elim st.manifest as (λ _. Result ExtractError (Text × Option (List Text))) [
        | none ↦ err missing_manifest
        | some bytes ↦ ok (bytes, if st.has_ui then some (join dest (codes "ui" ∷ [])) else none)
      ]

  -- `none` for a package that is no gzip stream. The calls on the disk come with the result.
  unfoldable pub unpack_tarball :
      Option Archive → List DiskCall × Result ExtractError (Text × Option (List Text))
  unpack_tarball none = ((start dest).calls, err not_gzip)
  unpack_tarball (some archive) =
      let (st, failed) = unpack_all (start dest) archive.entries archive.ends_badly in
      (st.calls, extract_result st failed)

  unfoldable pub extract_tarball :
      Option Archive → List DiskCall × Result ExtractError (Text × Option (List Text))
  extract_tarball tarball =
      begin_at (disk.make_dir dest) ((start dest).calls) (unpack_tarball tarball)

-- `UIAssets`: the directory of each plugin that is served. An empty directory takes the plugin out.
abbrev pub UiAssets : Type 0
UiAssets = List (Text × List Text)

unfoldable pub register : UiAssets → Text → Option (List Text) → UiAssets
register ui plugin none = delete ui plugin
register ui plugin (some dir) = insert ui plugin dir

-- `file`: the path that is handed to `http.ServeFile`.
pub data Served : Type 0 where
  ui_not_registered bad_path not_found : Served
  file : List Text → Served

-- `stat` tells whether a path is a directory, `none` where there is nothing.
unfoldable pub serve : UiAssets → (List Text → Option Bool) → Text → Text → Served
serve ui stat plugin rest = elim (lookup ui plugin) as (λ _. Served) [
  | none ↦ ui_not_registered
  | some dir ↦
      let parts = entry_parts rest in
      let full = join dir parts in
      let found = elim (stat full) as (λ _. Served) [
        | none ↦ not_found
        | some true ↦ file (join full (codes "main.js" ∷ []))
        | some false ↦ file full
      ] in
      if contains_dots (path_text parts)
      then bad_path
      else if has_prefix (rel_text (rel dir full)) dot_dot
      then bad_path
      else found
]
