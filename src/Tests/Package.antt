-- ===== src/Tests/Package.antt =====
-- The unpacking of a small package, and the serving of its user interface.
use nova_nas.Base.{
  ◌≡◌, refl, ◌≤◌, Bool, false, Option, none, some, List, [], ◌∷◌, Text, codes, text_eq, text_beq,
  lookup, length, drop_last, split, has_prefix, ok, err,
}
use nova_nas.Plugins.Package.{
  max_extract_bytes, regular, other_type, Entry, Archive, Disk, UiAssets, serve, extract_tarball,
  unpack_tarball, unpack_all, unpack_entry, unpack_as, unpack_dir, unpack_file, write_entry,
  note_file, attempt, begin_at, extract_result, entry_parts, make_dir, write_file, escapes_root,
}
use nova_nas.Plugins.Package.Paths.{
  clean, join, push_part, path_text, slashed, rel, rel_text, contains_dots,
}
use nova_nas.Plugins.Package.Contained.{AllInside, total_bytes, Inside, extract_tarball-contained}
use nova_nas.Plugins.Package.Serving.{serve-Inside}

abbrev good_disk : Disk
good_disk = record {
  make_dir = λ path. none;
  open_file = λ path. none;
  close_file = λ path. none;
  read_file = λ path. none;
}

abbrev dest : List Text
dest = codes "p" ∷ codes "s3" ∷ []

abbrev plain_file : Text → Text → Entry
plain_file name body = record {
  name = name;
  typeflag = regular;
  size = length body;
  body = body;
  broken = false;
}

abbrev bundle : Archive
bundle = record {
  entries =
      plain_file (codes "./manifest.yaml") (codes "m")
      ∷ plain_file (codes "ui/a.js") (codes "js")
      ∷ record (plain_file (codes "link") []) { typeflag = other_type }
      ∷ [];
  ends_badly = false;
}

unpacked : extract_tarball good_disk dest (some bundle) ≡ (
  make_dir dest
      ∷ make_dir dest
      ∷ write_file (codes "p" ∷ codes "s3" ∷ codes "manifest.yaml" ∷ []) (codes "m")
      ∷ make_dir (codes "p" ∷ codes "s3" ∷ codes "ui" ∷ [])
      ∷ write_file (codes "p" ∷ codes "s3" ∷ codes "ui" ∷ codes "a.js" ∷ []) (codes "js")
      ∷ [],
  ok (codes "m", some (codes "p" ∷ codes "s3" ∷ codes "ui" ∷ [])),
)
unfolding extract_tarball unpack_tarball unpack_all unpack_entry unpack_as unpack_dir unpack_file
    write_entry note_file attempt begin_at extract_result entry_parts clean join push_part drop_last
    path_text slashed rel rel_text contains_dots split text_beq has_prefix
unpacked = refl

-- A name that climbs is cleaned, and one that holds two dots after that is refused.
climbing : entry_parts (codes "../../etc/./x") ≡ codes "etc" ∷ codes "x" ∷ []
unfolding entry_parts clean join push_part drop_last split text_beq
climbing = refl

abbrev dotted : Archive
dotted = record { entries = plain_file (codes "ui/a..b") [] ∷ []; ends_badly = false }

dotted_refused :
    (extract_tarball good_disk dest (some dotted)).1 ≡ err (escapes_root (codes "ui/a..b"))
unfolding extract_tarball unpack_tarball unpack_all unpack_entry unpack_as unpack_dir unpack_file
    write_entry note_file attempt begin_at extract_result entry_parts clean join push_part drop_last
    path_text slashed rel rel_text contains_dots split text_beq has_prefix
dotted_refused = refl

abbrev registered : UiAssets
registered = (codes "s3", codes "p" ∷ codes "s3" ∷ codes "ui" ∷ []) ∷ []

abbrev is_there : List Text → Option Bool
is_there path = some false

extract_tarball-contained_example :
    AllInside dest (extract_tarball good_disk dest (some bundle)).0
    × (total_bytes (extract_tarball good_disk dest (some bundle)).0 ≤ max_extract_bytes)
extract_tarball-contained_example = extract_tarball-contained good_disk dest (some bundle)

serve-Inside_example :
    Inside
      (codes "p" ∷ codes "s3" ∷ codes "ui" ∷ [])
      (codes "p" ∷ codes "s3" ∷ codes "ui" ∷ codes "a.js" ∷ [])
unfolding lookup serve entry_parts clean join push_part drop_last split text_beq path_text slashed
    rel rel_text contains_dots has_prefix
serve-Inside_example =
    serve-Inside registered is_there (codes "s3") (codes "../x/../a.js")
      (codes "p" ∷ codes "s3" ∷ codes "ui" ∷ [])
      (codes "p" ∷ codes "s3" ∷ codes "ui" ∷ codes "a.js" ∷ []) refl refl
