-- ===== src/Plugins/Package/Contained.antt =====
-- What the unpacking of a package writes, and where.
use nova_nas.Base.{
  ◌≡◌, refl, sym, ap, inl, inr, ◌⊎◌, ℕ, zero, suc, ◌+◌, ◌-◌, ◌≤◌, Bool, true, false, Option, none,
  some, List, [], ◌∷◌, ◌++◌, Text, text_eq, length, drop_last, drop_last-append, take, arith,
  Result, has_prefix, ltb, ◌&&◌, if◌then◌else◌,
}
use nova_nas.Plugins.Package.{
  max_extract_bytes, EntryType, directory, regular, other_type, Entry, Archive, ExtractError, Disk,
  DiskCall, make_dir, write_file, Unpack, note, note_file, write_entry, unpack_file, unpack_dir,
  unpack_as, attempt, entry_parts, unpack_entry, unpack_all, extract_tarball, start, begin_at,
  unpack_tarball, copy_failed, escapes_root,
}
use mathlib.Core.List.{append-nil}
use nova_nas.Plugins.Package.Paths.{
  join, all_plain, clean-all_plain, join_of_plain, rel, rel_text, path_text, contains_dots, dot_dot,
  all_plain-drop_last,
}

-- The path has the components of the directory and then plain ones.
abbrev pub Inside : List Text → List Text → Type 0
Inside dest path = (parts : List Text) × (path ≡ dest ++ parts) × (all_plain parts ≡ true)

-- A file is written inside the directory. A directory that is made stands inside too, or is the one that the
-- directory itself stands in.
abbrev pub CallInside : List Text → DiskCall → Type 0
CallInside dest (make_dir path) = Inside dest path ⊎ (path ≡ drop_last dest)
CallInside dest (write_file path bytes) = Inside dest path

abbrev pub AllInside : List Text → List DiskCall → Type 0
AllInside dest [] = Unit {0}
AllInside dest (call ∷ calls) = CallInside dest call × AllInside dest calls

-- The bytes that the calls write.
abbrev pub bytes_of : DiskCall → ℕ
bytes_of (make_dir path) = 0
bytes_of (write_file path bytes) = length bytes

abbrev pub total_bytes : List DiskCall → ℕ
total_bytes [] = 0
total_bytes (call ∷ calls) = bytes_of call + total_bytes calls

AllInside-snoc :
    (dest : List Text) (calls : List DiskCall) (call : DiskCall)
    → AllInside dest calls
    → CallInside dest call
    → AllInside dest (calls ++ call ∷ [])
AllInside-snoc dest [] call h k = (k, tt)
AllInside-snoc dest (c ∷ calls) call (h, hs) k = (h, AllInside-snoc dest calls call hs k)

total_bytes-snoc :
    (calls : List DiskCall) (call : DiskCall)
    → total_bytes (calls ++ call ∷ []) ≡ total_bytes calls + bytes_of call
total_bytes-snoc [] call = omega arith
total_bytes-snoc (c ∷ calls) call = omega (arith, total_bytes-snoc calls call)

length-take-le : (n : ℕ) (xs : Text) → length (take n xs) ≤ n
length-take-le zero xs = omega arith
length-take-le (suc n) [] = omega arith
length-take-le (suc n) (x ∷ xs) = omega (arith, length-take-le n xs)

-- What holds of the variables of the loop at any time, also when it stops.
pub record IsContained (dest : List Text) (st : Unpack) : Type 0 where
  pub inside : AllInside dest st.calls
  pub bounded : total_bytes st.calls ≤ max_extract_bytes

-- Between entries, what is left is what was not written.
pub record HasRoom (dest : List Text) (st : Unpack) : Type 0 where
  pub inside : AllInside dest st.calls
  pub room : total_bytes st.calls + st.remaining ≤ max_extract_bytes

-- How a step of the loop may leave them.
pub data Leaves (dest : List Text) : Unpack × Option ExtractError → Type 0 where
  goes : {st : Unpack} → HasRoom dest st → Leaves dest (st, none)
  stopped : {st : Unpack} {why : ExtractError} → IsContained dest st → Leaves dest (st, some why)

stops :
    {dest : List Text} {st : Unpack} {why : ExtractError}
    → HasRoom dest st
    → Leaves dest (st, some why)
stops h = stopped (record { inside = h.inside; bounded = omega (arith, h.room) })

if-Leaves :
    (dest : List Text) (b : Bool) (x y : Unpack × Option ExtractError)
    → Leaves dest x
    → Leaves dest y
    → Leaves dest (if b then x else y)
if-Leaves dest true x y h k = h
if-Leaves dest false x y h k = k

attempt-Leaves :
    (dest : List Text) (failed : Option Text) (st : Unpack) (rest : Unpack × Option ExtractError)
    → HasRoom dest st
    → Leaves dest rest
    → Leaves dest (attempt failed st rest)
unfolding attempt
attempt-Leaves dest (some msg) st rest h k = stops h
attempt-Leaves dest none st rest h k = k

module _ (dest : List Text) where
  note-make_dir :
      {st : Unpack} (path : List Text)
      → HasRoom dest st
      → CallInside dest (make_dir path)
      → HasRoom dest (note st (make_dir path))
  note-make_dir {st} path h k = record {
    inside = AllInside-snoc dest st.calls (make_dir path) h.inside k;
    room = omega (arith, h.room, total_bytes-snoc st.calls (make_dir path));
  }

  -- What is copied fits what is left.
  note-write_file :
      {st : Unpack} (path : List Text) (bytes : Text)
      → HasRoom dest st
      → Inside dest path
      → HasRoom dest (record (note st (write_file path (take st.remaining bytes))) {
        remaining = st.remaining - length (take st.remaining bytes);
      })
  note-write_file {st} path bytes h k = record {
    inside = AllInside-snoc dest st.calls (write_file path (take st.remaining bytes)) h.inside k;
    room = omega (
      arith,
      h.room,
      length-take-le st.remaining bytes,
      total_bytes-snoc st.calls (write_file path (take st.remaining bytes)),
    );
  }

  module _ (disk : Disk) where
    note_file-Leaves :
        (st : Unpack) (full : List Text) (name copied : Text)
        → HasRoom dest st
        → Leaves dest (note_file disk st full name copied)
    unfolding note_file
    note_file-Leaves st full name copied h =
        if-Leaves dest _ _ _
          (attempt-Leaves dest (disk.read_file full) st _ h
            (goes (record { inside = h.inside; room = h.room })))
          (goes (record { inside = h.inside; room = h.room }))

    write_entry-Leaves :
        (st : Unpack) (e : Entry) (full : List Text) (name : Text)
        → HasRoom dest st
        → Inside dest full
        → Leaves dest (write_entry disk st e full name)
    unfolding write_entry
    write_entry-Leaves st e full name h k =
        let copied = take st.remaining e.body in
        let charged = note-write_file full e.body h k in
        if-Leaves dest (e.broken && ltb (length e.body) st.remaining)
          (note st (write_file full copied), some copy_failed) _
          (stopped (record { inside = charged.inside; bounded = omega (arith, charged.room) }))
          (attempt-Leaves dest (disk.close_file full) _ _ charged
            (note_file-Leaves _ full name copied charged))

    unpack_as-Leaves :
        (kind : EntryType) (st : Unpack) (e : Entry) (full : List Text) (name : Text)
        → HasRoom dest st
        → Inside dest full
        → CallInside dest (make_dir (drop_last full))
        → Leaves dest (unpack_as disk kind st e full name)
    unfolding unpack_as unpack_dir unpack_file
    unpack_as-Leaves directory st e full name h k up =
        let made = note-make_dir full h (inl k) in
        attempt-Leaves dest (disk.make_dir full) _ _ made
          (goes (record { inside = made.inside; room = made.room }))
    unpack_as-Leaves regular st e full name h k up =
        let made = note-make_dir (drop_last full) h up in
        if-Leaves dest _ _ _ (stops h) (
          attempt-Leaves dest (disk.make_dir (drop_last full)) _ _ made (
            attempt-Leaves dest (disk.open_file full) _ _ made
              (write_entry-Leaves _ e full name made k)))
    unpack_as-Leaves other_type st e full name h k up = goes h

    -- Where an entry goes: the name is cleaned as an absolute path.
    entry-Inside : (name : Text) → Inside dest (join dest (entry_parts name))
    unfolding entry_parts
    entry-Inside name = (
      entry_parts name,
      join_of_plain dest (entry_parts name) (clean-all_plain _),
      clean-all_plain _,
    )

    parent-Inside :
        (parts : List Text)
        → all_plain parts ≡ true
        → CallInside dest (make_dir (drop_last (dest ++ parts)))
    parent-Inside [] h = inr (ap drop_last (append-nil dest))
    parent-Inside (p ∷ ps) h =
        inl (drop_last (p ∷ ps), drop_last-append dest p ps, all_plain-drop_last (p ∷ ps) h)

    unpack_entry-Leaves :
        (st : Unpack) (e : Entry) → HasRoom dest st → Leaves dest (unpack_entry disk dest st e)
    unfolding unpack_entry
    unpack_entry-Leaves st e h =
        let (parts, same, plain) = entry-Inside e.name in
        let full = join dest (entry_parts e.name) in
        let name = rel_text (rel dest full) in
        if-Leaves dest (contains_dots (path_text (entry_parts e.name))) _ _
          (stops {why = escapes_root e.name} h)
          (if-Leaves dest (has_prefix name dot_dot) _ _ (stops {why = escapes_root e.name} h) (
            unpack_as-Leaves e.typeflag st e full name h (parts, same, plain)
              (rw same (parent-Inside parts plain))))

    next-Leaves :
        (es : List Entry) (bad : Bool) (r : Unpack × Option ExtractError)
        → ((st : Unpack) → HasRoom dest st → Leaves dest (unpack_all disk dest st es bad))
        → Leaves dest r
        → Leaves dest (elim r.1 as (λ _. Unpack × Option ExtractError) [
          | some why ↦ (r.0, some why)
          | none ↦ unpack_all disk dest r.0 es bad
        ])
    next-Leaves es bad r more (goes {st} h) = more st h
    next-Leaves es bad r more (stopped h) = stopped h

    unpack_all-Leaves :
        (st : Unpack) (es : List Entry) (bad : Bool)
        → HasRoom dest st
        → Leaves dest (unpack_all disk dest st es bad)
    unfolding unpack_all
    unpack_all-Leaves st [] false h = goes h
    unpack_all-Leaves st [] true h = stops h
    unpack_all-Leaves st (e ∷ es) bad h =
        next-Leaves es bad (unpack_entry disk dest st e) (λ st' h'. unpack_all-Leaves st' es bad h')
          (unpack_entry-Leaves st e h)

Leaves-IsContained :
    (dest : List Text) (r : Unpack × Option ExtractError) → Leaves dest r → IsContained dest r.0
Leaves-IsContained dest r (goes h) = record { inside = h.inside; bounded = omega (arith, h.room) }
Leaves-IsContained dest r (stopped h) = h

at_dest-Inside : (dest : List Text) → CallInside dest (make_dir dest)
at_dest-Inside dest = inl ([], sym (append-nil dest), refl)

at_start : (dest : List Text) → AllInside dest (start dest).calls
at_start dest = (at_dest-Inside dest, tt)

unpack_tarball-contained :
    (disk : Disk) (dest : List Text) (tarball : Option Archive)
    → AllInside dest (unpack_tarball disk dest tarball).0
      × (total_bytes (unpack_tarball disk dest tarball).0 ≤ max_extract_bytes)
unfolding unpack_tarball
unpack_tarball-contained disk dest none = (at_start dest, omega arith)
unpack_tarball-contained disk dest (some archive) =
    let begun : HasRoom dest (start dest) = record { inside = at_start dest; room = omega arith } in
    let done =
      Leaves-IsContained dest _
        (unpack_all-Leaves dest disk (start dest) archive.entries archive.ends_badly begun) in
    (done.inside, done.bounded)

begin_at-contained :
    {A : Type 0} (dest : List Text) (failed : Option Text)
    (rest : List DiskCall × Result ExtractError A)
    → AllInside dest rest.0 × (total_bytes rest.0 ≤ max_extract_bytes)
    → AllInside dest (begin_at failed ((start dest).calls) rest).0
      × (total_bytes (begin_at failed ((start dest).calls) rest).0 ≤ max_extract_bytes)
unfolding begin_at
begin_at-contained dest (some msg) rest h = (at_start dest, omega arith)
begin_at-contained dest none rest h = h

-- Whatever a package holds and however its unpacking ends: every file that is written lies in the directory that
-- it was unpacked to, below it by plain names alone, every directory that is made lies there too or is the one
-- above it, and no more than 512 MiB are written to files in all.
pub extract_tarball-contained :
    (disk : Disk) (dest : List Text) (tarball : Option Archive)
    → AllInside dest (extract_tarball disk dest tarball).0
      × (total_bytes (extract_tarball disk dest tarball).0 ≤ max_extract_bytes)
unfolding extract_tarball
extract_tarball-contained disk dest tarball =
    begin_at-contained dest (disk.make_dir dest) (unpack_tarball disk dest tarball)
      (unpack_tarball-contained disk dest tarball)
