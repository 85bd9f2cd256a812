-- ===== src/Updater/Origins.antt =====
-- Where a binary that `ExtractBinary` of internal/updater returns comes from.
use wol.Prelude.{
  Bool-cases, List, Option-cases, Outcome-cases, [], arith, false, inl, inr, length, not, ok, some,
  suc, sym, true, ℕ, ◌&&◌, ◌+◌, ◌<◌, ◌||◌, ◌∷◌, ◌≡◌, ◌≤◌, ◌⊎◌,
}
use wol.Text.{Text, codes, has_suffix, is_empty, to_lower}
use wol.Updater.Budget.{
  FileIn, HeaderAt, Sized, bounded-read, check_expansion-le, here, is_first, is_later,
  read_bounded_binary-Sized, there, total_size,
}
use wol.Updater.Extract.{
  MemberBody, ExtractionLimits, Readers, TarHeader, TarStream, ZipFile, check_expansion,
  extract_binary, extract_checked, extract_entries, extract_files, extract_from_tar_gz,
  extract_from_zip, is_wol_binary, next_entry, read_bounded_binary, tar_broken, tar_end,
  zip_checked,
}
use wol.Updater.Preflight.{preflight_zip_directory}

module _ (readers : Readers) (limits : ExtractionLimits) where
  -- A regular member named as the program, of a size that was left, among the first members.
  pub record FromTar (content binary : List ℕ) : Type 0 where
    pub stream : TarStream
    pub opened : readers.tar_stream content limits.total_bytes ≡ some stream
    pub header : TarHeader
    pub n : ℕ
    pub member : HeaderAt header n stream
    pub early : n < limits.entries
    pub named : (header.regular ≡ true) × (is_wol_binary (readers.base header.name) ≡ true)
    pub fits : (header.size ≤ header.remaining) × (header.size ≤ limits.binary_bytes)
    pub read : header.body (limits.binary_bytes + 1) ≡ some binary

  -- A file named as the program, in an archive that passed the preflight and has few and small files.
  pub record FromZip (content binary : List ℕ) : Type 0 where
    pub files : List ZipFile
    pub opened : readers.zip_files content ≡ some files
    pub passed : preflight_zip_directory content limits.entries ≡ ok tt
    pub few : length files ≤ limits.entries
    pub small : total_size files ≤ limits.total_bytes
    pub file : ZipFile
    pub member : FileIn file files
    pub named : (file.is_dir ≡ false) × (is_wol_binary (readers.base file.name) ≡ true)
    pub fits : file.uncompressed_size ≤ limits.binary_bytes
    pub body : MemberBody
    pub opens : file.open_body ≡ some body
    pub read : body (limits.binary_bytes + 1) ≡ some binary

  -- the member that the loop over a tar file ends at
  record Found (count : ℕ) (stream : TarStream) (binary : List ℕ) : Type 0 where
    header : TarHeader
    n : ℕ
    member : HeaderAt header n stream
    early : count + n < limits.entries
    named : (header.regular ≡ true) × (is_wol_binary (readers.base header.name) ≡ true)
    fits : (header.size ≤ header.remaining) × (header.size ≤ limits.binary_bytes)
    read : read_bounded_binary header.body limits.binary_bytes ≡ ok binary

  extract_entries-Found :
      (count : ℕ) (stream : TarStream) (binary : List ℕ)
      → extract_entries readers limits count stream ≡ ok binary
      → Found count stream binary
  unfolding extract_entries
  extract_entries-Found count tar_end binary h = cc
  extract_entries-Found count tar_broken binary h = cc
  extract_entries-Found count (next_entry header stream) binary h =
      elim (Bool-cases (header.regular && is_wol_binary (readers.base header.name))) [
        | inl hit ↦ record {
          header = header;
          n = 0;
          member = here;
          early = ground (arith, h);
          named = ground (arith, hit);
          fits = ground (arith, h, hit);
          read = ground (arith, h, hit);
        }
        | inr miss ↦
            let f = extract_entries-Found (count + 1) stream binary (ground (arith, h, miss)) in
            record {
              header = f.header;
              n = suc f.n;
              member = there f.member;
              early = omega (arith, f.early);
              named = f.named;
              fits = f.fits;
              read = f.read;
            }
      ]

  -- the file that the loop over a zip archive ends at
  record Unpacked (files : List ZipFile) (binary : List ℕ) : Type 0 where
    file : ZipFile
    member : FileIn file files
    named : (file.is_dir ≡ false) × (is_wol_binary (readers.base file.name) ≡ true)
    fits : file.uncompressed_size ≤ limits.binary_bytes
    body : MemberBody
    opens : file.open_body ≡ some body
    read : read_bounded_binary body limits.binary_bytes ≡ ok binary

  extract_files-Unpacked :
      (files : List ZipFile) (binary : List ℕ)
      → extract_files readers limits files ≡ ok binary
      → Unpacked files binary
  unfolding extract_files
  extract_files-Unpacked [] binary h = cc
  extract_files-Unpacked (file ∷ files) binary h =
      elim (Bool-cases (file.is_dir || not (is_wol_binary (readers.base file.name)))) [
        | inl miss ↦
            let f = extract_files-Unpacked files binary (ground (arith, h, miss)) in
            record {
              file = f.file;
              member = is_later f.member;
              named = f.named;
              fits = f.fits;
              body = f.body;
              opens = f.opens;
              read = f.read;
            }
        | inr hit ↦ elim (Option-cases file.open_body) [
          | inl shut ↦ absurd (ground (arith, h, hit))
          | inr (body, opens) ↦ record {
            file = file;
            member = is_first;
            named = ground (arith, hit);
            fits = ground (arith, h, hit);
            body = body;
            opens = opens;
            read = ground (arith, h, hit, opens);
          }
        ]
      ]

  extract_from_tar_gz-FromTar :
      (content binary : List ℕ)
      → extract_from_tar_gz readers limits content ≡ ok binary
      → FromTar content binary × Sized limits binary
  unfolding extract_from_tar_gz
  extract_from_tar_gz-FromTar content binary h =
      elim (Option-cases (readers.tar_stream content limits.total_bytes)) [
        | inl shut ↦ absurd (ground (arith, h))
        | inr (stream, opened) ↦
            let f = extract_entries-Found 0 stream binary (ground (arith, h)) in
            (
              record {
                stream = stream;
                opened = opened;
                header = f.header;
                n = f.n;
                member = f.member;
                early = omega (arith, f.early);
                named = f.named;
                fits = f.fits;
                read = bounded-read f.header.body limits.binary_bytes binary f.read;
              },
              read_bounded_binary-Sized limits f.header.body binary f.read,
            )
      ]

  unzipped :
      (content binary : List ℕ) (files : List ZipFile)
      → preflight_zip_directory content limits.entries ≡ ok tt
      → readers.zip_files content ≡ some files
      → extract_checked readers limits files ≡ ok binary
      → FromZip content binary × Sized limits binary
  unfolding extract_checked
  unzipped content binary files passed opened h =
      elim (Outcome-cases (check_expansion limits.total_bytes 0 files)) [
        | inr (e, c) ↦ absurd (ground (arith, h))
        | inl (u, c) ↦
            let f = extract_files-Unpacked files binary (ground (arith, h)) in
            (
              record {
                files = files;
                opened = opened;
                passed = passed;
                few = ground (arith, h);
                small =
                    omega (arith, check_expansion-le limits.total_bytes 0 files (omega arith) c);
                file = f.file;
                member = f.member;
                named = f.named;
                fits = f.fits;
                body = f.body;
                opens = f.opens;
                read = bounded-read f.body limits.binary_bytes binary f.read;
              },
              read_bounded_binary-Sized limits f.body binary f.read,
            )
      ]

  extract_from_zip-FromZip :
      (content binary : List ℕ)
      → extract_from_zip readers limits content ≡ ok binary
      → FromZip content binary × Sized limits binary
  unfolding extract_from_zip zip_checked
  extract_from_zip-FromZip content binary h =
      elim (Outcome-cases (preflight_zip_directory content limits.entries)) [
        | inr (e, p) ↦ absurd (ground (arith, h))
        | inl (u, p) ↦ elim (Option-cases (readers.zip_files content)) [
          | inl shut ↦ absurd (ground (arith, h))
          | inr (files, opened) ↦ unzipped content binary files p opened (ground (arith, h))
        ]
      ]

  -- what a binary that is extracted comes from
  abbrev pub Origin : List ℕ → List ℕ → Type 0
  Origin content binary = FromTar content binary ⊎ (FromZip content binary ⊎ (binary ≡ content))

  -- A binary that is extracted is not empty and within the limit. It is what is read of a member
  -- that is named as the program: of a tar file, where it is among the allowed number of members and
  -- no larger than the budget that was left; or of a zip archive, which passed the preflight and
  -- whose files are no more and in sum no larger than allowed; or it is the content itself.
  pub extract_binary-Sized :
      (content binary : List ℕ) (name : Text)
      → extract_binary readers limits content name ≡ ok binary
      → Sized limits binary × Origin content binary
  unfolding extract_binary
  extract_binary-Sized content binary name h =
      let lowered = to_lower name in
      elim (Bool-cases
        (has_suffix lowered (codes ".tar.gz") || has_suffix lowered (codes ".tgz"))) [
          | inl tar ↦
              let (f, s) = extract_from_tar_gz-FromTar content binary (ground (arith, h, tar)) in
              (s, inl f)
          | inr no_tar ↦ elim (Bool-cases (has_suffix lowered (codes ".zip"))) [
            | inl zip ↦
                let (f, s) =
                  extract_from_zip-FromZip content binary (ground (arith, h, no_tar, zip)) in
                (s, inr (inl f))
            | inr raw ↦ elim (Bool-cases (is_empty content)) [
              | inl blank ↦ absurd (ground (arith, h, no_tar, raw))
              | inr full ↦
                  let bytes : content ≡ binary = ground (arith, h, no_tar, raw) in
                  (
                    (rw (sym bytes) full, rw (sym bytes) (ground (arith, h, no_tar, raw))),
                    inr (inr (sym bytes)),
                  )
            ]
          ]
        ]
