-- ===== src/Updater/Extract.antt =====
-- internal/updater: `ExtractBinary` with the limits of limits.go, and `extractFromTarGz` and
-- `extractFromZip` of updater.go. The readers of gzip, tar and zip are parameters.
use wol.Prelude.{
  Bool, List, Option, Outcome, [], err, if◌then◌else◌, leb, length, ltb, none, not, ok, refuse_if,
  some, ℕ, ◌&&◌, ◌*◌, ◌+◌, ◌-◌, ◌>>◌, ◌^◌, ◌||◌, ◌∷◌,
}
use wol.Text.{Text, codes, has_suffix, is_empty, teq, to_lower}
use wol.Updater.Preflight.{preflight_zip_directory}
use wol.Updater.Zip.{ZipError}

pub data ExtractError : Type 0 where
  bad_gzip bad_tar bad_zip_file unreadable : ExtractError
  too_many total_too_large binary_too_large empty no_binary : ExtractError
  zip_refused : ZipError → ExtractError

pub record ExtractionLimits : Type 0 where
  pub binary_bytes : ℕ
  pub total_bytes : ℕ
  pub entries : ℕ

abbrev pub release_extraction_limits : ExtractionLimits
release_extraction_limits = record {
  binary_bytes = 128 * 2 ^ 20;
  total_bytes = 256 * 2 ^ 20;
  entries = 4096;
}

-- A member of an archive that can be read: what a read of at most so many bytes gives.
abbrev pub MemberBody : Type 0
MemberBody = ℕ → Option (List ℕ)

pub record TarHeader : Type 0 where
  pub name : Text
  pub size : ℕ
  pub regular : Bool
  pub body : MemberBody
  -- what is left of the budget behind the header
  pub remaining : ℕ

-- What the calls of `Next` give until the first that gives no header.
pub data TarStream : Type 0 where
  tar_end tar_broken : TarStream
  next_entry : TarHeader → TarStream → TarStream

pub record ZipFile : Type 0 where
  pub name : Text
  pub uncompressed_size : ℕ
  pub is_dir : Bool
  pub open_body : Option MemberBody

-- The readers: `filepath.Base`, the stream of a gzip file under a budget of bytes, and the files of a
-- zip archive.
pub record Readers : Type 0 where
  pub base : Text → Text
  pub tar_stream : List ℕ → ℕ → Option TarStream
  pub zip_files : List ℕ → Option (List ZipFile)

unfoldable pub is_wol_binary : Text → Bool
is_wol_binary name =
    let lowered = to_lower name in teq lowered (codes "wol") || teq lowered (codes "wol.exe")

unfoldable pub read_bounded_binary : MemberBody → ℕ → Outcome ExtractError (List ℕ)
read_bounded_binary body limit = elim (body (limit + 1)) [
  | none ↦ err unreadable
  | some bytes ↦
      if ltb limit (length bytes)
      then err binary_too_large
      else if is_empty bytes
      then err empty
      else ok bytes
]

-- the loop that sums the sizes
unfoldable pub check_expansion : ℕ → ℕ → List ZipFile → Outcome ExtractError (Unit {0})
check_expansion total expanded [] = ok tt
check_expansion total expanded (file ∷ files) =
    let rest = check_expansion total (expanded + file.uncompressed_size) files in
    if ltb (total - expanded) file.uncompressed_size then err total_too_large else rest

-- the preflight with its error passed on
unfoldable pub zip_checked : Outcome ZipError (Unit {0}) → Outcome ExtractError (Unit {0})
zip_checked (ok u) = ok u
zip_checked (err e) = err (zip_refused e)

module _ (readers : Readers) (limits : ExtractionLimits) where
  -- the loop over the entries of a tar file
  unfoldable pub extract_entries : ℕ → TarStream → Outcome ExtractError (List ℕ)
  extract_entries count tar_end = err no_binary
  extract_entries count tar_broken = err bad_tar
  extract_entries count (next_entry header stream) =
      let rest = extract_entries (count + 1) stream in
      if leb limits.entries count
      then err too_many
      else if ltb header.remaining header.size
      then err total_too_large
      else if not (header.regular && is_wol_binary (readers.base header.name))
      then rest
      else if ltb limits.binary_bytes header.size
      then err binary_too_large
      else read_bounded_binary header.body limits.binary_bytes

  unfoldable pub extract_from_tar_gz : List ℕ → Outcome ExtractError (List ℕ)
  extract_from_tar_gz content = elim (readers.tar_stream content limits.total_bytes) [
    | none ↦ err bad_gzip
    | some stream ↦ extract_entries 0 stream
  ]

  -- the loop that finds the binary
  unfoldable pub extract_files : List ZipFile → Outcome ExtractError (List ℕ)
  extract_files [] = err no_binary
  extract_files (file ∷ files) =
      let rest = extract_files files in
      if file.is_dir || not (is_wol_binary (readers.base file.name))
      then rest
      else if ltb limits.binary_bytes file.uncompressed_size
      then err binary_too_large
      else elim file.open_body [
        | none ↦ err unreadable
        | some body ↦ read_bounded_binary body limits.binary_bytes
      ]

  unfoldable pub extract_checked : List ZipFile → Outcome ExtractError (List ℕ)
  extract_checked files = do
    refuse_if (ltb limits.entries (length files)) too_many
    check_expansion limits.total_bytes 0 files
    extract_files files

  unfoldable pub extract_from_zip : List ℕ → Outcome ExtractError (List ℕ)
  extract_from_zip content = do
    zip_checked (preflight_zip_directory content limits.entries)
    elim (readers.zip_files content) [
      | none ↦ err bad_zip_file
      | some files ↦ extract_checked files
    ]

  unfoldable pub extract_binary : List ℕ → Text → Outcome ExtractError (List ℕ)
  extract_binary content name =
      let lowered = to_lower name in
      if has_suffix lowered (codes ".tar.gz") || has_suffix lowered (codes ".tgz")
      then extract_from_tar_gz content
      else if has_suffix lowered (codes ".zip")
      then extract_from_zip content
      else if ltb limits.binary_bytes (length content)
      then err binary_too_large
      else if is_empty content
      then err empty
      else ok content
