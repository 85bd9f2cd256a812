-- ===== src/Updater/Budget.antt =====
-- The limits that a binary has passed when `ExtractBinary` of internal/updater returns it.
use wol.Prelude.{
  Bool-cases, List, Option-cases, [], arith, false, inl, inr, length, ok, some, suc, sym, zero, ℕ,
  ◌+◌, ◌∷◌, ◌≡◌, ◌≤◌,
}
use wol.Text.{is_empty}
use wol.Updater.Extract.{
  MemberBody, ExtractionLimits, TarHeader, TarStream, ZipFile, check_expansion, next_entry,
  read_bounded_binary,
}

abbrev pub Sized : ExtractionLimits → List ℕ → Type 0
Sized limits binary = (is_empty binary ≡ false) × (length binary ≤ limits.binary_bytes)

pub read_bounded_binary-Sized :
    (limits : ExtractionLimits) (body : MemberBody) (binary : List ℕ)
    → read_bounded_binary body limits.binary_bytes ≡ ok binary
    → Sized limits binary
unfolding read_bounded_binary
read_bounded_binary-Sized limits body binary h =
    elim (Option-cases (body (limits.binary_bytes + 1))) [
      | inl none_read ↦ absurd (ground (arith, h))
      | inr (bytes, read) ↦ elim (Bool-cases (is_empty bytes)) [
        | inl blank ↦ absurd (ground (arith, h))
        | inr full ↦
            let same_bytes : bytes ≡ binary = ground (arith, h) in
            (rw (sym same_bytes) full, rw (sym same_bytes) (ground (arith, h)))
      ]
    ]

pub bounded-read :
    (body : MemberBody) (limit : ℕ) (binary : List ℕ)
    → read_bounded_binary body limit ≡ ok binary
    → body (limit + 1) ≡ some binary
unfolding read_bounded_binary
bounded-read body limit binary h = elim (Option-cases (body (limit + 1))) [
  | inl none_read ↦ absurd (ground (arith, h))
  | inr (bytes, read) ↦
      let same_bytes : bytes ≡ binary = ground (arith, h) in rw (sym same_bytes) read
]

-- the n-th header of a stream
pub data HeaderAt (header : TarHeader) : ℕ → TarStream → Type 0 where
  here : {stream : TarStream} → HeaderAt header zero (next_entry header stream)
  there :
      {n : ℕ} {other : TarHeader} {stream : TarStream}
      → HeaderAt header n stream
      → HeaderAt header (suc n) (next_entry other stream)

-- a file of an archive
pub data FileIn (file : ZipFile) : List ZipFile → Type 0 where
  is_first : {files : List ZipFile} → FileIn file (file ∷ files)
  is_later :
      {other : ZipFile} {files : List ZipFile} → FileIn file files → FileIn file (other ∷ files)

unfoldable pub total_size : List ZipFile → ℕ
total_size [] = 0
total_size (file ∷ files) = file.uncompressed_size + total_size files

pub check_expansion-le :
    (total expanded : ℕ) (files : List ZipFile)
    → expanded ≤ total
    → check_expansion total expanded files ≡ ok tt
    → expanded + total_size files ≤ total
unfolding check_expansion total_size
check_expansion-le total expanded [] within h = omega arith
check_expansion-le total expanded (file ∷ files) within h =
    let small : expanded + file.uncompressed_size ≤ total = ground (arith, h, within) in
    let ih =
      check_expansion-le total (expanded + file.uncompressed_size) files small
        (ground (arith, h)) in
    omega (arith, ih)
