-- ===== src/Updater/Zip.antt =====
-- internal/updater/zip_limits.go: `countZipDirectory`. Bytes beyond the content are not read.
use wol.Prelude.{
  Bool, Bool-cases, List, Outcome, arith, err, false, get_or, if◌then◌else◌, inl, inr, leb, length,
  ltb, not, ok, suc, true, zero, ℕ, ◌&&◌, ◌*◌, ◌+◌, ◌==◌, ◌^◌, ◌↔◌, ◌≡◌, ◌≤◌,
}
use wol.Updater.Manifest.{entries}

pub data ZipError : Type 0 where
  too_many_entries bad_format : ZipError

-- `binary.LittleEndian`
unfoldable pub uint16_at : List ℕ → ℕ → ℕ
uint16_at content i = get_or content i 0 + 2 ^ 8 * get_or content (i + 1) 0

unfoldable pub uint32_at : List ℕ → ℕ → ℕ
uint32_at content i = uint16_at content i + 2 ^ 16 * uint16_at content (i + 2)

-- the condition of the loop
unfoldable pub at_header : List ℕ → ℕ → Bool
at_header content position =
    leb (position + 4) (length content) && uint32_at content position == 0x02014b50

-- the length of a record with its name, its extra field and its comment
unfoldable pub record_length : List ℕ → ℕ → ℕ
record_length content position =
    46
    + uint16_at content (position + 28)
    + uint16_at content (position + 30)
    + uint16_at content (position + 32)

-- The loop, with the entries that are left.
unfoldable pub count_zip_directory : List ℕ → ℕ → ℕ → Outcome ZipError (Unit {0})
count_zip_directory content position zero =
    if at_header content position then err too_many_entries else ok tt
count_zip_directory content position (suc left) =
    let next = count_zip_directory content (position + record_length content position) left in
    if not (at_header content position)
    then ok tt
    else if ltb (length content) (position + 46)
    then err bad_format
    else if ltb (length content) (position + record_length content position)
    then err bad_format
    else next

-- A directory from a position: so many records one behind the other, each of them whole.
pub data Directory (content : List ℕ) : ℕ → ℕ → Type 0 where
  finish : {position : ℕ} → at_header content position ≡ false → Directory content position 0
  entry :
      {position n : ℕ}
      → at_header content position ≡ true
      → position + record_length content position ≤ length content
      → Directory content (position + record_length content position) n
      → Directory content position (suc n)

directory_of :
    (content : List ℕ) (position entries : ℕ)
    → count_zip_directory content position entries ≡ ok tt
    → (n : ℕ) × (n ≤ entries) × Directory content position n
unfolding count_zip_directory
directory_of content position zero h = (0, omega arith, finish (ground arith))
directory_of content position (suc left) h = elim (Bool-cases (at_header content position)) [
  | inr n ↦ (0, omega arith, finish n)
  | inl y ↦
      let (n, few, d) =
        directory_of content (position + record_length content position) left (ground arith) in
      (suc n, omega arith, entry y (ground arith) d)
]

count_of :
    (content : List ℕ) (position n entries : ℕ)
    → n ≤ entries
    → Directory content position n
    → count_zip_directory content position entries ≡ ok tt
unfolding count_zip_directory
count_of content position zero zero few (finish h) = rw h
count_of content position zero (suc left) few (finish h) = rw h
count_of content position (suc n) zero few (entry h fits d) = absurd (omega arith)
count_of content position (suc n) (suc left) few (entry h fits d) =
    let rest =
      count_of content (position + record_length content position) n left (omega arith) d in
    let whole : position + 46 ≤ length content = unfold record_length in omega arith in
    ground (arith, rest)

-- The preflight accepts a position exactly if at most the allowed number of whole records follow
-- one another from it.
pub count_zip_directory_exact :
    (content : List ℕ) (position entries : ℕ)
    → (count_zip_directory content position entries ≡ ok tt)
      ↔ ((n : ℕ) × (n ≤ entries) × Directory content position n)
count_zip_directory_exact content position entries = (
  directory_of content position entries,
  λ (n, few, d). count_of content position n entries few d,
)
