-- ===== src/Updater/Preflight.antt =====
-- internal/updater/zip_limits.go: `preflightZipDirectory`.
use wol.Prelude.{
  List, Outcome, err, if◌then◌else◌, leb, length, ltb, not, ok, refuse_if, suc, zero, ℕ, ◌&&◌, ◌*◌,
  ◌+◌, ◌-◌, ◌==◌, ◌>>=◌, ◌>>◌, ◌^◌, ◌||◌,
}
use wol.Updater.Zip.{
  ZipError, bad_format, count_zip_directory, too_many_entries, uint16_at, uint32_at,
}

unfoldable pub uint64_at : List ℕ → ℕ → ℕ
unfolding uint32_at
uint64_at content i = uint32_at content i + 2 ^ 32 * uint32_at content (i + 4)

-- what the end of the central directory declares, and where its record stands
pub record Declared : Type 0 where
  pub records : ℕ
  pub size : ℕ
  pub offset : ℕ
  pub end : ℕ

-- the body of the loop at one position
unfoldable pub end_at : List ℕ → ℕ → Outcome ZipError ℕ
end_at content i =
    if ltb (length content) (i + 22 + uint16_at content (i + 20)) then err bad_format else ok i

-- the loop from a position down to the minimum
unfoldable pub find_end : List ℕ → ℕ → ℕ → Outcome ZipError ℕ
find_end content minimum zero =
    if ltb 0 minimum
    then err bad_format
    else if uint32_at content 0 == 0x06054b50
    then end_at content 0
    else err bad_format
find_end content minimum (suc i) =
    let next = find_end content minimum i in
    if ltb (suc i) minimum
    then err bad_format
    else if uint32_at content (suc i) == 0x06054b50
    then end_at content (suc i)
    else next

unfoldable pub find_last_end : List ℕ → Outcome ZipError ℕ
find_last_end content =
    if ltb (length content) 22
    then err bad_format
    else find_end content (length content - 65 * 1024) (length content - 22)

unfoldable pub declared_at : List ℕ → ℕ → Declared
declared_at content end = record {
  records = uint16_at content (end + 10);
  size = uint32_at content (end + 12);
  offset = uint32_at content (end + 16);
  end = end;
}

-- the record of ZIP64 at the position that its locator gives
unfoldable pub wide_record : List ℕ → ℕ → Outcome ZipError Declared
wide_record content locator =
    let p = uint64_at content (locator + 8) in
    if not (uint32_at content (locator + 4) == 0 && uint32_at content (locator + 16) == 1)
    then err bad_format
    else if ltb (length content) 56 || ltb (length content - 56) p
    then err bad_format
    else if not (uint32_at content p == 0x06064b50)
    then err bad_format
    else ok (record {
      records = uint64_at content (p + 32);
      size = uint64_at content (p + 40);
      offset = uint64_at content (p + 48);
      end = p;
    })

unfoldable pub declared : List ℕ → ℕ → Outcome ZipError Declared
declared content end =
    let d = declared_at content end in
    if (d.records == 0xffff || d.size == 0xffffffff || d.offset == 0xffffffff)
      && leb 20 end
      && uint32_at content (end - 20) == 0x07064b50
    then wide_record content (end - 20)
    else ok d

unfoldable pub check_directories : List ℕ → ℕ → Declared → Outcome ZipError (Unit {0})
check_directories content max_entries d = do
  refuse_if (ltb max_entries d.records) too_many_entries
  refuse_if (ltb d.end d.size || ltb (length content) d.offset) bad_format
  count_zip_directory content (d.end - d.size) max_entries
  if d.offset == d.end - d.size then ok tt else count_zip_directory content d.offset max_entries

unfoldable pub preflight_zip_directory : List ℕ → ℕ → Outcome ZipError (Unit {0})
preflight_zip_directory content max_entries = do
  end ← find_last_end content
  d ← declared content end
  check_directories content max_entries d
