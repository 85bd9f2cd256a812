-- ===== src/Updater/Checksum.antt =====
-- internal/updater/checksum.go: `checksumForAsset`. A manifest is its bytes.
use wol.Prelude.{
  Bool, List, Option, Outcome, [], any, drop, err, false, get_or, if◌then◌else◌, leb, length, ltb,
  none, not, ok, refuse_if, some, take, true, ℕ, ◌&&◌, ◌==◌, ◌>>=◌, ◌>>◌, ◌||◌, ◌∷◌,
}
use wol.Text.{is_empty, split, teq}
use wol.Text.Hex.{hex_decode}

pub data ChecksumError : Type 0 where
  bad_entry bad_digest bad_filename duplicate bad_manifest missing : ChecksumError

-- `strings.TrimSpace(line) == ""` on bytes of UTF-8: spaces of one, two and three bytes
unfoldable pub one_byte_space : ℕ → Bool
one_byte_space a = (leb 9 a && leb a 13) || a == 32

unfoldable pub two_byte_space : ℕ → ℕ → Bool
two_byte_space a b = a == 0xc2 && (b == 0x85 || b == 0xa0)

unfoldable pub three_byte_space : ℕ → ℕ → ℕ → Bool
three_byte_space a b c =
    (a == 0xe1 && b == 0x9a && c == 0x80)
    || (a == 0xe2
        && b == 0x80
        && ((leb 0x80 c && leb c 0x8a) || c == 0xa8 || c == 0xa9 || c == 0xaf))
    || (a == 0xe2 && b == 0x81 && c == 0x9f)
    || (a == 0xe3 && b == 0x80 && c == 0x80)

unfoldable pub is_blank : List ℕ → Bool
is_blank [] = true
is_blank (a ∷ []) = one_byte_space a
is_blank (a ∷ b ∷ []) = (one_byte_space a && is_blank (b ∷ [])) || two_byte_space a b
is_blank (a ∷ b ∷ c ∷ s) =
    (one_byte_space a && is_blank (b ∷ c ∷ s))
    || (two_byte_space a b && is_blank (c ∷ s))
    || (three_byte_space a b c && is_blank s)

-- `bufio.Scanner`: the lines up to one that fills its buffer, and whether there is one; a carriage
-- return at the end of a line is dropped, and so is an empty last line
unfoldable pub drop_return : List ℕ → List ℕ
drop_return [] = []
drop_return (c ∷ []) = if c == 13 then [] else c ∷ []
drop_return (c ∷ d ∷ s) = c ∷ drop_return (d ∷ s)

unfoldable pub scan_lines : List (List ℕ) → List (List ℕ) × Bool
scan_lines [] = ([], false)
scan_lines (line ∷ []) =
    if leb 65536 (length line)
    then ([], true)
    else (if is_empty line then [] else drop_return line ∷ [], false)
scan_lines (line ∷ next ∷ rest) =
    let (found, long) = scan_lines (next ∷ rest) in
    if leb 65536 (length line) then ([], true) else (drop_return line ∷ found, long)

pub record Entry : Type 0 where
  pub digest : List ℕ
  pub filename : List ℕ

-- the tests on one line
unfoldable pub decoded : Option (List ℕ) → Outcome ChecksumError (List ℕ)
decoded none = err bad_digest
decoded (some digest) = if length digest == 32 then ok digest else err bad_digest

unfoldable pub bad_shape : List ℕ → Bool
bad_shape line =
    ltb (length line) 67
    || not (get_or line 64 0 == 32)
    || (not (get_or line 65 0 == 32) && not (get_or line 65 0 == b'*'))

unfoldable pub read_entry : List ℕ → Outcome ChecksumError Entry
read_entry line = do
  refuse_if (bad_shape line) bad_entry
  digest ← decoded (hex_decode (take 64 line))
  refuse_if (is_empty (drop 66 line)) bad_filename
  ok (record { digest = digest; filename = drop 66 line })

-- the loop over the lines; `seen` holds the names before this line
unfoldable pub checksum_loop :
    List ℕ
    → List (List ℕ)
    → Option (List ℕ)
    → List (List ℕ)
    → Outcome ChecksumError (Option (List ℕ))
checksum_loop name seen expected [] = ok expected
checksum_loop name seen expected (line ∷ lines) =
    let next = checksum_loop name seen expected lines in
    let after = λ (e : Entry).
      checksum_loop name (e.filename ∷ seen)
        (if teq e.filename name then some e.digest else expected) lines in
    if is_blank line
    then next
    else do e ← read_entry line; refuse_if (any (teq e.filename) seen) duplicate; after e

unfoldable pub found_checksum : Bool → Option (List ℕ) → Outcome ChecksumError (List ℕ)
found_checksum true _ = err bad_manifest
found_checksum false none = err missing
found_checksum false (some digest) = ok digest

unfoldable pub checksum_for_asset : List ℕ → List ℕ → Outcome ChecksumError (List ℕ)
checksum_for_asset manifest name = do
  expected ← checksum_loop name [] none (scan_lines (split 10 manifest)).0
  found_checksum (scan_lines (split 10 manifest)).1 expected
