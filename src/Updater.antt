-- ===== src/Updater.antt =====
-- internal/updater/updater.go: the comparison of versions. An order is Go's -1, 0 or 1.
pub mod Versions
pub mod Numbers
pub mod Checksum
pub mod Manifest
pub mod Download
pub mod Trust
pub mod Zip
pub mod Preflight
pub mod Success
pub mod Obtained
pub mod Updated
pub mod Update
pub mod Releases
pub mod Extract
pub mod Budget
pub mod Origins
pub mod Assets
pub mod Platforms
pub mod Entries
pub mod Replace
pub mod Disks
pub mod Swaps
pub mod Installed
use wol.Prelude.{
  Bool, List, Option, [], false, if◌then◌else◌, leb, length, ltb, ltz, negsuc, none, not, pos, some,
  suc, true, zero, ℕ, ℤ, ◌&&◌, ◌-◌, ◌==◌, ◌^◌, ◌∷◌,
}
use wol.Text.{Text, codes, is_empty, split, teq, trim_prefix, trim_space}
use wol.Text.Decimal.{read_digits}

pub data Order : Type 0 where
  older same newer : Order

-- an order that decides, or the next one
unfoldable pub or_else : Order → Order → Order
or_else same next = next
or_else older next = older
or_else newer next = newer

-- `cmp.Compare` on integers
unfoldable pub compare_int : ℤ → ℤ → Order
compare_int a b = if ltz a b then older else if ltz b a then newer else same

-- `strings.Compare`: the order of the bytes of UTF-8 is the order of the code points
unfoldable pub compare_text : Text → Text → Order
compare_text [] [] = same
compare_text [] (_ ∷ _) = older
compare_text (_ ∷ _) [] = newer
compare_text (a ∷ s) (b ∷ t) =
    let rest = compare_text s t in if ltb a b then older else if ltb b a then newer else rest

abbrev pub max_int : ℕ
max_int = 2 ^ 63 - 1

unfoldable pub negate : ℕ → ℤ
negate zero = pos 0
negate (suc n) = negsuc n

-- the digits behind a sign, or nothing on a syntax error
unfoldable pub unsigned : Text → Option ℕ
unsigned [] = none
unsigned (c ∷ s) = read_digits 0 (c ∷ s)

-- `strconv.Atoi` for 64 bits: the value, and whether there is no error; out of range the value is
-- the nearest one
unfoldable pub signed : Bool → Option ℕ → ℤ × Bool
signed negative none = (pos 0, false)
signed false (some n) = if leb n max_int then (pos n, true) else (pos max_int, false)
signed true (some n) = if leb n (suc max_int) then (negate n, true) else (negsuc max_int, false)

unfoldable pub atoi : Text → ℤ × Bool
atoi [] = (pos 0, false)
atoi (c ∷ s) =
    if c == b'-'
    then signed true (unsigned s)
    else if c == b'+'
    then signed false (unsigned s)
    else signed false (unsigned (c ∷ s))

-- `CleanVersion`
unfoldable pub clean_version : Text → Text
clean_version v = trim_prefix (trim_prefix (trim_space v) (codes "v")) (codes "V")

-- `splitPreRelease`
unfoldable pub split_pre_release : Text → Text × Text
split_pre_release [] = ([], [])
split_pre_release (c ∷ v) =
    let (base, pre) = split_pre_release v in if c == b'-' then ([], v) else (c ∷ base, pre)

abbrev pub dot : ℕ
dot = b'.'

-- the loop over the numbers of two bases, where a part that is missing is 0
unfoldable pub compare_parts : List Text → List Text → Order
compare_parts [] [] = same
compare_parts (p ∷ ps) [] = or_else (compare_int (atoi p).0 (pos 0)) (compare_parts ps [])
compare_parts [] (q ∷ qs) = or_else (compare_int (pos 0) (atoi q).0) (compare_parts [] qs)
compare_parts (p ∷ ps) (q ∷ qs) = or_else (compare_int (atoi p).0 (atoi q).0) (compare_parts ps qs)

-- one round of `comparePreRelease`
unfoldable pub compare_identifier : Text → Text → Order
compare_identifier l r =
    if (atoi l).1 && (atoi r).1
    then compare_int (atoi l).0 (atoi r).0
    else if (atoi l).1
    then older
    else if (atoi r).1
    then newer
    else compare_text l r

-- the loop of `comparePreRelease`, and what is returned behind it
unfoldable pub compare_shared : Order → List Text → List Text → Order
compare_shared final [] _ = final
compare_shared final (_ ∷ _) [] = final
compare_shared final (l ∷ ls) (r ∷ rs) =
    or_else (compare_identifier l r) (compare_shared final ls rs)

unfoldable pub compare_pre_release : Text → Text → Order
compare_pre_release a b =
    let left = split dot a in
    let right = split dot b in
    compare_shared (compare_int (pos (length left)) (pos (length right))) left right

-- the comparison of pre-releases behind equal bases
unfoldable pub compare_tags : Text → Text → Order
compare_tags pre1 pre2 =
    if not (is_empty pre1) && is_empty pre2
    then older
    else if is_empty pre1 && not (is_empty pre2)
    then newer
    else compare_pre_release pre1 pre2

-- `CompareVersions` behind `CleanVersion`
unfoldable pub compare_clean : Text → Text → Order
compare_clean c1 c2 =
    if teq c1 c2
    then same
    else if is_empty c1
    then older
    else if is_empty c2
    then newer
    else or_else
        (compare_parts (split dot (split_pre_release c1).0) (split dot (split_pre_release c2).0))
        (compare_tags (split_pre_release c1).1 (split_pre_release c2).1)

unfoldable pub compare_versions : Text → Text → Order
compare_versions v1 v2 = compare_clean (clean_version v1) (clean_version v2)
