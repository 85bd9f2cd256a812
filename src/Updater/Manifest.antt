-- ===== src/Updater/Manifest.antt =====
-- What `checksumForAsset` finds in a manifest.
-- the entries of the lines that are not blank
use wol.Prelude.{
  Bool, Bool-cases, List, Option, Outcome, Outcome-cases, [], any, arith, false, if◌then◌else◌, inl,
  inr, none, ok, refl, some, ℕ, ◌>>=◌, ◌∷◌, ◌≡◌,
}
use wol.Text.{split, teq}
use wol.Text.Laws.{teq_iff, teq_refl}
use wol.Updater.Checksum.{
  ChecksumError, Entry, checksum_for_asset, checksum_loop, found_checksum, is_blank, read_entry,
  scan_lines,
}

unfoldable pub entries : List (List ℕ) → Outcome ChecksumError (List Entry)
entries [] = ok []
entries (line ∷ lines) =
    let rest = entries lines in
    if is_blank line then rest else do e ← read_entry line; es ← rest; ok (e ∷ es)

-- the digests of the entries with a name
unfoldable pub digests : List ℕ → List Entry → List (List ℕ)
digests name [] = []
digests name (e ∷ es) =
    let rest = digests name es in if teq e.filename name then e.digest ∷ rest else rest

-- what the loop returns, for the digests that the lines name
data Lookup (listed : Bool) (expected result : Option (List ℕ)) (ds : List (List ℕ)) : Type 0 where
  unnamed : ds ≡ [] → result ≡ expected → Lookup listed expected result ds
  named :
      (digest : List ℕ)
      → listed ≡ false
      → ds ≡ digest ∷ []
      → result ≡ some digest
      → Lookup listed expected result ds

abbrev is_seen : List ℕ → List (List ℕ) → Bool
is_seen name seen = any (teq name) seen

-- the lookup behind one more entry
Lookup-cons :
    (name : List ℕ) (seen : List (List ℕ)) (e : Entry) (es : List Entry)
    (expected result : Option (List ℕ))
    → is_seen e.filename seen ≡ false
    → Lookup
        (is_seen name (e.filename ∷ seen))
        (if teq e.filename name then some e.digest else expected)
        result
        (digests name es)
    → Lookup (is_seen name seen) expected result (digests name (e ∷ es))
unfolding digests
Lookup-cons name seen e es expected result fresh look = elim (Bool-cases (teq e.filename name)) [
  | inl y ↦
      let q : e.filename ≡ name = (teq_iff e.filename name).0 y in
      elim look [
        | unnamed d r ↦ named e.digest (rw (← q) fresh) (rw (y, d, digests)) (cc (r, y))
        | named digest l d r ↦ absurd (ground (arith, l, q, teq_refl name))
      ]
  | inr n ↦ elim look [
    | unnamed d r ↦ unnamed (rw (n, d, digests)) (rw n at r)
    | named digest l d r ↦ named digest (ground (arith, l)) (rw (n, d, digests)) r
  ]
]

checksum_loop-Lookup :
    (name : List ℕ) (seen : List (List ℕ)) (expected result : Option (List ℕ))
    (lines : List (List ℕ))
    → checksum_loop name seen expected lines ≡ ok result
    → (es : List Entry) × (entries lines ≡ ok es)
      × Lookup (is_seen name seen) expected result (digests name es)
unfolding checksum_loop entries digests
checksum_loop-Lookup name seen expected result [] h = ([], refl, unnamed refl (ground arith))
checksum_loop-Lookup name seen expected result (line ∷ lines) h =
    elim (Bool-cases (is_blank line)) [
      | inl b ↦
          let (es, k, l) = checksum_loop-Lookup name seen expected result lines (ground arith) in
          (es, rw (b, k, entries), l)
      | inr b ↦ elim (Outcome-cases (read_entry line)) [
        | inr (w, r) ↦ absurd (ground arith)
        | inl (e, r) ↦ elim (Bool-cases (is_seen e.filename seen)) [
          | inl d ↦ absurd (ground arith)
          | inr d ↦
              let (es, k, l) =
                checksum_loop-Lookup name (e.filename ∷ seen)
                  (if teq e.filename name then some e.digest else expected) result lines
                  (ground arith) in
              (e ∷ es, rw (b, r, k, entries), Lookup-cons name seen e es expected result d l)
        ]
      ]
    ]

-- An accepted manifest is read to its end, each of its lines that are not blank is an entry, and
-- exactly one entry has the name that is asked for: its digest is the result.
pub checksum_for_asset_sound :
    (manifest name digest : List ℕ)
    → checksum_for_asset manifest name ≡ ok digest
    → ((scan_lines (split 10 manifest)).1 ≡ false)
      × ((es : List Entry) × (entries (scan_lines (split 10 manifest)).0 ≡ ok es)
          × (digests name es ≡ digest ∷ []))
unfolding checksum_for_asset found_checksum
checksum_for_asset_sound manifest name digest h =
    elim (Outcome-cases (checksum_loop name [] none (scan_lines (split 10 manifest)).0)) [
      | inr (w, r) ↦ absurd (ground arith)
      | inl (result, r) ↦
          let found : result ≡ some digest = ground arith in
          let (es, k, l) = checksum_loop-Lookup name [] none result _ r in
          (
            ground arith,
            (es, k, elim l [ unnamed d q ↦ absurd (cc (found, q)) | named d _ q v ↦ ground arith ]),
          )
    ]
