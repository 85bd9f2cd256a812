-- ===== src/Examples/Updates.antt =====
-- internal/updater at concrete inputs.
use wol.Prelude.{List, [], arith, false, ok, refl, replicate, ℕ, ◌++◌, ◌∷◌, ◌≡◌}
use wol.Text.{codes, is_empty, is_space, push_front, split, teq}
use wol.Text.Hex.{hex_decode, hex_pair, hex_value}
use wol.Text.Laws.{NoSpace}
use wol.Updater.{compare_versions}
use wol.Updater.Checksum.{
  Entry, bad_shape, checksum_for_asset, checksum_loop, decoded, drop_return, found_checksum,
  is_blank, one_byte_space, read_entry, scan_lines, three_byte_space, two_byte_space,
}
use wol.Updater.Manifest.{checksum_for_asset_sound, digests, entries}
use wol.Updater.Numbers.{compare_numbers, compare_versions-version_text, version_text}

compare_versions-version_text_example :
    compare_versions (version_text (1 ∷ 9 ∷ [])) (version_text (1 ∷ 10 ∷ []))
    ≡ compare_numbers (1 ∷ 9 ∷ []) (1 ∷ 10 ∷ [])
compare_versions-version_text_example =
    compare_versions-version_text 1 1 (9 ∷ []) (10 ∷ []) (omega arith) (omega arith)

beta-NoSpace : NoSpace (codes "beta.1")
unfolding is_space
beta-NoSpace = (refl, (refl, (refl, (refl, (refl, (refl, tt))))))

beta_nonempty : is_empty (codes "beta.1") ≡ false
unfolding is_empty
beta_nonempty = refl

abbrev manifest : List ℕ
manifest = replicate 64 b'a' ++ codes "  wol.zip\n"

abbrev digest : List ℕ
digest = replicate 32 0xaa

accepted : checksum_for_asset manifest (codes "wol.zip") ≡ ok digest
unfolding checksum_for_asset scan_lines split drop_return checksum_loop is_blank one_byte_space
    two_byte_space three_byte_space read_entry bad_shape decoded hex_decode hex_pair hex_value
    is_empty teq found_checksum push_front
accepted = refl

checksum_for_asset_sound_example :
    ((scan_lines (split 10 manifest)).1 ≡ false)
    × ((es : List Entry) × (entries (scan_lines (split 10 manifest)).0 ≡ ok es)
        × (digests (codes "wol.zip") es ≡ digest ∷ []))
checksum_for_asset_sound_example =
    checksum_for_asset_sound manifest (codes "wol.zip") digest accepted

-- one record without a name
abbrev one_record : List ℕ
one_record = 0x50 ∷ 0x4b ∷ 1 ∷ 2 ∷ replicate 42 0
