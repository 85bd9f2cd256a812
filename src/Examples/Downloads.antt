-- ===== src/Examples/Downloads.antt =====
-- `downloadVerifiedAsset` of internal/updater at concrete inputs.
use wol.Prelude.{
  List, [], false, if◌then◌else◌, ok, pos, refl, replicate, some, true, ℕ, ◌++◌, ◌∷◌, ◌≡◌,
}
use wol.Text.{codes, has_prefix, is_empty, push_front, split, teq, trim_prefix, trim_space}
use wol.Text.Hex.{hex_decode, hex_pair, hex_value}
use wol.Updater.{clean_version}
use wol.Updater.Checksum.{
  bad_shape, checksum_for_asset, checksum_loop, decoded, drop_return, found_checksum, is_blank,
  one_byte_space, read_entry, scan_lines, three_byte_space, two_byte_space,
}
use wol.Updater.Download.{
  Asset, Outside, Release, check_signature, checked_checksum, choose_manifest, decode_key, download,
  download_verified_asset, ed25519_key, find_signature, parse_public_key, present, read_key_file,
  signature_step, verify,
}

abbrev archive : Asset
archive = record { name = codes "wol_1.0_x.zip"; size = pos 3; browser_download_url = codes "a" }

abbrev release : Release
release = record {
  tag = codes "v1.0";
  name = [];
  html_url = [];
  tarball_url = [];
  zipball_url = [];
  published_at = [];
  body = [];
  assets =
      archive
      ∷ record { name = codes "SHA256SUMS"; size = pos 80; browser_download_url = codes "m" }
      ∷ record { name = codes "SHA256SUMS.sig"; size = pos 64; browser_download_url = codes "s" }
      ∷ [];
}

abbrev sums : List ℕ
sums = replicate 64 b'a' ++ codes "  wol_1.0_x.zip\n"

abbrev outside : Outside
outside = record {
  fetch = λ url.
      if teq url (codes "m")
      then some (200, sums)
      else if teq url (codes "s")
      then some (200, replicate 64 7)
      else some (200, 1 ∷ 2 ∷ 3 ∷ []);
  file = λ _. some (true, codes "-----BEGIN PUBLIC KEY-----");
  trim_bytes = λ bytes. bytes;
  pem_decode = λ _.
      some (record { kind = codes "PUBLIC KEY"; has_headers = false; bytes = 1 ∷ []; rest = [] });
  parse_pkix = λ _. some (ed25519_key (replicate 32 9));
  valid = λ _ _ _. true;
  sha256 = λ _. replicate 32 0xaa;
}

downloaded : download_verified_asset outside (codes "key.pem") release archive ≡ ok (1 ∷ 2 ∷ 3 ∷ [])
unfolding download_verified_asset choose_manifest present teq clean_version trim_space trim_prefix
    has_prefix download signature_step is_empty check_signature read_key_file parse_public_key
    decode_key find_signature verify checked_checksum checksum_for_asset scan_lines split push_front
    drop_return checksum_loop is_blank one_byte_space two_byte_space three_byte_space read_entry
    bad_shape decoded hex_decode hex_pair hex_value found_checksum
downloaded = refl

key_given : is_empty (codes "key.pem") ≡ false
unfolding is_empty
key_given = refl
