-- ===== src/Examples/Upgrades.antt =====
-- `ExecuteUpdate` and its parts, of internal/updater, at concrete inputs.
use wol.Prelude.{
  Bool, List, String, [], err, false, if◌then◌else◌, none, not, ok, pos, refl, replicate, some,
  true, zero, ℕ, ◌++◌, ◌||◌, ◌↔◌, ◌∷◌, ◌≡◌,
}
use wol.Text.{
  codes, contains, has_prefix, has_suffix, is_empty, push_front, split, teq, to_lower, trim_prefix,
  trim_space,
}
use wol.Text.Decimal.{read_digits}
use wol.Text.Hex.{hex_decode, hex_pair, hex_value}
use wol.Updater.{
  atoi, clean_version, compare_clean, compare_identifier, compare_int, compare_parts,
  compare_pre_release, compare_shared, compare_tags, compare_text, compare_versions, or_else,
  signed, split_pre_release, unsigned,
}
use wol.Updater.Assets.{
  arch_synonyms, fields_from, filename_tokens, fits_platform, is_companion, is_separator,
  match_asset, matches_target, os_synonyms, other_terms, terms_of, token_contains,
}
use wol.Updater.Budget.{Sized}
use wol.Updater.Checksum.{
  bad_shape, checksum_for_asset, checksum_loop, decoded, drop_return, found_checksum, is_blank,
  one_byte_space, read_entry, scan_lines, three_byte_space, two_byte_space,
}
use wol.Updater.Download.{
  Asset, Outside, Release, check_signature, checked_checksum, choose_manifest, decode_key, download,
  download_verified_asset, ed25519_key, find_signature, parse_public_key, present, read_key_file,
  signature_step, verify,
}
use wol.Updater.Entries.{Bounded, preflight_zip_directory_exact}
use wol.Updater.Extract.{
  ExtractionLimits, Readers, extract_binary, extract_entries, extract_from_tar_gz, is_wol_binary,
  next_entry, read_bounded_binary, release_extraction_limits, tar_end,
}
use wol.Updater.Origins.{Origin, extract_binary-Sized}
use wol.Updater.Platforms.{KnownTarget, match_asset_unique}
use wol.Updater.Preflight.{
  Declared, check_directories, declared, declared_at, end_at, find_end, find_last_end,
  preflight_zip_directory,
}
use wol.Updater.Releases.{
  Client, check_latest, decoded_release, fetch_latest_release, is_older, split_text, tag_of_parts,
}
use wol.Updater.Replace.{
  Disk, DiskTask, Machine, destination, install_at, is_temporary_executable, not_moved, old_copy,
  put, remove, rename, replace_executable, resolved, swap_unix, swap_windows, temporary_executable,
}
use wol.Updater.Success.{is_there, replace_executable_outcome}
use wol.Updater.Swaps.{Fresh, Settled}
use wol.Updater.Update.{
  UpdateOptions, UpdateWorld, apply_choice, choose_latest, choose_release, execute_update,
  from_asset, in_context, install_binary, obtain_binary,
}
use wol.Updater.Updated.{Trusted, execute_update-Trusted}
use wol.Updater.Zip.{at_header, count_zip_directory, uint16_at, uint32_at}

abbrev asset : Asset
asset = record {
  name = codes "wol_1.1_linux_amd64";
  size = pos 3;
  browser_download_url = codes "a";
}

abbrev release : Release
release = record {
  tag = codes "v1.1";
  name = [];
  html_url = [];
  tarball_url = [];
  zipball_url = [];
  published_at = [];
  body = [];
  assets =
      asset
      ∷ record { name = codes "SHA256SUMS"; size = pos 80; browser_download_url = codes "m" }
      ∷ record { name = codes "SHA256SUMS.sig"; size = pos 64; browser_download_url = codes "s" }
      ∷ [];
}

abbrev sums : List ℕ
sums = replicate 64 b'a' ++ codes "  wol_1.1_linux_amd64\n"

abbrev outside : Outside
outside = record {
  fetch = λ url.
      if teq url (codes "m")
      then some (200, sums)
      else if teq url (codes "s")
      then some (200, replicate 64 7)
      else some (200, 1 ∷ 2 ∷ 3 ∷ []);
  file = λ _. some (true, codes "-----BEGIN PUBLIC KEY-----");
  trim_bytes = λ bytes. bytes;
  pem_decode = λ _.
      some (record { kind = codes "PUBLIC KEY"; has_headers = false; bytes = 1 ∷ []; rest = [] });
  parse_pkix = λ _. some (ed25519_key (replicate 32 9));
  valid = λ _ _ _. true;
  sha256 = λ _. replicate 32 0xaa;
}

abbrev on_system : String → (DiskTask → Bool) → Machine
on_system os works = record {
  os = codes os;
  arch = codes "amd64";
  own_path = some (codes "/bin/wol");
  eval_symlinks = λ path. none;
  clean = λ path. path;
  dir = λ path. codes "/bin";
  to_slash = λ path. path;
  temp_in = λ dir. codes "/bin/t";
  works = works;
  cut_short = λ bytes. [];
}

abbrev plain_readers : Readers
plain_readers = record {
  base = λ path. path;
  tar_stream = λ content budget. none;
  zip_files = λ content. none;
}

abbrev world : UpdateWorld
world = record {
  out = outside;
  hub = record { location = λ url. none; decode = λ body. some release };
  readers = plain_readers;
  tools = record {
    go_found = false;
    temp_made = false;
    installs = λ target. false;
    built = λ target. none;
  };
  host = on_system "linux" (λ task. true);
}

abbrev client : Client
client = record {
  current_version = codes "1.0";
  repo = codes "o/wol";
  base_api_url = codes "api";
  base_web_url = codes "web";
  public_key_file = codes "key.pem";
}

abbrev plain_update : UpdateOptions
plain_update = record { check_only = false; force = false; target_version = []; target_file = [] }

abbrev old_disk : Disk
old_disk path = if teq path (codes "/bin/wol") then some (9 ∷ []) else none

key_given : is_empty client.public_key_file ≡ false
unfolding is_empty
key_given = refl

executable_found : destination world.host plain_update.target_file ≡ some (codes "/bin/wol")
unfolding destination is_empty resolved
executable_found = refl

temp-Fresh :
    (os : String) → Fresh (on_system os (λ task. true)) (codes "/bin/wol") (codes "/bin/t") old_disk
unfolding teq old_copy
temp-Fresh os = (refl, λ e. cc (e), λ e. cc (e))

execute_update-Trusted_example :
    Trusted world client plain_update
      (codes "/bin/wol")
      (codes "/bin/t")
      old_disk
      (execute_update world client plain_update old_disk)
execute_update-Trusted_example =
    execute_update-Trusted world client plain_update key_given (codes "/bin/wol") old_disk
      executable_found (temp-Fresh "linux")

upgraded :
    (execute_update world client plain_update old_disk).1 (codes "/bin/wol") ≡ some (1 ∷ 2 ∷ 3 ∷ [])
unfolding execute_update choose_release choose_latest check_latest fetch_latest_release
    decoded_release in_context is_older compare_versions clean_version trim_space trim_prefix
    has_prefix apply_choice obtain_binary match_asset fits_platform filename_tokens fields_from
    is_separator is_companion matches_target token_contains terms_of other_terms os_synonyms
    arch_synonyms to_lower has_suffix teq from_asset download_verified_asset choose_manifest present
    download signature_step is_empty check_signature read_key_file parse_public_key decode_key
    find_signature verify checked_checksum checksum_for_asset scan_lines split push_front
    drop_return checksum_loop is_blank one_byte_space two_byte_space three_byte_space read_entry
    bad_shape decoded hex_decode hex_pair hex_value found_checksum extract_binary install_binary
    replace_executable destination resolved is_temporary_executable contains install_at swap_unix
    rename put compare_clean split_pre_release compare_parts compare_tags compare_pre_release
    compare_shared compare_identifier atoi unsigned signed compare_int or_else compare_text
    read_digits
upgraded = refl

-- An archive that is named for x86_64 falls into the parts x86 and 64: it is taken for 386.
abbrev wide_asset : Asset
wide_asset = record {
  name = codes "wol_linux_x86_64.tar.gz";
  size = pos 3;
  browser_download_url = codes "a";
}

wide_on_amd64 : match_asset (wide_asset ∷ []) (codes "linux") (codes "amd64") ≡ none
unfolding match_asset fits_platform filename_tokens fields_from is_separator is_companion
    matches_target token_contains terms_of other_terms os_synonyms arch_synonyms to_lower has_suffix
    has_prefix teq is_empty
wide_on_amd64 = refl

wide_on_386 : match_asset (wide_asset ∷ []) (codes "linux") (codes "386") ≡ some wide_asset
unfolding match_asset fits_platform filename_tokens fields_from is_separator is_companion
    matches_target token_contains terms_of other_terms os_synonyms arch_synonyms to_lower has_suffix
    has_prefix teq is_empty
wide_on_386 = refl

wide_behind : match_asset (asset ∷ wide_asset ∷ []) (codes "linux") (codes "386") ≡ some wide_asset
unfolding match_asset fits_platform filename_tokens fields_from is_separator is_companion
    matches_target token_contains terms_of other_terms os_synonyms arch_synonyms to_lower has_suffix
    has_prefix teq is_empty
wide_behind = refl

match_asset_unique_example :
    (KnownTarget os_synonyms (codes "linux") → codes "linux" ≡ codes "linux")
    × (KnownTarget arch_synonyms (codes "386") → codes "386" ≡ codes "386")
match_asset_unique_example =
    match_asset_unique (wide_asset ∷ []) (asset ∷ wide_asset ∷ []) (codes "linux") (codes "linux")
      (codes "386") (codes "386") wide_asset wide_on_386 wide_behind

raw_binary :
    extract_binary plain_readers release_extraction_limits (7 ∷ 8 ∷ []) (codes "wol")
    ≡ ok (7 ∷ 8 ∷ [])
unfolding extract_binary has_suffix has_prefix to_lower is_empty
raw_binary = refl

-- a tar file with a directory and the program
abbrev tar_readers : Readers
tar_readers = record {
  base = λ path. path;
  tar_stream = λ content budget. some (
      next_entry
        (record { name = codes "d"; size = 0; regular = false; body = λ n. none; remaining = 9 })
        (next_entry
          (record {
            name = codes "wol.exe";
            size = 2;
            regular = true;
            body = λ n. some (4 ∷ 5 ∷ []);
            remaining = 8;
          })
          tar_end));
  zip_files = λ content. none;
}

abbrev small_limits : ExtractionLimits
small_limits = record { binary_bytes = 2; total_bytes = 9; entries = 2 }

from_tar : extract_binary tar_readers small_limits [] (codes "w.tgz") ≡ ok (4 ∷ 5 ∷ [])
unfolding extract_binary has_suffix has_prefix to_lower is_empty extract_from_tar_gz extract_entries
    is_wol_binary teq read_bounded_binary
from_tar = refl

extract_binary-Sized_example :
    Sized small_limits (4 ∷ 5 ∷ []) × Origin tar_readers small_limits [] (4 ∷ 5 ∷ [])
extract_binary-Sized_example =
    extract_binary-Sized tar_readers small_limits [] (4 ∷ 5 ∷ []) (codes "w.tgz") from_tar

-- the end of a zip file without members
abbrev empty_zip : List ℕ
empty_zip = 0x50 ∷ 0x4b ∷ 5 ∷ 6 ∷ replicate 18 0

empty_zip_passes : preflight_zip_directory empty_zip 4 ≡ ok tt
unfolding preflight_zip_directory find_last_end find_end end_at declared declared_at
    check_directories count_zip_directory at_header uint16_at uint32_at
empty_zip_passes = refl

preflight_zip_directory_exact_example : (preflight_zip_directory empty_zip 4 ≡ ok tt) ↔ (
    (end : ℕ) × (d : Declared) × (find_last_end empty_zip ≡ ok end)
    × (declared empty_zip end ≡ ok d)
    × Bounded empty_zip 4 d)
preflight_zip_directory_exact_example = preflight_zip_directory_exact empty_zip 4

binary_given : is_empty (1 ∷ 2 ∷ []) ≡ false
unfolding is_empty
binary_given = refl

abbrev on_linux : Machine
on_linux = on_system "linux" (λ task. true)

replace_executable_outcome_example :
    let replaced = replace_executable on_linux [] (1 ∷ 2 ∷ []) old_disk in
    (replaced.0 ≡ (
      if is_temporary_executable on_linux (codes "/bin/wol")
      then err temporary_executable
      else if not (teq (codes "linux") (codes "windows")) || is_there (old_disk (codes "/bin/wol"))
      then ok (codes "/bin/wol")
      else err not_moved))
    × Settled on_linux (codes "/bin/wol") (codes "/bin/t") (1 ∷ 2 ∷ []) old_disk replaced
replace_executable_outcome_example =
    replace_executable_outcome on_linux (λ task. refl) [] (codes "/bin/wol") (1 ∷ 2 ∷ []) old_disk
      binary_given executable_found (temp-Fresh "linux")

not_on_windows :
    (replace_executable
      (on_system "windows" (λ task. true))
      (codes "/bin/new")
      (1 ∷ 2 ∷ [])
      old_disk).0
    ≡ err not_moved
unfolding replace_executable is_empty destination resolved is_temporary_executable contains
    has_prefix to_lower install_at swap_windows remove rename put teq old_copy
not_on_windows = refl

redirected :
    tag_of_parts (split_text (codes "/releases/tag/") zero (codes "https://h/o/releases/tag/v1.1"))
    ≡ ok (codes "v1.1")
unfolding tag_of_parts split_text has_prefix push_front is_empty trim_space
redirected = refl
