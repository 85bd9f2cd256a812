-- ===== src/Updater/Download.antt =====
-- internal/updater: `downloadVerifiedAsset` (checksum.go) and `downloadAsset` (updater.go), and
-- `ReadFile`, `ParsePublicKey` and `Verify` of internal/releasesign. The network, the file system and the
-- cryptography of Go's library are parameters. The name of an asset stands for its bytes, which
-- holds for ASCII names.
use wol.Prelude.{
  Bool, List, Option, Outcome, [], err, if◌then◌else◌, leb, length, ltb, none, not, ok, refuse_if,
  some, ℕ, ℤ, ◌&&◌, ◌*◌, ◌++◌, ◌==◌, ◌>>=◌, ◌>>◌, ◌^◌, ◌||◌, ◌∷◌,
}
use wol.Text.{Text, codes, has_prefix, is_empty, teq}
use wol.Updater.{clean_version}
use wol.Updater.Checksum.{ChecksumError, checksum_for_asset}

pub record Asset : Type 0 where
  pub name : Text
  pub size : ℤ
  pub browser_download_url : Text

pub record Release : Type 0 where
  pub tag : Text
  pub name : Text
  pub html_url : Text
  pub tarball_url : Text
  pub zipball_url : Text
  pub published_at : Text
  pub body : Text
  pub assets : List Asset

pub record PemBlock : Type 0 where
  pub kind : Text
  pub has_headers : Bool
  pub bytes : List ℕ
  pub rest : List ℕ

pub data PublicKey : Type 0 where
  ed25519_key : List ℕ → PublicKey
  other_key : PublicKey

-- What is outside: the answer to a request, with its status and body; a file, with whether it is
-- regular and its content; `bytes.TrimSpace`, `pem.Decode` and `x509.ParsePKIXPublicKey`; a valid
-- Ed25519 signature; and SHA-256.
pub record Outside : Type 0 where
  pub fetch : Text → Option (ℕ × List ℕ)
  pub file : Text → Option (Bool × List ℕ)
  pub trim_bytes : List ℕ → List ℕ
  pub pem_decode : List ℕ → Option PemBlock
  pub parse_pkix : List ℕ → Option PublicKey
  pub valid : List ℕ → List ℕ → List ℕ → Bool
  pub sha256 : List ℕ → List ℕ

pub data DownloadError : Type 0 where
  request_failed bad_status too_large no_manifest bad_name : DownloadError
  unreadable_key bad_key two_signatures no_signature bad_signature mismatch : DownloadError
  checksum_failed : ChecksumError → DownloadError

abbrev pub max_archive_bytes : ℕ
max_archive_bytes = 128 * 2 ^ 20

abbrev pub max_checksum_bytes : ℕ
max_checksum_bytes = 2 ^ 20

abbrev pub max_key_bytes : ℕ
max_key_bytes = 16 * 2 ^ 10

abbrev pub max_manifest_bytes : ℕ
max_manifest_bytes = 2 ^ 20

unfoldable pub present {ℓ} : {A : Type ℓ} → DownloadError → Option A → Outcome DownloadError A
present e none = err e
present e (some a) = ok a

-- the loop over the assets for the checksum manifest, with its `break`
unfoldable pub choose_manifest : Text → Option Asset → List Asset → Option Asset
choose_manifest legacy current [] = current
choose_manifest legacy current (a ∷ rest) =
    let next = choose_manifest legacy (if teq a.name legacy then some a else current) rest in
    if teq a.name (codes "SHA256SUMS") then some a else next

-- the loop over the assets for the signature
unfoldable pub find_signature :
    Text → Option Asset → List Asset → Outcome DownloadError (Option Asset)
find_signature name current [] = ok current
find_signature name none (a ∷ rest) =
    let found = find_signature name (some a) rest in
    let next = find_signature name none rest in if teq a.name name then found else next
find_signature name (some b) (a ∷ rest) =
    let next = find_signature name (some b) rest in
    if teq a.name name then err two_signatures else next

unfoldable pub checked_checksum : Outcome ChecksumError (List ℕ) → Outcome DownloadError (List ℕ)
checked_checksum (ok digest) = ok digest
checked_checksum (err e) = err (checksum_failed e)

module _ (out : Outside) where
  -- `downloadAsset`
  unfoldable pub download : Text → ℕ → Outcome DownloadError (List ℕ)
  download url limit = do
    answer ← present request_failed (out.fetch url)
    refuse_if (not (answer.0 == 200)) bad_status
    refuse_if (ltb limit (length answer.1)) too_large
    ok answer.1

  -- `ReadFile`
  unfoldable pub read_key_file : Text → Outcome DownloadError (List ℕ)
  read_key_file path = do
    found ← present unreadable_key (out.file path)
    refuse_if (not found.0) unreadable_key
    refuse_if (ltb max_key_bytes (length found.1)) unreadable_key
    ok found.1

  -- `decodeKey`
  unfoldable pub decode_key : Text → List ℕ → Option (List ℕ)
  decode_key kind content =
      let trimmed = out.trim_bytes content in
      if ltb max_key_bytes (length content)
      then none
      else if not (has_prefix trimmed (codes "-----BEGIN " ++ (kind ++ codes "-----")))
      then none
      else elim (out.pem_decode trimmed) [
        | none ↦ none
        | some block ↦
            if not (teq block.kind kind)
              || block.has_headers
              || not (is_empty (out.trim_bytes block.rest))
            then none
            else some block.bytes
      ]

  -- `ParsePublicKey`
  unfoldable pub parse_public_key : List ℕ → Option (List ℕ)
  parse_public_key content = elim (decode_key (codes "PUBLIC KEY") content) [
    | none ↦ none
    | some der ↦ elim (out.parse_pkix der) [
      | none ↦ none
      | some other_key ↦ none
      | some (ed25519_key key) ↦ if length key == 32 then some key else none
    ]
  ]

  -- `Verify`
  unfoldable pub verify : List ℕ → List ℕ → List ℕ → Bool
  verify key manifest signature =
      length key == 32
      && not (is_empty manifest)
      && leb (length manifest) max_manifest_bytes
      && length signature == 64
      && out.valid key manifest signature

  -- the part of `downloadVerifiedAsset` for a configured key
  unfoldable pub check_signature :
      Text → Release → Asset → Asset → List ℕ → Outcome DownloadError (Unit {0})
  check_signature key_file release asset manifest checksums = do
    refuse_if
        (not (has_prefix asset.name (codes "wol_" ++ (clean_version release.tag ++ codes "_"))))
        bad_name
    pem ← read_key_file key_file
    key ← present bad_key (parse_public_key pem)
    found ← find_signature (manifest.name ++ codes ".sig") none release.assets
    signature ← present no_signature found
    sig ← download signature.browser_download_url 64
    refuse_if (not (verify key checksums sig)) bad_signature
    ok tt

  unfoldable pub signature_step :
      Text → Release → Asset → Asset → List ℕ → Outcome DownloadError (Unit {0})
  signature_step key_file release asset manifest checksums =
      if is_empty key_file then ok tt else check_signature key_file release asset manifest checksums

  unfoldable pub download_verified_asset : Text → Release → Asset → Outcome DownloadError (List ℕ)
  download_verified_asset key_file release asset = do
    let legacy = codes "wol_" ++ (clean_version release.tag ++ codes "_checksums.txt")
    manifest ← present no_manifest (choose_manifest legacy none release.assets)
    checksums ← download manifest.browser_download_url max_checksum_bytes
    signature_step key_file release asset manifest checksums
    expected ← checked_checksum (checksum_for_asset checksums asset.name)
    content ← download asset.browser_download_url max_archive_bytes
    refuse_if (not (teq (out.sha256 content) expected)) mismatch
    ok content
