-- ===== src/Updater/Trust.antt =====
-- What the bytes that `downloadVerifiedAsset` returns have passed.
use wol.Prelude.{
  List, Option-cases, Outcome, Outcome-cases, arith, false, inl, inr, none, not, ok, refuse_if,
  some, true, ℕ, ◌++◌, ◌>>=◌, ◌>>◌, ◌≡◌,
}
use wol.Text.{Text, codes, is_empty, teq}
use wol.Text.Laws.{teq_iff}
use wol.Updater.{clean_version}
use wol.Updater.Checksum.{checksum_for_asset}
use wol.Updater.Download.{
  Asset, DownloadError, Outside, Release, check_signature, checked_checksum, choose_manifest,
  download, download_verified_asset, find_signature, max_archive_bytes, max_checksum_bytes,
  mismatch, parse_public_key, present, read_key_file, signature_step, verify,
}

module _ (out : Outside) where
  -- bytes that are signed with the key in a file, by a signature that was downloaded
  abbrev pub Signed : Text → List ℕ → Type 0
  Signed key_file checksums =
      (pem : List ℕ) × (key : List ℕ) × (url : Text) × (sig : List ℕ) × (read_key_file out key_file
        ≡ ok pem)
      × (parse_public_key out pem ≡ some key)
      × (download out url 64 ≡ ok sig)
      × (verify out key checksums sig ≡ true)

  check_signature-Signed :
      (key_file : Text) (release : Release) (asset manifest : Asset) (checksums : List ℕ)
      → check_signature out key_file release asset manifest checksums ≡ ok tt
      → Signed key_file checksums
  unfolding check_signature present
  check_signature-Signed key_file release asset manifest checksums h0 =
      elim (Outcome-cases (read_key_file out key_file)) [
        | inr (e, p) ↦ absurd (ground arith)
        | inl (pem, p) ↦ elim (Option-cases (parse_public_key out pem)) [
          | inl k ↦ absurd (ground arith)
          | inr (key, k) ↦
              elim (Outcome-cases
                (find_signature (manifest.name ++ codes ".sig") none release.assets)) [
                  | inr (e, f) ↦ absurd (ground arith)
                  | inl (found, f) ↦ elim (Option-cases found) [
                    | inl g ↦ absurd (ground arith)
                    | inr (signature, g) ↦
                        elim (Outcome-cases (download out signature.browser_download_url 64)) [
                          | inr (e, d) ↦ absurd (ground arith)
                          | inl (sig, d) ↦
                              (pem, key, signature.browser_download_url, sig, p, k, d, ground arith)
                        ]
                  ]
                ]
        ]
      ]

  -- what the download of an asset has passed
  record Passed (key_file : Text) (release : Release) (asset : Asset) (content : List ℕ)
      : Type 0 where
    checksums : List ℕ
    step :
        (manifest : Asset) × (signature_step out key_file release asset manifest checksums ≡ ok tt)
    sum : checksum_for_asset checksums asset.name ≡ ok (out.sha256 content)
    loaded : download out asset.browser_download_url max_archive_bytes ≡ ok content

  -- behind the signature
  abbrev rest_of : Asset → List ℕ → Outcome DownloadError (List ℕ)
  rest_of asset checksums = do
    expected ← checked_checksum (checksum_for_asset checksums asset.name)
    content ← download out asset.browser_download_url max_archive_bytes
    refuse_if (not (teq (out.sha256 content) expected)) mismatch
    ok content

  abbrev legacy : Release → Text
  legacy release = codes "wol_" ++ (clean_version release.tag ++ codes "_checksums.txt")

  behind :
      (key_file : Text) (release : Release) (asset manifest : Asset) (content checksums : List ℕ)
      → signature_step out key_file release asset manifest checksums ≡ ok tt
      → rest_of asset checksums ≡ ok content
      → Passed key_file release asset content
  unfolding checked_checksum
  behind key_file release asset manifest content checksums s h =
      elim (Outcome-cases (checksum_for_asset checksums asset.name)) [
        | inr (w, e) ↦ absurd (ground arith)
        | inl (expected, e) ↦
            elim (Outcome-cases (download out asset.browser_download_url max_archive_bytes)) [
              | inr (w, d) ↦ absurd (ground arith)
              | inl (got, d) ↦
                  let same_bytes : got ≡ content = ground arith in
                  let equal : out.sha256 got ≡ expected = (teq_iff _ _).0 (ground arith) in
                  record {
                    checksums = checksums;
                    step = (manifest, s);
                    sum = cc (e, equal, same_bytes);
                    loaded = cc (d, same_bytes);
                  }
            ]
      ]

  passed :
      (key_file : Text) (release : Release) (asset : Asset) (content : List ℕ)
      → download_verified_asset out key_file release asset ≡ ok content
      → Passed key_file release asset content
  unfolding download_verified_asset present
  passed key_file release asset content h0 =
      elim (Option-cases (choose_manifest (legacy release) none release.assets)) [
        | inl m ↦ absurd (ground arith)
        | inr (manifest, m) ↦
            elim (Outcome-cases (download out manifest.browser_download_url max_checksum_bytes)) [
              | inr (e, c) ↦ absurd (ground arith)
              | inl (checksums, c) ↦
                  elim (Outcome-cases
                    (signature_step out key_file release asset manifest checksums)) [
                      | inr (e, s) ↦ absurd (ground arith)
                      | inl (tt, s) ↦
                          behind key_file release asset manifest content checksums s (ground arith)
                    ]
            ]
      ]

  -- The bytes that are returned for an asset were downloaded from its address, and their SHA-256 is
  -- the one checksum that a downloaded manifest gives for the asset's name.
  pub download_verified_asset_checked :
      (key_file : Text) (release : Release) (asset : Asset) (content : List ℕ)
      → download_verified_asset out key_file release asset ≡ ok content
      → (download out asset.browser_download_url max_archive_bytes ≡ ok content)
        × ((checksums : List ℕ) × (checksum_for_asset checksums asset.name
              ≡ ok (out.sha256 content)))
  download_verified_asset_checked key_file release asset content h =
      let p = passed key_file release asset content h in (p.loaded, (p.checksums, p.sum))

  -- With a key file configured, the manifest that gives the SHA-256 of the returned bytes was
  -- verified with the key in that file and a signature that was downloaded.
  pub download_verified_asset-Signed :
      (key_file : Text) (release : Release) (asset : Asset) (content : List ℕ)
      → is_empty key_file ≡ false
      → download_verified_asset out key_file release asset ≡ ok content
      → (checksums : List ℕ) × Signed key_file checksums
        × (checksum_for_asset checksums asset.name ≡ ok (out.sha256 content))
  unfolding signature_step
  download_verified_asset-Signed key_file release asset content k h =
      let p = passed key_file release asset content h in
      let (manifest, s) = p.step in
      (
        p.checksums,
        check_signature-Signed key_file release asset manifest p.checksums (ground (arith, s)),
        p.sum,
      )
