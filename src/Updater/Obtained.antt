-- ===== src/Updater/Obtained.antt =====
-- The release that `ExecuteUpdate` of internal/updater chooses, and the binary that it obtains.
use wol.Prelude.{
  Bool-cases, List, Option-cases, Outcome-cases, ap, arith, false, inl, inr, ok, some, sym, true, ℕ,
  ◌∙◌, ◌≡◌, ◌⊎◌,
}
use wol.Store.Rules.{given}
use wol.Text.{is_empty, teq, trim_space}
use wol.Text.Laws.{teq_iff}
use wol.Updater.{clean_version, compare_versions}
use wol.Updater.Assets.{match_asset}
use wol.Updater.Budget.{Sized}
use wol.Updater.Checksum.{checksum_for_asset}
use wol.Updater.Download.{Asset, Release, download_verified_asset}
use wol.Updater.Extract.{extract_binary, release_extraction_limits}
use wol.Updater.Origins.{Origin, extract_binary-Sized}
use wol.Updater.Releases.{
  Client, check_latest, fetch_latest_release, fetch_release_by_tag, is_older,
}
use wol.Updater.Trust.{Signed, download_verified_asset-Signed}
use wol.Updater.Update.{
  Choice, UpdateOptions, UpdateWorld, choose_latest, choose_release, choose_target, from_asset,
  in_context, obtain_binary,
}

module _ (world : UpdateWorld) (client : Client) (opts : UpdateOptions) where
  -- the version that was asked for, a newer one, or one that is forced
  unfoldable pub Wanted : Release → Type 0
  Wanted release =
      ((is_empty (trim_space opts.target_version) ≡ false)
        × (clean_version release.tag ≡ clean_version opts.target_version))
      ⊎ ((is_older
              (compare_versions (clean_version client.current_version) (clean_version release.tag))
            ≡ true)
          ⊎ (opts.force ≡ true))

  module _ (keyed : is_empty client.public_key_file ≡ false) where
    pub choose_release-Wanted :
        (choice : Choice)
        → choose_release world client opts ≡ ok choice
        → choice.settled ≡ false
        → Wanted choice.release
    unfolding choose_release choose_target choose_latest check_latest in_context Wanted
    choose_release-Wanted choice h open_choice =
        elim (Bool-cases (is_empty (trim_space opts.target_version))) [
          | inr given ↦
              elim (Outcome-cases
                (fetch_release_by_tag world.out world.hub client opts.target_version)) [
                  | inr (e, f) ↦ absurd (ground (arith, h, given))
                  | inl (release, f) ↦
                      let named : teq (clean_version release.tag)
                            (clean_version opts.target_version)
                          ≡ true =
                        ground (arith, h, given, f, keyed) in
                      let chosen : release ≡ choice.release = ground (arith, h, given, f, keyed) in
                      inl (given, rw (sym chosen) ((teq_iff _ _).0 named))
                ]
          | inl blank ↦ elim (Outcome-cases (fetch_latest_release world.out world.hub client)) [
            | inr (e, f) ↦ absurd (ground (arith, h, blank))
            | inl (release, f) ↦ inr (ground (arith, h, blank, f, open_choice))
          ]
        ]

    -- what `from_asset` has passed, without the installation
    pub record Obtained (release : Release) (binary : List ℕ) : Type 0 where
      pub asset : Asset
      pub content : List ℕ
      pub fits : match_asset release.assets world.host.os world.host.arch ≡ some asset
      pub signed :
          (checksums : List ℕ) × Signed world.out client.public_key_file checksums
          × (checksum_for_asset checksums asset.name ≡ ok (world.out.sha256 content))
      pub bounded : Sized release_extraction_limits binary
      pub origin : Origin world.readers release_extraction_limits content binary

    from_asset-Obtained :
        (release : Release) (asset : Asset) (binary : List ℕ)
        → match_asset release.assets world.host.os world.host.arch ≡ some asset
        → from_asset world client release asset ≡ ok binary
        → Obtained release binary
    unfolding from_asset in_context
    from_asset-Obtained release asset binary fits h =
        elim (Outcome-cases
          (download_verified_asset world.out client.public_key_file release asset)) [
            | inr (e, d) ↦ absurd (ground (arith, h))
            | inl (content, d) ↦
                elim (Outcome-cases
                  (extract_binary world.readers release_extraction_limits content asset.name)) [
                    | inr (e, x) ↦ absurd (ground (arith, h, d))
                    | inl (bytes, x) ↦
                        let at : bytes ≡ binary = ground (arith, h, d, x) in
                        let (bounded, origin) =
                          extract_binary-Sized world.readers release_extraction_limits content
                            binary asset.name (x ∙ ap ok at) in
                        record {
                          asset = asset;
                          content = content;
                          fits = fits;
                          signed =
                              download_verified_asset-Signed world.out client.public_key_file
                                release asset content keyed d;
                          bounded = bounded;
                          origin = origin;
                        }
                  ]
          ]

    pub obtain_binary-Obtained :
        (release : Release) (binary : List ℕ)
        → obtain_binary world client release ≡ ok binary
        → Obtained release binary
    unfolding obtain_binary
    obtain_binary-Obtained release binary h =
        elim (Option-cases (match_asset release.assets world.host.os world.host.arch)) [
          | inl unmatched ↦ absurd (ground (arith, h, keyed))
          | inr (asset, fits) ↦
              from_asset-Obtained release asset binary fits (ground (arith, h, fits))
        ]
