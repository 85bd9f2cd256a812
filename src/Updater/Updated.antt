-- ===== src/Updater/Updated.antt =====
-- What `ExecuteUpdate` of internal/updater does with a public key configured.
use wol.Prelude.{
  Bool, Bool-cases, List, Outcome, Outcome-cases, [], err, false, if◌then◌else◌, inl, inr, not, ok,
  refl, some, true, ℕ, ◌≡◌, ◌⊎◌,
}
use wol.Text.{Text, is_empty}
use wol.Updater.Assets.{match_asset}
use wol.Updater.Budget.{Sized}
use wol.Updater.Checksum.{checksum_for_asset}
use wol.Updater.Download.{Asset, Release}
use wol.Updater.Extract.{release_extraction_limits}
use wol.Updater.Installed.{replace_executable-Settled}
use wol.Updater.Obtained.{Obtained, Wanted, choose_release-Wanted, obtain_binary-Obtained}
use wol.Updater.Origins.{Origin}
use wol.Updater.Releases.{Client}
use wol.Updater.Replace.{Disk, Machine, ReplaceError, destination, replace_executable}
use wol.Updater.Swaps.{Done, Fresh, Kept, Settled}
use wol.Updater.Trust.{Signed}
use wol.Updater.Update.{
  Choice, UpdateError, UpdateOptions, UpdateResult, UpdateWorld, apply_choice, choose_release,
  execute_update, install_binary, no_install, obtain_binary, result_for,
}

unchanged-Kept :
    (host : Machine) (real temp : Text) (before : Disk) → Kept host real temp before before
unchanged-Kept host real temp before = record { kept = inl refl; others = λ q away off. refl }

module _ (world : UpdateWorld) (client : Client) (opts : UpdateOptions) where
  -- An asset for this platform, of a wanted release: its content has the SHA-256 of a manifest that
  -- was signed with the key; the binary was extracted from it within the limits, and it is in place.
  pub record Upgraded (release : Release) (real : Text) (before after : Disk) : Type 0 where
    pub asset : Asset
    pub content : List ℕ
    pub binary : List ℕ
    pub wanted : Wanted world client opts release
    pub fits : match_asset release.assets world.host.os world.host.arch ≡ some asset
    pub signed :
        (checksums : List ℕ) × Signed world.out client.public_key_file checksums
        × (checksum_for_asset checksums asset.name ≡ ok (world.out.sha256 content))
    pub bounded : Sized release_extraction_limits binary
    pub origin : Origin world.readers release_extraction_limits content binary
    pub placed : Done world.host real binary before after
    pub asked : opts.check_only ≡ false

  pub Trusted : Text → Text → Disk → Outcome UpdateError UpdateResult × Disk → Type 0
  Trusted real temp before (ok result, after) =
      (after ≡ before) ⊎ Upgraded result.release real before after
  Trusted real temp before (err e, after) = Kept world.host real temp before after

  module _ (keyed : is_empty client.public_key_file ≡ false) where
    module _ (real : Text) (before : Disk)
        (found : destination world.host opts.target_file ≡ some real)
        (fresh : Fresh world.host real (world.host.temp_in (world.host.dir real)) before) where
      abbrev Holds : Outcome UpdateError UpdateResult × Disk → Type 0
      Holds = Trusted real (world.host.temp_in (world.host.dir real)) before

      settle :
          (release : Release) (binary : List ℕ) (step : Outcome ReplaceError Text × Disk)
          → Wanted world client opts release
          → Obtained world client opts keyed release binary
          → opts.check_only ≡ false
          → Settled world.host real (world.host.temp_in (world.host.dir real)) binary before step
          → Holds (elim step.0 [
            | err e ↦ (err (no_install e), step.1)
            | ok path ↦ (ok (result_for world client release path false false), step.1)
          ])
      unfolding Settled Trusted result_for
      settle release binary (err e, after) wanted o asked kept = kept
      settle release binary (ok path, after) wanted o asked (at, placed) = inr (record {
        asset = o.asset;
        content = o.content;
        binary = binary;
        wanted = wanted;
        fits = o.fits;
        signed = o.signed;
        bounded = o.bounded;
        origin = o.origin;
        placed = placed;
        asked = asked;
      })

      install_binary-Trusted :
          (release : Release) (binary : List ℕ)
          → Wanted world client opts release
          → Obtained world client opts keyed release binary
          → opts.check_only ≡ false
          → Holds (install_binary world client opts release binary before)
      unfolding install_binary
      install_binary-Trusted release binary wanted o asked =
          settle release binary (replace_executable world.host opts.target_file binary before)
            wanted o asked
            (replace_executable-Settled world.host opts.target_file real binary before found fresh)

      failed-Trusted : (e : UpdateError) → Holds (err e, before)
      unfolding Trusted
      failed-Trusted e =
          unchanged-Kept world.host real (world.host.temp_in (world.host.dir real)) before

      idle-Trusted : (result : UpdateResult) → Holds (ok result, before)
      unfolding Trusted
      idle-Trusted result = inl refl

      obtained-Trusted :
          (choice : Choice)
          → Wanted world client opts choice.release
          → opts.check_only ≡ false
          → Holds (elim (obtain_binary world client choice.release) [
            | err e ↦ (err e, before)
            | ok binary ↦ install_binary world client opts choice.release binary before
          ])
      obtained-Trusted choice wanted asked =
          elim (Outcome-cases (obtain_binary world client choice.release)) [
            | inr (e, o) ↦ rw o (failed-Trusted e)
            | inl (binary, o) ↦ rw o (
                install_binary-Trusted choice.release binary wanted
                  (obtain_binary-Obtained world client opts keyed choice.release binary o) asked)
          ]

      by_check :
          (step : Outcome UpdateError UpdateResult × Disk) (result : UpdateResult) (b : Bool)
          → opts.check_only ≡ b
          → (opts.check_only ≡ false → Holds step)
          → Holds (if b then (ok result, before) else step)
      by_check step result true asked next = idle-Trusted result
      by_check step result false asked next = next asked

      apply_choice-Trusted :
          (choice : Choice)
          → (choice.settled ≡ false → Wanted world client opts choice.release)
          → Holds (apply_choice world client opts choice before)
      unfolding apply_choice
      apply_choice-Trusted choice wanted = elim (Bool-cases choice.settled) [
        | inl done ↦
            rw (done, apply_choice)
              (idle-Trusted (result_for world client choice.release [] opts.check_only true))
        | inr open_choice ↦
            rw (open_choice, apply_choice)
              (by_check _ (result_for world client choice.release [] true (not choice.newer))
                opts.check_only refl (obtained-Trusted choice (wanted open_choice)))
      ]

      -- With a public key configured, an update that ends without an error has changed no file, or
      -- it was not a mere check and a binary is in place that was extracted, within the limits, from
      -- an asset for this platform whose SHA-256 stands in a manifest signed with the key; the
      -- release is the version that was asked for, or newer than the current one, or forced. An
      -- update that ends with an error leaves the executable in place, or on Windows set aside as
      -- its old copy. No other file changes, save the temporary one of a failure and on Windows the
      -- old copy. The executable was found, and the name of the temporary file is new.
      pub execute_update-Trusted :
          Trusted real
            (world.host.temp_in (world.host.dir real))
            before
            (execute_update world client opts before)
      unfolding execute_update
      execute_update-Trusted = elim (Outcome-cases (choose_release world client opts)) [
        | inr (e, c) ↦ rw (c, execute_update) (failed-Trusted e)
        | inl (choice, c) ↦
            rw (c, execute_update)
              (apply_choice-Trusted choice (choose_release-Wanted world client opts keyed choice c))
      ]
