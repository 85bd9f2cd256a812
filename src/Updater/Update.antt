-- ===== src/Updater/Update.antt =====
-- internal/updater/updater.go: `ExecuteUpdate` and `BuildFromSource`. The Go toolchain is a
-- parameter.
use wol.Prelude.{
  Bool, List, Option, Outcome, [], err, false, if◌then◌else◌, none, not, ok, refuse_if, some, true,
  ℕ, ◌&&◌, ◌++◌, ◌>>=◌, ◌>>◌,
}
use wol.Text.{Text, codes, is_empty, teq, trim_space}
use wol.Updater.{Order, clean_version, compare_versions, same}
use wol.Updater.Assets.{match_asset}
use wol.Updater.Download.{Asset, DownloadError, Outside, Release, download_verified_asset}
use wol.Updater.Extract.{ExtractError, Readers, extract_binary, release_extraction_limits}
use wol.Updater.Releases.{
  Client, GitHub, ReleaseError, check_latest, fetch_release_by_tag, is_older, marked_tag,
}
use wol.Updater.Replace.{Disk, Machine, ReplaceError, replace_executable}

pub record UpdateOptions : Type 0 where
  pub check_only : Bool
  pub force : Bool
  pub target_version : Text
  pub target_file : Text

pub record UpdateResult : Type 0 where
  pub previous_version : Text
  pub new_version : Text
  pub installed_path : Text
  pub check_only : Bool
  pub up_to_date : Bool
  pub release : Release

pub data BuildError : Type 0 where
  disabled_on_macos no_toolchain no_directory failed_build no_output : BuildError

pub data UpdateError : Type 0 where
  no_release : ReleaseError → UpdateError
  wrong_release source_disabled : UpdateError
  no_download : DownloadError → UpdateError
  no_extract : ExtractError → UpdateError
  no_build : BuildError → UpdateError
  no_install : ReplaceError → UpdateError

pub record Toolchain : Type 0 where
  pub go_found : Bool
  pub temp_made : Bool
  -- whether `go install` of a package ends well, and what it leaves
  pub installs : Text → Bool
  pub built : Text → Option (List ℕ)

-- everything outside
pub record UpdateWorld : Type 0 where
  pub out : Outside
  pub hub : GitHub
  pub readers : Readers
  pub tools : Toolchain
  pub host : Machine

-- the release, whether it is newer, and whether there is nothing to do
pub record Choice : Type 0 where
  pub release : Release
  pub newer : Bool
  pub settled : Bool

unfoldable pub is_same : Order → Bool
is_same same = true
is_same _ = false

-- an error of a step, passed on with its context
unfoldable pub in_context {κ ℓ} :
    {E : Type κ} {A : Type ℓ} → (E → UpdateError) → Outcome E A → Outcome UpdateError A
in_context wrap (ok a) = ok a
in_context wrap (err e) = err (wrap e)

unfoldable pub build_from_source : Toolchain → Text → Text → Text → Outcome BuildError (List ℕ)
build_from_source tools os repo tag = do
  let target_package = codes "github.com/" ++ (repo ++ (codes "/cmd/wol@" ++ marked_tag tag))
  refuse_if (teq os (codes "darwin")) disabled_on_macos
  refuse_if (not tools.go_found) no_toolchain
  refuse_if (not tools.temp_made) no_directory
  refuse_if (not (tools.installs target_package)) failed_build
  elim (tools.built target_package) [ none ↦ err no_output | some binary ↦ ok binary ]

module _ (world : UpdateWorld) (client : Client) where
  unfoldable pub choose_target : UpdateOptions → Outcome UpdateError Choice
  choose_target opts = do
    release ←
        in_context no_release (fetch_release_by_tag world.out world.hub client opts.target_version)
    let order = compare_versions (clean_version client.current_version) (clean_version release.tag)
    refuse_if
        (not (is_empty client.public_key_file)
          && not (teq (clean_version release.tag) (clean_version opts.target_version)))
        wrong_release
    ok (record {
      release = release;
      newer = is_older order;
      settled = is_same order && not opts.force;
    })

  unfoldable pub choose_latest : UpdateOptions → Outcome UpdateError Choice
  choose_latest opts = do
    check ← in_context no_release (check_latest world.out world.hub client)
    ok (record {
      release = check.release;
      newer = check.update_available;
      settled = not check.update_available && not opts.force;
    })

  unfoldable pub choose_release : UpdateOptions → Outcome UpdateError Choice
  choose_release opts =
      if not (is_empty (trim_space opts.target_version))
      then choose_target opts
      else choose_latest opts

  unfoldable pub from_asset : Release → Asset → Outcome UpdateError (List ℕ)
  from_asset release asset = do
    content ←
        in_context no_download
          (download_verified_asset world.out client.public_key_file release asset)
    in_context no_extract
        (extract_binary world.readers release_extraction_limits content asset.name)

  unfoldable pub obtain_binary : Release → Outcome UpdateError (List ℕ)
  obtain_binary release = elim (match_asset release.assets world.host.os world.host.arch) [
    | some asset ↦ from_asset release asset
    | none ↦
        if not (is_empty client.public_key_file)
        then err source_disabled
        else in_context no_build
            (build_from_source world.tools world.host.os client.repo release.tag)
  ]

  unfoldable pub result_for : Release → Text → Bool → Bool → UpdateResult
  result_for release path check_only up_to_date = record {
    previous_version = client.current_version;
    new_version = release.tag;
    installed_path = path;
    check_only = check_only;
    up_to_date = up_to_date;
    release = release;
  }

  -- the binary put in place of the executable
  unfoldable pub install_binary :
      UpdateOptions → Release → List ℕ → Disk → Outcome UpdateError UpdateResult × Disk
  install_binary opts release binary disk =
      let (installed, disk') = replace_executable world.host opts.target_file binary disk in
      elim installed [
        | err e ↦ (err (no_install e), disk')
        | ok path ↦ (ok (result_for release path false false), disk')
      ]

  unfoldable pub apply_choice :
      UpdateOptions → Choice → Disk → Outcome UpdateError UpdateResult × Disk
  apply_choice opts choice disk =
      if choice.settled
      then (ok (result_for choice.release [] opts.check_only true), disk)
      else if opts.check_only
      then (ok (result_for choice.release [] true (not choice.newer)), disk)
      else elim (obtain_binary choice.release) [
        | err e ↦ (err e, disk)
        | ok binary ↦ install_binary opts choice.release binary disk
      ]

  unfoldable pub execute_update : UpdateOptions → Disk → Outcome UpdateError UpdateResult × Disk
  execute_update opts disk = elim (choose_release opts) [
    | err e ↦ (err e, disk)
    | ok choice ↦ apply_choice opts choice disk
  ]
