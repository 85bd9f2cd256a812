-- ===== src/Updater/Replace.antt =====
-- `ReplaceExecutable`, `IsTemporaryExecutable` and `RemoveStaleExecutable` of
-- internal/updater/updater.go. The platform and its file system are parameters: which calls work, the
-- functions of `path/filepath`, and the name of a temporary file.
use wol.Prelude.{
  Bool, List, Option, Outcome, err, if◌then◌else◌, none, not, ok, some, ℕ, ◌++◌, ◌||◌,
}
use wol.Text.{Text, codes, contains, is_empty, teq, to_lower}

-- the files by their paths
abbrev pub Disk : Type 0
Disk = Text → Option (List ℕ)

pub data DiskTask : Type 0 where
  create_temp write_temp chmod_temp sync_temp close_temp remove_temp : DiskTask
  remove_old set_aside install put_back drop_old : DiskTask

pub record Machine : Type 0 where
  pub os : Text
  pub arch : Text
  pub own_path : Option Text
  pub eval_symlinks : Text → Option Text
  pub clean : Text → Text
  pub dir : Text → Text
  pub to_slash : Text → Text
  -- the new name that `CreateTemp` takes in a directory
  pub temp_in : Text → Text
  pub works : DiskTask → Bool
  -- what a failed write leaves in the file
  pub cut_short : List ℕ → List ℕ

pub data ReplaceError : Type 0 where
  empty_binary no_executable temporary_executable no_temp : ReplaceError
  not_written not_executable not_synced not_closed not_moved not_installed : ReplaceError

unfoldable pub put : Disk → Text → Option (List ℕ) → Disk
put disk path content q = if teq q path then content else disk q

unfoldable pub old_copy : Text → Text
old_copy real = real ++ codes ".old"

module _ (host : Machine) where
  -- `os.Remove`, whose failure the program ignores
  unfoldable pub remove : DiskTask → Text → Disk → Disk
  remove task path disk = if host.works task then put disk path none else disk

  -- `os.Rename`
  unfoldable pub rename : DiskTask → Text → Text → Disk → Option Disk
  rename task from to disk = if not (host.works task) then none else elim (disk from) [
    | none ↦ none
    | some content ↦ some (put (put disk from none) to (some content))
  ]

  unfoldable pub is_temporary_executable : Text → Bool
  is_temporary_executable path =
      let lowered = to_lower (host.to_slash path) in
      contains lowered (codes "/go-build")
      || contains lowered (codes "\\go-build")
      || contains lowered (codes "/tmp/go-")
      || contains lowered (codes "\\tmp\\go-")

  unfoldable pub resolved : Text → Text
  resolved path = host.clean (elim (host.eval_symlinks path) [ none ↦ path | some real ↦ real ])

  -- the file that is replaced
  unfoldable pub destination : Text → Option Text
  destination target =
      if not (is_empty target)
      then some (resolved target)
      else elim host.own_path [ none ↦ none | some path ↦ some (resolved path) ]

  unfoldable pub swap_windows : Text → Text → Disk → Outcome ReplaceError Text × Disk
  swap_windows real temp filled =
      let cleared = remove remove_old (old_copy real) filled in
      elim (rename set_aside real (old_copy real) cleared) [
        | none ↦ (err not_moved, remove remove_temp temp cleared)
        | some aside ↦ elim (rename install temp real aside) [
          | some installed ↦ (ok real, remove drop_old (old_copy real) installed)
          | none ↦ elim (rename put_back (old_copy real) real aside) [
            | none ↦ (err not_installed, remove remove_temp temp aside)
            | some back ↦ (err not_installed, remove remove_temp temp back)
          ]
        ]
      ]

  unfoldable pub swap_unix : Text → Text → Disk → Outcome ReplaceError Text × Disk
  swap_unix real temp filled = elim (rename install temp real filled) [
    | none ↦ (err not_installed, remove remove_temp temp filled)
    | some installed ↦ (ok real, installed)
  ]

  unfoldable pub install_at : Text → Text → List ℕ → Disk → Outcome ReplaceError Text × Disk
  install_at real temp binary disk =
      let filled = put disk temp (some binary) in
      if not (host.works create_temp)
      then (err no_temp, disk)
      else if not (host.works write_temp)
      then (err not_written, remove remove_temp temp (put disk temp (some (host.cut_short binary))))
      else if not (host.works chmod_temp)
      then (err not_executable, remove remove_temp temp filled)
      else if not (host.works sync_temp)
      then (err not_synced, remove remove_temp temp filled)
      else if not (host.works close_temp)
      then (err not_closed, remove remove_temp temp filled)
      else if teq host.os (codes "windows")
      then swap_windows real temp filled
      else swap_unix real temp filled

  unfoldable pub replace_executable : Text → List ℕ → Disk → Outcome ReplaceError Text × Disk
  replace_executable target binary disk =
      if is_empty binary then (err empty_binary, disk) else elim (destination target) [
        | none ↦ (err no_executable, disk)
        | some real ↦
            if is_temporary_executable real
            then (err temporary_executable, disk)
            else install_at real (host.temp_in (host.dir real)) binary disk
      ]

  -- what the next start does
  unfoldable pub remove_stale_executable : Text → Disk → Disk
  remove_stale_executable executable disk = remove drop_old (old_copy (resolved executable)) disk
