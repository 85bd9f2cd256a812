-- ===== src/Updater/Success.antt =====
-- `ReplaceExecutable` of internal/updater where every call of the system works.
use wol.Prelude.{
  Bool, Bool-cases, List, Option, Option-cases, ap, err, false, if◌then◌else◌, inl, inr, none, not,
  ok, refl, some, sym, true, ℕ, ◌||◌, ◌∙◌, ◌≡◌, ◌≢◌,
}
use wol.Text.{Text, codes, is_empty, teq}
use wol.Updater.Disks.{old_copy-apart, put-other, put-same, remove-other}
use wol.Updater.Installed.{replace_executable-Settled}
use wol.Updater.Replace.{
  Disk, DiskTask, Machine, chmod_temp, close_temp, create_temp, destination, install, install_at,
  is_temporary_executable, not_moved, old_copy, put, remove, remove_old, rename, replace_executable,
  set_aside, swap_unix, swap_windows, sync_temp, temporary_executable, write_temp,
}
use wol.Updater.Swaps.{Fresh, Settled}

rename-eq-some :
    (host : Machine) (t : DiskTask) (from to : Text) (d : Disk) (content : List ℕ)
    → host.works t ≡ true
    → d from ≡ some content
    → rename host t from to d ≡ some (put (put d from none) to (some content))
unfolding rename
rename-eq-some host t from to d content works held = rw (works, held, rename) refl

rename-eq-none :
    (host : Machine) (t : DiskTask) (from to : Text) (d : Disk)
    → d from ≡ none
    → rename host t from to d ≡ none
unfolding rename
rename-eq-none host t from to d gone = elim (Bool-cases (host.works t)) [
  | inl works ↦ rw (works, gone, rename) refl
  | inr broken ↦ rw (broken, rename) refl
]

-- whether there is a file
unfoldable pub is_there : Option (List ℕ) → Bool
is_there none = false
is_there (some _) = true

module _ (host : Machine) (works : (t : DiskTask) → host.works t ≡ true) where
  swap_unix-works :
      (real temp : Text) (binary : List ℕ) (d : Disk)
      → d temp ≡ some binary
      → (swap_unix host real temp d).0 ≡ ok real
  unfolding swap_unix
  swap_unix-works real temp binary d written =
      rw (rename-eq-some host install temp real d binary (works install) written, swap_unix) refl

  swap_windows-works :
      (real temp : Text) (binary : List ℕ) (d : Disk)
      → temp ≢ real
      → temp ≢ old_copy real
      → d temp ≡ some binary
      → (swap_windows host real temp d).0 ≡ (if is_there (d real) then ok real else err not_moved)
  unfolding swap_windows is_there
  swap_windows-works real temp binary d off_real off_old written =
      let spared = old_copy real in
      let cleared = remove host remove_old spared d in
      let held : cleared real ≡ d real =
        remove-other host remove_old d spared real (λ e. old_copy-apart real (sym e)) in
      elim (Option-cases (d real)) [
        | inl absent ↦
            rw
              (
                rename-eq-none host set_aside real spared cleared (held ∙ absent),
                absent,
                swap_windows,
              )
              refl
        | inr (content, held_before) ↦
            let d1 = put (put cleared real none) spared (some content) in
            let ready : d1 temp ≡ some binary =
              put-other (put cleared real none) spared temp (some content) off_old
              ∙ put-other cleared real temp none off_real
              ∙ remove-other host remove_old d spared temp off_old
              ∙ written in
            rw
              (
                rename-eq-some host set_aside real spared cleared content (works set_aside)
                    (held ∙ held_before),
                rename-eq-some host install temp real d1 binary (works install) ready,
                held_before,
                swap_windows,
              )
              refl
      ]

  outcome :
      (target real : Text) (binary : List ℕ) (before : Disk)
      → is_empty binary ≡ false
      → destination host target ≡ some real
      → Fresh host real (host.temp_in (host.dir real)) before
      → (replace_executable host target binary before).0 ≡ (
          if is_temporary_executable host real
          then err temporary_executable
          else if not (teq host.os (codes "windows")) || is_there (before real)
          then ok real
          else err not_moved)
  unfolding replace_executable install_at
  outcome target real binary before full found fresh =
      let temp = host.temp_in (host.dir real) in
      let filled = put before temp (some binary) in
      let written : filled temp ≡ some binary = put-same before temp (some binary) in
      let here : filled real ≡ before real =
        put-other before temp real (some binary) (λ e. fresh.1 (sym e)) in
      let unix = swap_unix-works real temp binary filled written in
      let windows : (swap_windows host real temp filled).0
          ≡ (if is_there (before real) then ok real else err not_moved) =
        swap_windows-works real temp binary filled fresh.1 fresh.2 written
        ∙ ap (λ (o : Option (List ℕ)). if is_there o then ok real else err not_moved) here in
      elim (Bool-cases (is_temporary_executable host real)) [
        | inl transient ↦ rw (found, full, transient, replace_executable) refl
        | inr lasting ↦ elim (Bool-cases (teq host.os (codes "windows"))) [
          | inl w ↦
              rw
                (
                  found,
                  full,
                  lasting,
                  replace_executable,
                  install_at,
                  works create_temp,
                  works write_temp,
                  works chmod_temp,
                  works sync_temp,
                  works close_temp,
                  w,
                )
                windows
          | inr u ↦
              rw
                (
                  found,
                  full,
                  lasting,
                  replace_executable,
                  install_at,
                  works create_temp,
                  works write_temp,
                  works chmod_temp,
                  works sync_temp,
                  works close_temp,
                  u,
                )
                unix
        ]
      ]

  -- When every call of the system works, a binary that is not empty is installed at the path of the
  -- executable, unless that path is a temporary one; but on Windows only where there is a file
  -- already: elsewhere it is an error. Where the outcome is a success the path holds the binary,
  -- and where it is an error it still holds what it held, or on Windows its old copy does; no other
  -- file changes, save the temporary one of a failure and on Windows the old copy. The executable
  -- was found, and the name of the temporary file is new.
  pub replace_executable_outcome :
      (target real : Text) (binary : List ℕ) (before : Disk)
      → is_empty binary ≡ false
      → destination host target ≡ some real
      → Fresh host real (host.temp_in (host.dir real)) before
      → let replaced = replace_executable host target binary before in
        (replaced.0 ≡ (
          if is_temporary_executable host real
          then err temporary_executable
          else if not (teq host.os (codes "windows")) || is_there (before real)
          then ok real
          else err not_moved))
        × Settled host real (host.temp_in (host.dir real)) binary before replaced
  replace_executable_outcome target real binary before full found fresh = (
    outcome target real binary before full found fresh,
    replace_executable-Settled host target real binary before found fresh,
  )
