-- ===== src/Updater/Installed.antt =====
-- What `ReplaceExecutable` of internal/updater leaves on the disk.
use wol.Prelude.{List, Outcome, either_way, err, inl, not, refl, some, ℕ, ◌≡◌}
use wol.Text.{Text, codes, is_empty, teq}
use wol.Updater.Replace.{
  Disk, Machine, ReplaceError, chmod_temp, close_temp, create_temp, destination, empty_binary,
  install_at, is_temporary_executable, no_temp, not_closed, not_executable, not_synced, not_written,
  replace_executable, sync_temp, temporary_executable, write_temp,
}
use wol.Updater.Swaps.{Fresh, Settled, failed-Settled, swap-Settled}

module _ (host : Machine) where
  module _ (real temp : Text) (binary : List ℕ) (before : Disk)
      (fresh : Fresh host real temp before) where
    unchanged-Settled : (e : ReplaceError) → Settled host real temp binary before (err e, before)
    unfolding Settled
    unchanged-Settled e = record { kept = inl refl; others = λ q away off. refl }

    install_at-Settled :
        Settled host real temp binary before (install_at host real temp binary before)
    unfolding install_at
    install_at-Settled =
        let holds : (Outcome ReplaceError Text × Disk) → Type 0 =
          Settled host real temp binary before in
        either_way holds (not (host.works create_temp)) (unchanged-Settled no_temp) (
          either_way holds (not (host.works write_temp))
            (failed-Settled host real temp binary before fresh not_written
              (some (host.cut_short binary)))
            (either_way holds (not (host.works chmod_temp))
              (failed-Settled host real temp binary before fresh not_executable (some binary))
              (either_way holds (not (host.works sync_temp))
                (failed-Settled host real temp binary before fresh not_synced (some binary))
                (either_way holds (not (host.works close_temp))
                  (failed-Settled host real temp binary before fresh not_closed (some binary))
                  (swap-Settled host real temp binary before fresh (teq host.os (codes "windows"))
                    refl)))))

  -- Whatever fails while the executable is replaced: either the new binary is in
  -- place, or an error is returned and the path still holds what it held, or on Windows the copy
  -- that was set aside does. No other path changes, save the temporary file of a failure and
  -- on Windows the old copy. The
  -- executable was found, and the name of the temporary file is new.
  pub replace_executable-Settled :
      (target real : Text) (binary : List ℕ) (before : Disk)
      → destination host target ≡ some real
      → Fresh host real (host.temp_in (host.dir real)) before
      → Settled host real
          (host.temp_in (host.dir real))
          binary
          before
          (replace_executable host target binary before)
  unfolding replace_executable
  replace_executable-Settled target real binary before found fresh =
      let temp = host.temp_in (host.dir real) in
      let holds : (Outcome ReplaceError Text × Disk) → Type 0 =
        Settled host real temp binary before in
      let unchanged = unchanged-Settled real temp binary before fresh in
      rw (found, replace_executable)
        (either_way holds (is_empty binary) (unchanged empty_binary) (
          either_way holds (is_temporary_executable host real) (unchanged temporary_executable)
            (install_at-Settled real temp binary before fresh)))
