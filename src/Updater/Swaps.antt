-- ===== src/Updater/Swaps.antt =====
-- What the swap of the executable in `ReplaceExecutable` of internal/updater leaves on the disk.
use wol.Prelude.{
  Bool, Bool-cases, List, Option, Option-cases, Outcome, err, false, if◌then◌else◌, inl, inr, none,
  ok, refl, some, sym, true, ℕ, ◌∙◌, ◌≡◌, ◌≢◌, ◌⊎◌,
}
use wol.Text.{Text, codes, teq}
use wol.Text.Laws.{teq_iff}
use wol.Updater.Disks.{Moved, old_copy-apart, put-other, put-same, remove-other, rename-Moved}
use wol.Updater.Replace.{
  Disk, Machine, ReplaceError, drop_old, install, old_copy, put, put_back, remove, remove_old,
  remove_temp, rename, set_aside, swap_unix, swap_windows,
}

module _ (host : Machine) where
  -- a path that the swap of the executable does not touch
  abbrev pub Away : Text → Text → Type 0
  Away real q = (q ≢ real) × (teq host.os (codes "windows") ≡ true → q ≢ old_copy real)

  -- the new binary is in place
  pub record Done (real : Text) (binary : List ℕ) (before after : Disk) : Type 0 where
    pub in_place : after real ≡ some binary
    pub others : (q : Text) → Away real q → after q ≡ before q

  -- the old executable is in place, or set aside on Windows
  pub record Kept (real temp : Text) (before after : Disk) : Type 0 where
    pub kept :
        (after real ≡ before real)
        ⊎ ((teq host.os (codes "windows") ≡ true) × (after (old_copy real) ≡ before real))
    pub others : (q : Text) → Away real q → q ≢ temp → after q ≡ before q

  unfoldable pub Settled : Text → Text → List ℕ → Disk → Outcome ReplaceError Text × Disk → Type 0
  Settled real temp binary before (ok path, after) = (path ≡ real) × Done real binary before after
  Settled real temp binary before (err e, after) = Kept real temp before after

  -- the name of the temporary file is new
  abbrev pub Fresh : Text → Text → Disk → Type 0
  Fresh real temp before = (before temp ≡ none) × (temp ≢ real) × (temp ≢ old_copy real)

  module _ (real temp : Text) (binary : List ℕ) (before : Disk)
      (fresh : Fresh real temp before) where
    -- a disk with nothing changed but the temporary file
    abbrev Drafted : Disk → Type 0
    Drafted d = (q : Text) → q ≢ temp → d q ≡ before q

    put-Drafted : (c : Option (List ℕ)) → Drafted (put before temp c)
    put-Drafted c q away = put-other before temp q c away

    removed-Kept : (d : Disk) → Drafted d → Kept real temp before (remove host remove_temp temp d)
    removed-Kept d drafted = record {
      kept = inl (
          remove-other host remove_temp d temp real (λ e. fresh.1 (sym e))
          ∙ drafted real (λ e. fresh.1 (sym e)));
      others = λ q away off. remove-other host remove_temp d temp q off ∙ drafted q off;
    }

    -- the temporary file is closed and holds the binary
    record Filled (d : Disk) : Type 0 where
      drafted : Drafted d
      written : d temp ≡ some binary

    -- behind a rename of the temporary file onto the executable
    arrived :
        (d d' : Disk)
        → d temp ≡ some binary
        → ((q : Text) → Away real q → q ≢ temp → d q ≡ before q)
        → Moved temp real d d'
        → Done real binary before d'
    arrived d d' written others m = record {
      in_place = m.there ∙ written;
      others = λ q away. elim (Bool-cases (teq q temp)) [
        | inl hit ↦ let at : q ≡ temp = (teq_iff q temp).0 hit in rw at (m.gone ∙ sym fresh.0)
        | inr miss ↦
            let off : q ≢ temp = λ e. cc (miss, (teq_iff q temp).1 e) in
            m.others q off away.0 ∙ others q away off
      ];
    }

    swap_unix-Settled :
        (d : Disk) → Filled d → Settled real temp binary before (swap_unix host real temp d)
    unfolding swap_unix Settled
    swap_unix-Settled d f = elim (Option-cases (rename host install temp real d)) [
      | inl stuck ↦ rw (stuck, swap_unix, Settled) (removed-Kept d f.drafted)
      | inr (d', moved) ↦
          let m = rename-Moved host install temp real d d' fresh.1 moved in
          rw (moved, swap_unix, Settled)
            (refl, arrived d d' f.written (λ q away off. f.drafted q off) m)
    ]

    -- the old executable is set aside: only the three paths differ
    record Aside (d : Disk) : Type 0 where
      spare : d (old_copy real) ≡ before real
      ready : d temp ≡ some binary
      rest : (q : Text) → Away real q → q ≢ temp → d q ≡ before q

    module _ (windows : teq host.os (codes "windows") ≡ true) where
      aside :
          (d d' : Disk)
          → d temp ≡ some binary
          → d real ≡ before real
          → ((q : Text) → Away real q → q ≢ temp → d q ≡ before q)
          → Moved real (old_copy real) d d'
          → Aside d'
      aside d d' written held others m = record {
        spare = m.there ∙ held;
        ready = m.others temp fresh.1 fresh.2 ∙ written;
        rest = λ q away off. m.others q away.0 (away.1 windows) ∙ others q away off;
      }

      -- a failure before the old executable is moved
      cleared-Kept :
          (d : Disk)
          → d real ≡ before real
          → ((q : Text) → Away real q → q ≢ temp → d q ≡ before q)
          → Kept real temp before (remove host remove_temp temp d)
      cleared-Kept d held others = record {
        kept = inl (remove-other host remove_temp d temp real (λ e. fresh.1 (sym e)) ∙ held);
        others = λ q away off. remove-other host remove_temp d temp q off ∙ others q away off;
      }

      spared-Kept : (d : Disk) → Aside d → Kept real temp before (remove host remove_temp temp d)
      spared-Kept d a = record {
        kept = inr (
          windows,
          remove-other host remove_temp d temp (old_copy real) (λ e. fresh.2 (sym e)) ∙ a.spare,
        );
        others = λ q away off. remove-other host remove_temp d temp q off ∙ a.rest q away off;
      }

      dropped-Done :
          (d : Disk)
          → Done real binary before d
          → Done real binary before (remove host drop_old (old_copy real) d)
      dropped-Done d f = record {
        in_place =
            remove-other host drop_old d (old_copy real) real (λ e. old_copy-apart real (sym e))
            ∙ f.in_place;
        others = λ q away.
            remove-other host drop_old d (old_copy real) q (away.1 windows) ∙ f.others q away;
      }

      put_back-Kept :
          (d d' : Disk)
          → Aside d
          → Moved (old_copy real) real d d'
          → Kept real temp before (remove host remove_temp temp d')
      put_back-Kept d d' a m =
          cleared-Kept d' (m.there ∙ a.spare)
            (λ q away off. m.others q (away.1 windows) away.0 ∙ a.rest q away off)

      swap_windows-Settled :
          (d : Disk) → Filled d → Settled real temp binary before (swap_windows host real temp d)
      unfolding swap_windows Settled
      swap_windows-Settled d f =
          let spared = old_copy real in
          let cleared = remove host remove_old spared d in
          let held : cleared real ≡ before real =
            remove-other host remove_old d spared real (λ e. old_copy-apart real (sym e))
            ∙ f.drafted real (λ e. fresh.1 (sym e)) in
          let others : (q : Text) → Away real q → q ≢ temp → cleared q ≡ before q = λ q away off.
            remove-other host remove_old d spared q (away.1 windows) ∙ f.drafted q off in
          let written : cleared temp ≡ some binary =
            remove-other host remove_old d spared temp fresh.2 ∙ f.written in
          elim (Option-cases (rename host set_aside real spared cleared)) [
            | inl stuck ↦ rw (stuck, swap_windows, Settled) (cleared-Kept cleared held others)
            | inr (d1, moved) ↦
                let apart : real ≢ spared = λ e. old_copy-apart real (sym e) in
                let a =
                  aside cleared d1 written held others
                    (rename-Moved host set_aside real spared cleared d1 apart moved) in
                elim (Option-cases (rename host install temp real d1)) [
                  | inr (d2, placed) ↦
                      rw (moved, placed, swap_windows, Settled)
                        (
                          refl,
                          dropped-Done d2 (
                              arrived d1 d2 a.ready a.rest
                                (rename-Moved host install temp real d1 d2 fresh.1 placed)),
                        )
                  | inl stuck ↦ elim (Option-cases (rename host put_back spared real d1)) [
                    | inl lost ↦ rw (moved, stuck, lost, swap_windows, Settled) (spared-Kept d1 a)
                    | inr (d3, back) ↦
                        rw (moved, stuck, back, swap_windows, Settled)
                          (put_back-Kept d1 d3 a (
                            rename-Moved host put_back spared real d1 d3 (old_copy-apart real)
                              back))
                  ]
                ]
          ]

    put-Filled : Filled (put before temp (some binary))
    put-Filled = record {
      drafted = put-Drafted (some binary);
      written = put-same before temp (some binary);
    }

    pub swap-Settled :
        (b : Bool)
        → teq host.os (codes "windows") ≡ b
        → Settled real temp binary before (
            if b
            then swap_windows host real temp (put before temp (some binary))
            else swap_unix host real temp (put before temp (some binary)))
    swap-Settled true windows =
        swap_windows-Settled windows (put before temp (some binary)) put-Filled
    swap-Settled false other = swap_unix-Settled (put before temp (some binary)) put-Filled

    pub failed-Settled :
        (e : ReplaceError) (c : Option (List ℕ))
        → Settled real temp binary before (err e, remove host remove_temp temp (put before temp c))
    unfolding Settled
    failed-Settled e c = removed-Kept (put before temp c) (put-Drafted c)
