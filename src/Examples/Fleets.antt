-- ===== src/Examples/Fleets.antt =====
-- internal/fleet at concrete inputs.
use wol.Prelude.{All, List, [], arith, false, length, pos, refl, true, ℕ, ◌∷◌, ◌≡◌, ◌≤◌, ◌⊎◌}
use wol.Examples.Wakes.{pc}
use wol.Fleet.{
  Phase, Pool, Result, add_to_group, cancelled_result, crew, global_limit, grouped, idle, left, run,
  settings, site_limit, site_timeout,
}
use wol.Fleet.Bounds.{holders, roster, total_holders}
use wol.Fleet.Count.{Answers, count_devices, count_results}
use wol.Fleet.Guarantees.{run_bounded, run_complete, run_progress, run_terminates, work_steps}
use wol.Fleet.Progress.{Moves, Returning, all_left, is_left}
use wol.Fleet.Run.{Limited, run_env}
use wol.Fleet.Steps.{
  Env, Reach, Step, View, Work, acquire, here, leave, look, more, operate, put_result, receive,
  release, start, this, work,
}
use wol.Store.{Device, no_device}
use wol.Text.{codes, teq}

abbrev attic : Device
attic = record no_device { id = codes "d2"; site_id = codes "s1" }

abbrev both : List Device
both = attic ∷ pc ∷ []

-- the operation answers every device with its own identifier
abbrev Online : ℕ → Device → Result → Type 0
Online _ d r = r.device_id ≡ d.id

abbrev here_now : Env
here_now = run_env Online (pos 2) both

answers : Answers here_now
answers = record { same_id = λ _ _ _ e. e }

returning : Returning here_now
returning = record { returns = λ _ d. (cancelled_result d [], unfold cancelled_result in refl) }

abbrev begun : Pool
begun = run both []

run_bounded_example :
    (total_holders begun.crews ≡ begun.shared.used)
    × (begun.shared.used ≤ global_limit (pos 2))
    × (global_limit (pos 2) ≤ 32)
    × All (λ c. holders c.workers ≤ length c.workers) begun.crews
    × Limited [] (roster begun.crews)
run_bounded_example = run_bounded Online (pos 2) both [] begun start

run_progress_example : (all_left begun.crews ≡ true) ⊎ Moves here_now begun.shared begun.crews
run_progress_example = run_progress Online (pos 2) both [] begun answers returning start

-- a run of one device by its one worker, from the start to the end
abbrev alone : List Device
alone = attic ∷ []

abbrev solo : Env
solo = run_env Online (pos 2) alone

abbrev at : ℕ → List Result → List Device → Phase → Pool
at used results queue phase = record {
  shared = record { used = used; results = results; stopped = false };
  crews = record { site = codes "s1"; timeout = 2500; queue = queue; workers = phase ∷ [] } ∷ [];
}

abbrev seen : ℕ → List Result → List Device → View
seen used results queue = record {
  shared = record { used = used; results = results; stopped = false };
  queue = queue;
}

solo-Step :
    {m n : ℕ} {rs rs' : List Result} {q q' : List Device} {p p' : Phase}
    → Work solo 2500 (seen m rs q) p (seen n rs' q') p'
    → Step solo (at m rs q p) (at n rs' q' p')
solo-Step {m} {n} {rs} {rs'} {q} {q'} {p} {p'} w = work _ _ (this q' (p' ∷ []) (here w))

abbrev answer : Result
answer = cancelled_result attic []

answer_id : answer.device_id ≡ attic.id
unfolding cancelled_result
answer_id = refl

abbrev over : Pool
over = at 0 (answer ∷ []) [] left

solo_begins : run alone [] ≡ at 0 [] alone idle
unfolding run grouped add_to_group crew site_timeout site_limit settings
solo_begins = refl

whole_run : Reach solo (at 0 [] alone idle) over
unfolding global_limit
whole_run =
    more
      (more
        (more
          (more
            (more (more (more start (solo-Step (receive attic [] refl))) (solo-Step (look refl)))
              (solo-Step (acquire (omega arith))))
            (solo-Step (operate answer refl answer_id)))
          (solo-Step release))
        (solo-Step (put_result (omega arith))))
      (solo-Step (leave refl))

solo_reach : Reach solo (run alone []) over
solo_reach = rw solo_begins whole_run

over_left : all_left over.crews ≡ true
unfolding is_left
over_left = refl

solo_answers : Answers solo
solo_answers = record { same_id = λ _ _ _ e. e }

run_complete_example :
    count_results (teq (codes "d2")) (answer ∷ []) ≡ count_devices (teq (codes "d2")) alone
run_complete_example =
    run_complete Online (pos 2) alone [] over (teq (codes "d2")) solo_answers solo_reach over_left

run_terminates_example : work_steps solo_reach ≤ 7
run_terminates_example = run_terminates solo alone [] over solo_reach
