-- ===== src/Scheduler/Tests.antt =====
-- Two processes, the first of which adds a third one.
use waffle_os.Common.{ℕ, refl, [], ◌∷◌, List, Bool, true, zero, suc, arith, ◌≤◌}
use waffle_os.Scheduler.{Scheduler, scheduler_init, add_all, schedule}
use waffle_os.Scheduler.Order.{IsQueue}
use waffle_os.Scheduler.Completion.{RunsAll, schedule-RunsAll, adds_weight}

abbrev spawns : ℕ → List (Bool × ℕ)
spawns zero = []
spawns (suc e) = (true, e) ∷ []

spawns-later : (e : ℕ) → adds_weight (λ a. suc a) (spawns e) ≤ e
spawns-later zero = omega arith
spawns-later (suc e) = omega arith

abbrev two_processes : Scheduler
two_processes = add_all ((true, 2) ∷ (true, 0) ∷ []) scheduler_init

init-IsQueue : IsQueue 1 scheduler_init
unfolding scheduler_init
init-IsQueue = record { pids = refl; tail = tt }

two_processes-IsQueue : IsQueue 1 two_processes
unfolding add_all scheduler_init
two_processes-IsQueue = record { pids = (refl, (refl, refl)); tail = refl }

-- Entry point 2 adds 1, which adds 0: four processes run.
schedule-RunsAll_example : RunsAll 1 (schedule spawns 8 two_processes)
unfolding add_all scheduler_init
schedule-RunsAll_example =
    schedule-RunsAll spawns (λ e. e) spawns-later 8 1 two_processes two_processes-IsQueue
      (omega arith) (omega arith)
