-- ===== src/Scheduler.antt =====
-- source/kernel/core/cpu_sched.c. The ready queue is the list of its control blocks from
-- `ready_queue_head` on, and `ready_queue_tail` is the pid of the block that it points to. An entry
-- point is a function pointer: what it adds when it runs is the parameter `adds`, and whether
-- `malloc` serves a control block is a flag of each addition.
pub mod Completion
pub mod Order
mod Tests
use waffle_os.Common.{
  ℕ, zero, suc, ◌+◌, Bool, true, false, List, [], ◌∷◌, ◌++◌, Option, none, some, ◌==◌,
  if◌then◌else◌, add32,
}

pub data ProcessState : Type 0 where
  ready running terminated : ProcessState

pub record Pcb : Type 0 where
  pub pid : ℕ
  pub state : ProcessState
  pub entry_point : ℕ

pub record Scheduler : Type 0 where
  pub queue : List Pcb
  pub tail : Option ℕ
  pub next_pid : ℕ

unfoldable pub scheduler_init : Scheduler
scheduler_init = record { queue = []; tail = none; next_pid = 1 }

-- `ready_queue_tail->next = new_pcb`: what followed the tail is lost.
unfoldable pub link_after : ℕ → Pcb → List Pcb → List Pcb
link_after tail new_pcb [] = []
link_after tail new_pcb (p ∷ ps) =
    if p.pid == tail then p ∷ new_pcb ∷ [] else p ∷ link_after tail new_pcb ps

-- `if (ready_queue_tail == NULL)`
unfoldable pub enqueue : Option ℕ → Pcb → List Pcb → List Pcb
unfolding link_after
enqueue none new_pcb ps = new_pcb ∷ []
enqueue (some tail) new_pcb ps = link_after tail new_pcb ps

unfoldable pub add_process : Bool → ℕ → Scheduler → Scheduler
unfolding enqueue
add_process false entry_point s = s
add_process true entry_point s =
    let new_pcb : Pcb = record { pid = s.next_pid; state = ready; entry_point = entry_point } in
    record {
      queue = enqueue s.tail new_pcb s.queue;
      tail = some new_pcb.pid;
      next_pid = add32 s.next_pid 1;
    }

-- What an entry point does to the scheduler: its additions in order.
unfoldable pub add_all : List (Bool × ℕ) → Scheduler → Scheduler
unfolding add_process
add_all [] s = s
add_all ((served, entry_point) ∷ rest) s = add_all rest (add_process served entry_point s)

-- `current->next`, where `current` is the head.
abbrev pub rest_of : List Pcb → List Pcb
rest_of [] = []
rest_of (p ∷ ps) = ps

abbrev pub start_head : List Pcb → List Pcb
start_head [] = []
start_head (p ∷ ps) = record p { state = running } ∷ ps

module _ (adds : ℕ → List (Bool × ℕ)) where
  -- One round of the loop on the head `current`: it runs, and is unlinked and freed.
  unfoldable pub run_head : Pcb → Scheduler → Scheduler
  unfolding add_all
  run_head current s =
      let s' = add_all (adds current.entry_point) (record s { queue = start_head s.queue }) in
      record s' { queue = rest_of s'.queue }

  -- `while (ready_queue_head != NULL)`. The result is the scheduler and the pids that ran, in
  -- order; `none` means that the fuel ran out.
  unfoldable pub schedule : ℕ → Scheduler → Option (Scheduler × List ℕ)
  unfolding run_head
  schedule zero s = none
  schedule (suc fuel) s = elim s.queue [
    | [] ↦ some (record s { tail = none }, [])
    | current ∷ ps ↦ elim (schedule fuel (run_head current s)) [
      | none ↦ none
      | some (s', pids) ↦ some (s', current.pid ∷ pids)
    ]
  ]
