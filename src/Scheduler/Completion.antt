-- ===== src/Scheduler/Completion.antt =====
-- The loop of the scheduler of source/kernel/core/cpu_sched.c ends, and runs every process once.
use waffle_os.Common.{
  ℕ, zero, suc, ◌+◌, ◌≤◌, ◌<◌, ◌≡◌, refl, Bool, true, false, List, [], ◌∷◌, Option, none, some,
  arith, ap, length, Option-cases, inl, inr,
}
use waffle_os.Scheduler.{
  Pcb, Scheduler, ready, link_after, enqueue, add_process, add_all, rest_of, start_head, run_head,
  schedule,
}
use waffle_os.Scheduler.Order.{ConsecutivePids, IsQueue, u32_limit, run_head-IsQueue}

-- The weights of the entry points in the queue, and of those that an addition serves.
abbrev pub queue_weight : (ℕ → ℕ) → List Pcb → ℕ
queue_weight w [] = 0
queue_weight w (p ∷ ps) = w p.entry_point + queue_weight w ps

abbrev pub adds_weight : (ℕ → ℕ) → List (Bool × ℕ) → ℕ
adds_weight w [] = 0
adds_weight w ((served, e) ∷ l) = w e + adds_weight w l

link_after-weight :
    (w : ℕ → ℕ) (k : ℕ) (new : Pcb) (q : List Pcb)
    → queue_weight w (link_after k new q) ≤ queue_weight w q + w new.entry_point
unfolding link_after
link_after-weight w k new [] = omega arith
link_after-weight w k new (p ∷ ps) = ground (arith, link_after-weight w k new ps)

link_after-rest :
    (w : ℕ → ℕ) (k : ℕ) (new : Pcb) (q : List Pcb)
    → queue_weight w (rest_of (link_after k new q)) ≤ queue_weight w (rest_of q) + w new.entry_point
unfolding link_after
link_after-rest w k new [] = omega arith
link_after-rest w k new (p ∷ ps) = ground (arith, link_after-weight w k new ps)

-- The head stays the head, so an addition weighs on the rest of the queue.
add_process-rest :
    (w : ℕ → ℕ) (served : Bool) (e : ℕ) (s : Scheduler)
    → queue_weight w (rest_of (add_process served e s).queue)
      ≤ queue_weight w (rest_of s.queue) + w e
unfolding add_process enqueue
add_process-rest w false e s = omega arith
add_process-rest w true e s =
    let new : Pcb = record { pid = s.next_pid; state = ready; entry_point = e } in
    elim (Option-cases s.tail) [
      | inl none_tail ↦ rw none_tail (omega arith)
      | inr (t, some_tail) ↦ rw some_tail (link_after-rest w t new s.queue)
    ]

add_all-rest :
    (w : ℕ → ℕ) (l : List (Bool × ℕ)) (s : Scheduler)
    → queue_weight w (rest_of (add_all l s).queue)
      ≤ queue_weight w (rest_of s.queue) + adds_weight w l
unfolding add_all
add_all-rest w [] s = omega arith
add_all-rest w ((served, e) ∷ l) s =
    omega (arith, add_process-rest w served e s, add_all-rest w l (add_process served e s))

adds_weight-suc :
    (w : ℕ → ℕ) (l : List (Bool × ℕ)) → adds_weight (λ e. suc (w e)) l ≡ length l + adds_weight w l
adds_weight-suc w [] = refl
adds_weight-suc w ((served, e) ∷ l) = omega (arith, adds_weight-suc w l)

-- What `schedule` promises from a queue whose first pid is `first`.
abbrev pub RunsAll : ℕ → Option (Scheduler × List ℕ) → Type 0
RunsAll first none = ⊥
RunsAll first (some (s, pids)) =
    ConsecutivePids first s.next_pid pids × (s.queue ≡ []) × (s.tail ≡ none)

RunsAll-cons :
    (first pid : ℕ) (r : Option (Scheduler × List ℕ))
    → pid ≡ first
    → RunsAll (suc first) r
    → RunsAll first (elim r [ none ↦ none | some (s, pids) ↦ some (s, pid ∷ pids) ])
RunsAll-cons first pid none e v = v
RunsAll-cons first pid (some (s, pids)) e (p, q, t) = ((e, p), q, t)

run_head-rest :
    (adds : ℕ → List (Bool × ℕ)) (w : ℕ → ℕ) (s : Scheduler) (current : Pcb) (ps : List Pcb)
    → s.queue ≡ current ∷ ps
    → queue_weight w (run_head adds current s).queue
      ≤ queue_weight w ps + adds_weight w (adds current.entry_point)
unfolding run_head
run_head-rest adds w s current ps e =
    let started : Scheduler = record s { queue = start_head s.queue } in
    let same : rest_of started.queue ≡ ps = rw e in
    omega (arith, add_all-rest w (adds current.entry_point) started, ap (queue_weight w) same)

module _ (adds : ℕ → List (Bool × ℕ)) (later : ℕ → ℕ)
    (all_later : (e : ℕ) → adds_weight (λ a. suc (later a)) (adds e) ≤ later e) where
  abbrev runs : ℕ → ℕ
  runs e = suc (later e)

  schedule_from :
      (fuel first : ℕ) (queue : List Pcb) (tail : Option ℕ) (next : ℕ)
      → IsQueue first (record { queue = queue; tail = tail; next_pid = next })
      → next + queue_weight later queue < u32_limit
      → queue_weight runs queue < fuel
      → RunsAll first (schedule adds fuel (record { queue = queue; tail = tail; next_pid = next }))
  unfolding schedule
  schedule_from zero first queue tail next v small enough = absurd (omega (arith, enough))
  schedule_from (suc fuel) first [] tail next v small enough = (v.pids, refl, refl)
  schedule_from (suc fuel) first (current ∷ ps) tail next v small enough =
      let s : Scheduler = record { queue = current ∷ ps; tail = tail; next_pid = next } in
      let s' : Scheduler = run_head adds current s in
      let spawned = all_later current.entry_point in
      let split = adds_weight-suc later (adds current.entry_point) in
      let (v', le) = run_head-IsQueue adds first s current ps refl v (omega arith) in
      let rest = run_head-rest adds later s current ps refl in
      let rest_runs = run_head-rest adds runs s current ps refl in
      let again =
        schedule_from fuel (suc first) s'.queue s'.tail s'.next_pid v' (omega arith)
          (omega arith) in
      RunsAll-cons first current.pid (schedule adds fuel s') v.pids.0 again

-- If `later e` bounds how many processes an entry point `e` leads to, its own additions and all
-- that follow from them, then `schedule` ends: from a queue of consecutive pids with the tail at
-- its end, and with pids that stay below 2 ^ 32, it runs the processes in the order of their pids,
-- each of them once and none left out, and it leaves an empty queue and no tail.
pub schedule-RunsAll :
    (adds : ℕ → List (Bool × ℕ)) (later : ℕ → ℕ)
    → ((e : ℕ) → adds_weight (λ a. suc (later a)) (adds e) ≤ later e)
    → (fuel first : ℕ) (s : Scheduler) → IsQueue first s
    → s.next_pid + queue_weight later s.queue < u32_limit
    → queue_weight (λ e. suc (later e)) s.queue < fuel
    → RunsAll first (schedule adds fuel s)
schedule-RunsAll adds later all_later fuel first s =
    schedule_from adds later all_later fuel first s.queue s.tail s.next_pid
