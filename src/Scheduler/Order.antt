-- ===== src/Scheduler/Order.antt =====
-- The scheduler of source/kernel/core/cpu_sched.c keeps the pids of its queue consecutive.
use waffle_os.Common.{
  ℕ, suc, ◌+◌, ◌-◌, ◌^◌, ◌≤◌, ◌<◌, ◌≡◌, refl, Bool, true, false, List, [], ◌∷◌, Option, none, some,
  arith, add32, ap, length, inl, inr, ◌⊎◌,
}
use waffle_os.Scheduler.{
  Pcb, Scheduler, ready, link_after, enqueue, add_process, add_all, rest_of, start_head, run_head,
}

-- The pids of the queue are the numbers from `n` up to `m`.
abbrev pub Consecutive : ℕ → ℕ → List Pcb → Type 0
Consecutive n m [] = n ≡ m
Consecutive n m (p ∷ ps) = (p.pid ≡ n) × Consecutive (suc n) m ps

abbrev pub ConsecutivePids : ℕ → ℕ → List ℕ → Type 0
ConsecutivePids n m [] = n ≡ m
ConsecutivePids n m (p ∷ ps) = (p ≡ n) × ConsecutivePids (suc n) m ps

-- The tail points to the last block of a queue that is not empty.
abbrev pub TailOf : List Pcb → Option ℕ → ℕ → Type 0
TailOf [] t m = Unit
TailOf (p ∷ ps) t m = t ≡ some (m - 1)

pub record IsQueue (first : ℕ) (s : Scheduler) : Type 0 where
  pub pids : Consecutive first s.next_pid s.queue
  pub tail : TailOf s.queue s.tail s.next_pid

Consecutive-le : (n m : ℕ) (ps : List Pcb) → Consecutive n m ps → n ≤ m
Consecutive-le n m [] c = omega arith
Consecutive-le n m (p ∷ ps) c = omega (arith, Consecutive-le (suc n) m ps c.1)

-- The search for the tail ends at the last block.
link_after-Consecutive :
    (n m : ℕ) (new : Pcb) (p : Pcb) (ps : List Pcb)
    → Consecutive n m (p ∷ ps)
    → new.pid ≡ m
    → Consecutive n (suc m) (link_after (m - 1) new (p ∷ ps))
unfolding link_after
link_after-Consecutive n m new p [] c e = ground arith
link_after-Consecutive n m new p (q ∷ ps) c e = ground (
  arith,
  Consecutive-le (suc (suc n)) m ps c.1.1,
  link_after-Consecutive (suc n) m new q ps c.1 e,
)

TailOf-any : (q : List Pcb) (t : Option ℕ) (m : ℕ) → t ≡ some (m - 1) → TailOf q t m
TailOf-any [] t m e = tt
TailOf-any (p ∷ ps) t m e = e

-- Not empty, as the queue is while a process runs.
abbrev pub Busy : List Pcb → Type 0
Busy [] = ⊥
Busy (p ∷ ps) = Unit

abbrev pub u32_limit : ℕ
u32_limit = 2 ^ 32

rest_of-Consecutive :
    (n m : ℕ) (q : List Pcb) → Busy q → Consecutive n m q → Consecutive (suc n) m (rest_of q)
rest_of-Consecutive n m [] b c = absurd b
rest_of-Consecutive n m (p ∷ ps) b c = c.1

link_after-Busy : (k : ℕ) (new p : Pcb) (ps : List Pcb) → Busy (link_after k new (p ∷ ps))
unfolding link_after
link_after-Busy k new p ps = ground arith

add_process-next_pid :
    (served : Bool) (e : ℕ) (s : Scheduler)
    → s.next_pid + 1 < u32_limit
    → (add_process served e s).next_pid ≤ s.next_pid + 1
unfolding add_process
add_process-next_pid false e s small = omega arith
add_process-next_pid true e s small = omega arith

-- The queue, its tail and the next pid while a process runs.
abbrev pub Running : ℕ → Scheduler → Type 0
Running first s =
    Busy s.queue × Consecutive first s.next_pid s.queue × (s.tail ≡ some (s.next_pid - 1))

enqueue-Running :
    (first m : ℕ) (t : Option ℕ) (new : Pcb) (q : List Pcb)
    → Busy q
    → Consecutive first m q
    → t ≡ some (m - 1)
    → new.pid ≡ m
    → Busy (enqueue t new q) × Consecutive first (suc m) (enqueue t new q)
unfolding enqueue
enqueue-Running first m t new [] b c e k = absurd b
enqueue-Running first m t new (p ∷ ps) b c e k =
    rw (e, enqueue) (link_after-Busy (m - 1) new p ps, link_after-Consecutive first m new p ps c k)

add_process-Running :
    (served : Bool) (e first : ℕ) (s : Scheduler)
    → s.next_pid + 1 < u32_limit
    → Running first s
    → Running first (add_process served e s)
unfolding add_process
add_process-Running false e first s small v = v
add_process-Running true e first s small (b, c, t) =
    let new : Pcb = record { pid = s.next_pid; state = ready; entry_point = e } in
    let next : add32 s.next_pid 1 ≡ suc s.next_pid = omega arith in
    let queued = enqueue-Running first s.next_pid s.tail new s.queue b c t refl in
    (queued.0, rw next queued.1, rw next (ap some (omega arith)))

add_all-Running :
    (l : List (Bool × ℕ)) (first : ℕ) (s : Scheduler)
    → s.next_pid + length l < u32_limit
    → Running first s
    → Running first (add_all l s) × ((add_all l s).next_pid ≤ s.next_pid + length l)
unfolding add_all
add_all-Running [] first s small v = (v, omega arith)
add_all-Running ((served, e) ∷ l) first s small v =
    let bound = add_process-next_pid served e s (omega arith) in
    let (v', le) =
      add_all-Running l first (add_process served e s) (omega arith)
        (add_process-Running served e first s (omega arith) v) in
    (v', omega arith)

-- What is left of the queue after the head has run.
unlink-IsQueue :
    (first : ℕ) (s : Scheduler)
    → Running first s
    → IsQueue (suc first) (record s { queue = rest_of s.queue })
unlink-IsQueue first s (b, c, t) = record {
  pids = rest_of-Consecutive first s.next_pid s.queue b c;
  tail = TailOf-any (rest_of s.queue) s.tail s.next_pid t;
}

start-Running :
    (first : ℕ) (s : Scheduler) (current : Pcb) (ps : List Pcb)
    → s.queue ≡ current ∷ ps
    → IsQueue first s
    → Running first (record s { queue = start_head s.queue })
start-Running first s current ps e v =
    let tail : TailOf (current ∷ ps) s.tail s.next_pid = rw e at v.tail in
    let pids : Consecutive first s.next_pid (current ∷ ps) = rw e at v.pids in rw e (tt, pids, tail)

pub run_head-IsQueue :
    (adds : ℕ → List (Bool × ℕ)) (first : ℕ) (s : Scheduler) (current : Pcb) (ps : List Pcb)
    → s.queue ≡ current ∷ ps
    → IsQueue first s
    → s.next_pid + length (adds current.entry_point) < u32_limit
    → IsQueue (suc first) (run_head adds current s)
      × ((run_head adds current s).next_pid ≤ s.next_pid + length (adds current.entry_point))
unfolding run_head
run_head-IsQueue adds first s current ps e v small =
    let started : Scheduler = record s { queue = start_head s.queue } in
    let (v', le) =
      add_all-Running (adds current.entry_point) first started small
        (start-Running first s current ps e v) in
    (unlink-IsQueue first (add_all (adds current.entry_point) started) v', le)

List-cases {ℓ} : {A : Type ℓ} (l : List A) → (l ≡ []) ⊎ ((x : A) × (xs : List A) × (l ≡ x ∷ xs))
List-cases [] = inl refl
List-cases (x ∷ xs) = inr (x, xs, refl)

Running-IsQueue : (first : ℕ) (s : Scheduler) → Running first s → IsQueue first s
Running-IsQueue first s (b, c, t) = record {
  pids = c;
  tail = TailOf-any s.queue s.tail s.next_pid t;
}

-- A process that is added to a well-formed queue goes to its end with the next pid, and the queue
-- stays well formed: its pids are consecutive and the tail points to the last of them, if it is not
-- empty. A failed allocation changes nothing.
add_process-IsQueue :
    (served : Bool) (e first : ℕ) (s : Scheduler)
    → s.next_pid + 1 < u32_limit
    → IsQueue first s
    → (s.queue ≡ [] → s.tail ≡ none)
    → IsQueue first (add_process served e s)
unfolding add_process enqueue
add_process-IsQueue false e first s small v empty = v
add_process-IsQueue true e first s small v empty = elim (List-cases s.queue) [
  | inl no_block ↦
      let last : first ≡ s.next_pid = rw no_block at v.pids in
      let no_tail = empty no_block in
      rw no_tail (record { pids = (omega arith, omega arith); tail = ap some (omega arith) })
  | inr (p, ps, blocks) ↦
      let pids : Consecutive first s.next_pid (p ∷ ps) = rw blocks at v.pids in
      let tail : TailOf (p ∷ ps) s.tail s.next_pid = rw blocks at v.tail in
      Running-IsQueue first (add_process true e s)
        (add_process-Running true e first s small (rw blocks (tt, pids, tail)))
]
