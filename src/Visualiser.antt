-- ===== src/Visualiser.antt =====
-- The stack of made-up processes that source/kernel/libs/apps/cpu_visualiser.c shows: its random
-- numbers, `push_process`, `pop_process` and a frame of `update_cpu_visualiser` without the drawing.
-- The stack is the list of the processes in use, from the bottom; the seed is a 32-bit word.
pub mod Stack
mod Tests
use waffle_os.Common.{
  ℕ, zero, suc, ◌+◌, ◌-◌, ◌*◌, ◌%◌, ◌^◌, Bool, true, false, ◌&&◌, List, [], ◌∷◌, ◌++◌, ltb, leb,
  if◌then◌else◌, length, take, get_or, codes,
}

pub record FakeProcess : Type 0 where
  pub name : List ℕ
  pub blocks : ℕ
  pub color : ℕ

pub record Visualiser : Type 0 where
  pub processes : List FakeProcess
  pub rand_seed : ℕ

abbrev pub max_stack_blocks : ℕ
max_stack_blocks = 10

abbrev pub max_processes : ℕ
max_processes = 6

unfoldable pub lcg_rand : ℕ → ℕ
lcg_rand rand_seed = (1103515245 * rand_seed + 12345) % 2 ^ 32

-- The number and the next seed.
unfoldable pub rand_in_range : ℕ → ℕ → ℕ → ℕ × ℕ
unfolding lcg_rand
rand_in_range min_val max_val rand_seed =
    if ltb max_val min_val
    then (min_val, rand_seed)
    else (lcg_rand rand_seed % (max_val - min_val + 1) + min_val, lcg_rand rand_seed)

abbrev pub name_options : List (List ℕ)
name_options = codes "Terminal" ∷ codes "CPU Sched" ∷ codes "Paging" ∷ codes "UI Render" ∷ []

abbrev pub color_options : List ℕ
color_options = 6 ∷ 9 ∷ 10 ∷ 11 ∷ 12 ∷ 13 ∷ 14 ∷ 15 ∷ []

unfoldable pub total_used_blocks : List FakeProcess → ℕ
total_used_blocks [] = 0
total_used_blocks (p ∷ processes) = p.blocks + total_used_blocks processes

-- From the declaration of `proc` on.
unfoldable pub push_new : ℕ → List FakeProcess → ℕ → Visualiser
unfolding rand_in_range
push_new needed processes seed =
    let (n, seed1) = rand_in_range 0 3 seed in
    let (c, seed2) = rand_in_range 0 7 seed1 in
    let proc : FakeProcess = record {
      name = take 15 (get_or name_options n []);
      blocks = needed;
      color = get_or color_options c 0;
    } in
    record { processes = processes ++ proc ∷ []; rand_seed = seed2 }

unfoldable pub push_process : Visualiser → Visualiser
unfolding rand_in_range total_used_blocks push_new
push_process v =
    let (needed, seed) = rand_in_range 1 3 v.rand_seed in
    if leb max_processes (length v.processes)
    then v
    else if ltb max_stack_blocks (total_used_blocks v.processes + needed)
    then record { processes = v.processes; rand_seed = seed }
    else push_new needed v.processes seed

unfoldable pub pop_process : Visualiser → Visualiser
pop_process v =
    if ltb 0 (length v.processes)
    then record v { processes = take (length v.processes - 1) v.processes }
    else v

-- `update_cpu_visualiser`, while its window is open.
unfoldable pub update : Visualiser → Visualiser
unfolding rand_in_range push_process pop_process
update v =
    let (r, seed) = rand_in_range 0 99 v.rand_seed in
    let v1 : Visualiser = record v { rand_seed = seed } in
    let (r', seed') = rand_in_range 0 99 seed in
    let v2 : Visualiser = record v { rand_seed = seed' } in
    if ltb 0 (length v.processes) && ltb r 3
    then pop_process v1
    else if ltb r' 3
    then push_process v2
    else v2

unfoldable pub updates : ℕ → Visualiser → Visualiser
updates zero v = v
updates (suc n) v = updates n (update v)
