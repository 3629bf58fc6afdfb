-- ===== src/Visualiser/Stack.antt =====
-- What the stack of source/kernel/libs/apps/cpu_visualiser.c holds after any number of frames.
use waffle_os.Common.{
  ℕ, zero, suc, ◌+◌, ◌-◌, ◌%◌, ◌≤◌, ◌<◌, ◌≡◌, refl, Bool, true, false, ◌&&◌, List, [], ◌∷◌, ◌++◌,
  ltb, leb, if◌then◌else◌, length, length-append, length-take, take, get_or, arith,
}
use native.Mathlib.Nat.{mod-lt}
use waffle_os.Visualiser.{
  FakeProcess, Visualiser, lcg_rand, rand_in_range, name_options, color_options, total_used_blocks,
  push_new, push_process, pop_process, update, updates,
}

-- A process of one to three blocks, with one of the names and one of the colors.
pub record IsShown (p : FakeProcess) : Type 0 where
  pub some_blocks : 1 ≤ p.blocks
  pub few_blocks : p.blocks ≤ 3
  pub named : (n : ℕ) × (n < length name_options) × (p.name ≡ take 15 (get_or name_options n []))
  pub colored : (c : ℕ) × (c < length color_options) × (p.color ≡ get_or color_options c 0)

unfoldable pub AllShown : List FakeProcess → Type 0
AllShown [] = Unit
AllShown (p ∷ processes) = IsShown p × AllShown processes

pub record IsStack (processes : List FakeProcess) : Type 0 where
  pub few : length processes ≤ 6
  pub low : total_used_blocks processes ≤ 10
  pub all_shown : AllShown processes

rand_in_range-bounds :
    (min_val max_val seed : ℕ)
    → min_val ≤ max_val
    → (min_val ≤ (rand_in_range min_val max_val seed).0)
      × ((rand_in_range min_val max_val seed).0 ≤ max_val)
unfolding rand_in_range
rand_in_range-bounds min_val max_val seed ordered =
    let r = lcg_rand seed in
    let small : r % (max_val - min_val + 1) < max_val - min_val + 1 = mod-lt r (omega arith) in
    (ground arith, ground arith)

AllShown-append :
    (l : List FakeProcess) (p : FakeProcess) → AllShown l → IsShown p → AllShown (l ++ p ∷ [])
unfolding AllShown
AllShown-append [] p a s = (s, tt)
AllShown-append (q ∷ l) p (s', a) s = (s', AllShown-append l p a s)

AllShown-take : (n : ℕ) (l : List FakeProcess) → AllShown l → AllShown (take n l)
unfolding AllShown
AllShown-take zero l a = tt
AllShown-take (suc n) [] a = tt
AllShown-take (suc n) (q ∷ l) (s, a) = (s, AllShown-take n l a)

total_used_blocks-append :
    (l : List FakeProcess) (p : FakeProcess)
    → total_used_blocks (l ++ p ∷ []) ≡ total_used_blocks l + p.blocks
unfolding total_used_blocks
total_used_blocks-append [] p = omega arith
total_used_blocks-append (q ∷ l) p = omega (arith, total_used_blocks-append l p)

total_used_blocks-take :
    (n : ℕ) (l : List FakeProcess) → total_used_blocks (take n l) ≤ total_used_blocks l
unfolding total_used_blocks
total_used_blocks-take zero l = omega arith
total_used_blocks-take (suc n) [] = omega arith
total_used_blocks-take (suc n) (q ∷ l) = omega (arith, total_used_blocks-take n l)

push_new-IsStack :
    (needed : ℕ) (processes : List FakeProcess) (seed : ℕ)
    → 1 ≤ needed
    → needed ≤ 3
    → length processes < 6
    → total_used_blocks processes + needed ≤ 10
    → IsStack processes
    → IsStack (push_new needed processes seed).processes
unfolding push_new
push_new-IsStack needed processes seed some_blocks few_blocks room fits v =
    let (n, seed1) = rand_in_range 0 3 seed in
    let (c, seed2) = rand_in_range 0 7 seed1 in
    let proc : FakeProcess = record {
      name = take 15 (get_or name_options n []);
      blocks = needed;
      color = get_or color_options c 0;
    } in
    let (_, n_low) = rand_in_range-bounds 0 3 seed (omega arith) in
    let (_, c_low) = rand_in_range-bounds 0 7 seed1 (omega arith) in
    let shown : IsShown proc = record {
      some_blocks = some_blocks;
      few_blocks = few_blocks;
      named = (n, omega arith, refl);
      colored = (c, omega arith, refl);
    } in
    record {
      few = omega (arith, length-append processes (proc ∷ []));
      low = omega (arith, total_used_blocks-append processes proc);
      all_shown = AllShown-append processes proc v.all_shown shown;
    }

either_way :
    (b : Bool) (v v' : Visualiser)
    → (b ≡ true → IsStack v.processes)
    → (b ≡ false → IsStack v'.processes)
    → IsStack (if b then v else v').processes
either_way true v v' p q = p refl
either_way false v v' p q = q refl

push_process-IsStack : (v : Visualiser) → IsStack v.processes → IsStack (push_process v).processes
unfolding push_process
push_process-IsStack v s =
    let (needed, seed) = rand_in_range 1 3 v.rand_seed in
    let refused : Visualiser = record { processes = v.processes; rand_seed = seed } in
    let pushed : Visualiser = push_new needed v.processes seed in
    let (some_blocks, few_blocks) = rand_in_range-bounds 1 3 v.rand_seed (omega arith) in
    let over : Bool = ltb 10 (total_used_blocks v.processes + needed) in
    either_way (leb 6 (length v.processes)) v (if over then refused else pushed) (λ _. s)
      (λ room.
        either_way over refused pushed (λ _. s)
          (λ fits.
            push_new-IsStack needed v.processes seed some_blocks few_blocks (ground arith)
              (ground arith) s))

pop_process-IsStack : (v : Visualiser) → IsStack v.processes → IsStack (pop_process v).processes
unfolding pop_process
pop_process-IsStack v s =
    let n = length v.processes - 1 in
    either_way (ltb 0 (length v.processes)) (record v { processes = take n v.processes }) v
      (λ _. record {
        few = omega (arith, length-take n v.processes, s.few);
        low = omega (arith, total_used_blocks-take n v.processes, s.low);
        all_shown = AllShown-take n v.processes s.all_shown;
      })
      (λ _. s)

update-IsStack : (v : Visualiser) → IsStack v.processes → IsStack (update v).processes
unfolding update
update-IsStack v s =
    let (r, seed) = rand_in_range 0 99 v.rand_seed in
    let v1 : Visualiser = record v { rand_seed = seed } in
    let (r', seed') = rand_in_range 0 99 seed in
    let v2 : Visualiser = record v { rand_seed = seed' } in
    either_way (ltb 0 (length v.processes) && ltb r 3) (pop_process v1)
      (if ltb r' 3 then push_process v2 else v2) (λ _. pop_process-IsStack v1 s)
      (λ _. either_way (ltb r' 3) (push_process v2) v2 (λ _. push_process-IsStack v2 s) (λ _. s))

updates-IsStack : (n : ℕ) (v : Visualiser) → IsStack v.processes → IsStack (updates n v).processes
unfolding updates
updates-IsStack zero v s = s
updates-IsStack (suc n) v s = updates-IsStack n (update v) (update-IsStack v s)

-- From the empty stack and any seed, after any number of frames, the stack holds at most six
-- processes of at most ten blocks together, each of one to three blocks, with a name and a color that
-- are entries of the tables: no index runs past a table.
updates_of_empty-IsStack :
    (n rand_seed : ℕ)
    → IsStack (updates n (record { processes = []; rand_seed = rand_seed })).processes
unfolding AllShown total_used_blocks
updates_of_empty-IsStack n rand_seed =
    updates-IsStack n (record { processes = []; rand_seed = rand_seed })
      (record { few = omega arith; low = omega arith; all_shown = tt })
