-- ===== src/Fat/Entries.antt =====
-- The table of 12-bit entries (`FAT_NextCluster` of source/kernel/drivers/fat.c).
use waffle_os.Common.{
  ℕ, ◌+◌, ◌*◌, ◌/◌, ◌%◌, ◌^◌, ◌<◌, ◌≡◌, true, false, ◌==◌, if◌then◌else◌, arith, mul32, Bool-cases,
  inl, inr,
}
use waffle_os.Fat.{next_cluster}

-- Two entries of 12 bits in three bytes, the lowest bits first.
abbrev pub packed : (ℕ → ℕ) → ℕ → ℕ
packed entry i =
    if i % 3 == 0
    then entry (2 * (i / 3)) % 2 ^ 8
    else if i % 3 == 1
    then entry (2 * (i / 3)) / 2 ^ 8 + entry (2 * (i / 3) + 1) % 2 ^ 4 * 2 ^ 4
    else entry (2 * (i / 3) + 1) / 2 ^ 4

-- In a table of entries of 12 bits, packed two to three bytes, `FAT_NextCluster` reads the entry of
-- its cluster, for clusters whose threefold number fits 32 bits.
pub next_cluster-packed :
    (entry : ℕ → ℕ) (cluster : ℕ)
    → ((i : ℕ) → entry i < 2 ^ 12)
    → cluster * 3 < 2 ^ 32
    → next_cluster (packed entry) cluster ≡ entry cluster
unfolding next_cluster
next_cluster-packed entry cluster small fits =
    let k = cluster / 2 in
    elim (Bool-cases (cluster % 2 == 0)) [
      | inl even ↦
          let at : mul32 cluster 3 / 2 ≡ 3 * k = ground arith in
          let same : 2 * (3 * k / 3) ≡ cluster = ground arith in
          let same' : 2 * ((3 * k + 1) / 3) ≡ cluster = ground arith in
          let r0 : (3 * k % 3 == 0) ≡ true = ground arith in
          let r1 : ((3 * k + 1) % 3 == 0) ≡ false = ground arith in
          let r2 : ((3 * k + 1) % 3 == 1) ≡ true = ground arith in
          let bound = small cluster in rw (even, at, r0, r1, r2, same, same') (omega (arith, bound))
      | inr odd ↦
          let at : mul32 cluster 3 / 2 ≡ 3 * k + 1 = ground arith in
          let same : 2 * ((3 * k + 1) / 3) + 1 ≡ cluster = ground arith in
          let same' : 2 * ((3 * k + 1 + 1) / 3) + 1 ≡ cluster = ground arith in
          let r0 : ((3 * k + 1) % 3 == 0) ≡ false = ground arith in
          let r1 : ((3 * k + 1) % 3 == 1) ≡ true = ground arith in
          let r2 : ((3 * k + 1 + 1) % 3 == 0) ≡ false = ground arith in
          let r3 : ((3 * k + 1 + 1) % 3 == 1) ≡ false = ground arith in
          let bound = small cluster in
          let other = small (2 * ((3 * k + 1) / 3)) in
          rw (odd, at, r0, r1, r2, r3, same, same') (omega (arith, bound, other))
    ]
