-- ===== src/Fat/Names.antt =====
-- The names of eight characters and three (`FAT_FindFile` of source/kernel/drivers/fat.c).
use waffle_os.Common.{
  ℕ, suc, ◌+◌, ◌≤◌, ◌≡◌, ◌≢◌, refl, false, List, [], ◌∷◌, ◌++◌, some, ◌==◌, arith, ap, ◌∙◌, map,
  length, length-append, take, drop, take_all,
}
use waffle_os.Strings.{strchr, toupper}
use waffle_os.Fat.{spaced, extension_at, fat_name}

abbrev pub NoDot : List ℕ → Type 0
NoDot [] = Unit
NoDot (c ∷ s) = (c ≢ b'.') × NoDot s

strchr_dot : (base ext : List ℕ) → NoDot base → strchr (base ++ b'.' ∷ ext) b'.' ≡ some (b'.' ∷ ext)
unfolding strchr
strchr_dot [] ext p = refl
strchr_dot (c ∷ base) ext p = ground (arith, strchr_dot base ext p.1)

extension_at-append :
    (base ext : List ℕ) → NoDot base → extension_at (base ++ b'.' ∷ ext) ≡ length base
unfolding extension_at
extension_at-append base ext p =
    let whole = length-append base (b'.' ∷ ext) in
    rw (extension_at, strchr_dot base ext p) (omega (arith, whole))

pub take_front : (base rest : List ℕ) → take (length base) (base ++ rest) ≡ base
take_front [] rest = refl
take_front (c ∷ base) rest = ap (λ t. c ∷ t) (take_front base rest)

drop_dot : (base ext : List ℕ) → drop (length base + 1) (base ++ b'.' ∷ ext) ≡ ext
drop_dot [] ext = refl
drop_dot (c ∷ base) ext =
    let next : suc (length base) + 1 ≡ suc (length base + 1) = omega arith in
    ap (λ n. drop n (c ∷ base ++ b'.' ∷ ext)) next ∙ drop_dot base ext

-- A name of at most eight characters without a dot, and an extension of at most three, become the
-- eleven characters of a directory: upper case, each part filled up with spaces.
pub fat_name-append :
    (base ext : List ℕ)
    → NoDot base
    → length base ≤ 8
    → length ext ≤ 3
    → fat_name (base ++ b'.' ∷ ext) ≡ spaced 8 (map toupper base) ++ spaced 3 (map toupper ext)
unfolding fat_name
fat_name-append base ext p short short' =
    let place : (length base == 11) ≡ false = ground arith in
    rw
      (
        extension_at-append base ext p,
        place,
        take_front base (b'.' ∷ ext),
        drop_dot base ext,
        take_all 8 base short,
        take_all 3 ext short',
      )
      refl
