-- ===== src/Visualiser/Tests.antt =====
-- The first frames of source/kernel/libs/apps/cpu_visualiser.c from its seed.
use waffle_os.Common.{◌≡◌, refl}
use waffle_os.Visualiser.{lcg_rand}

first_number : lcg_rand 123456789 ≡ 231794730
unfolding lcg_rand
first_number = refl
