-- ===== src/Bio/Tests.antt =====
-- A cache of two buffers.
use operation_system_project.Prelude.{◌+◌, refl, true, false, List, [], ◌∷◌, arith}
use operation_system_project.Bio.{find, Buf, Disk, no_dev, bread}
use operation_system_project.Bio.View.{IsCache}
use operation_system_project.Bio.Read.{IsGot, bread-IsGot}

abbrev disk : Disk
disk dev sector = (dev + sector) ∷ 7 ∷ []

abbrev two_buffers : List Buf
two_buffers =
    record {
      id = 1;
      dev = 0;
      sector = 5;
      busy = false;
      valid = true;
      dirty = false;
      bytes = 5 ∷ 7 ∷ [];
    }
    ∷ record {
      id = 0;
      dev = no_dev;
      sector = 0;
      busy = false;
      valid = false;
      dirty = false;
      bytes = [];
    }
    ∷ []

two_buffers-IsCache : IsCache disk two_buffers
unfolding find
two_buffers-IsCache = record {
  distinct = (((λ e. omega (arith, e)), tt), (λ _. refl), (tt, (λ n. absurd (n refl)), tt));
  clean = ((λ _ _. refl), ((λ _ v. cc), tt));
}

bread-IsGot_example : IsGot disk 0 6 two_buffers (bread disk 0 6 two_buffers)
bread-IsGot_example = bread-IsGot disk 0 6 two_buffers two_buffers-IsCache (λ e. omega (arith, e))
