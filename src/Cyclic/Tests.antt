-- ===== src/Cyclic/Tests.antt =====
-- Runs of src/xm_cyclic.c.
use xmap.Base.{◌^◌, ◌%◌, ◌≡◌, ◌↔◌, refl, true, none, some, arith, [], ◌∷◌}
use xmap.Cyclic.{
  Gmp, make_cycle, CyclicGroup, groups, get_cyclic_group, check_coprime, fault, search_primroot,
  first_candidate,
}
use xmap.Cyclic.Group.{IsFirst, get_cyclic_group-IsFirst, get_cyclic_group_overrun}
use xmap.Cyclic.Coprime.{Apart, All, check_coprime_iff}
use xmap.Cyclic.Made.{IsMade, make_cycle-Turns}
use xmap.Cyclic.Candidate.{
  IsFound, cyclic_32, small_groups-IsFound, cyclic_32-IsFound, cyclic_32_fault,
}

get_cyclic_group-IsFirst_run :
    (chosen : CyclicGroup) × (get_cyclic_group 1000 groups ≡ some chosen)
    × IsFirst 1000 groups chosen
get_cyclic_group-IsFirst_run = get_cyclic_group-IsFirst 1000 (omega arith)

get_cyclic_group_overrun_run : get_cyclic_group 5000000000 groups ≡ none
get_cyclic_group_overrun_run = get_cyclic_group_overrun 5000000000 (omega arith)

check_coprime_iff_run : (check_coprime 35 (2 ∷ 3 ∷ []) ≡ some true) ↔ All (Apart 35) (2 ∷ 3 ∷ [])
check_coprime_iff_run =
    check_coprime_iff 35 (2 ∷ 3 ∷ []) (λ e. omega (arith, e))
      ((λ e. omega (arith, e)), ((λ e. omega (arith, e)), tt))

abbrev gmp : Gmp
gmp = record { powm = λ b e m. b ^ e % m; powm_lem = λ b e m. refl }

abbrev smallest : CyclicGroup
smallest = record { prime = 257; known_primroot = 3; prime_factors = 2 ∷ [] }

small_groups-IsFound_run :
    IsFound smallest 1 256 (search_primroot 300 smallest (first_candidate smallest 1000))
small_groups-IsFound_run = small_groups-IsFound 0 smallest 1000 300 refl (omega arith)

cyclic_32-IsFound_example :
    IsFound cyclic_32 1 4294967293
      (search_primroot 4294967297 cyclic_32 (first_candidate cyclic_32 77))
cyclic_32-IsFound_example = cyclic_32-IsFound 77 4294967297 (omega arith) (omega arith)

cyclic_32_fault_example :
    search_primroot 13 cyclic_32 (first_candidate cyclic_32 4294967295) ≡ fault
cyclic_32_fault_example = cyclic_32_fault 4294967295 10 (omega arith)

make_cycle-Turns_example : IsMade smallest (make_cycle gmp 300 smallest 1000 77)
make_cycle-Turns_example = make_cycle-Turns gmp 0 300 smallest 1000 77 refl (omega arith)
