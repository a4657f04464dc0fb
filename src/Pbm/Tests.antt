-- ===== src/Pbm/Tests.antt =====
-- Runs of lib/common/xm_pbm.c.
use xmap.Base.{ℕ, ◌%◌, ◌^◌, ◌+◌, ◌≡◌, Bool, true, false, ◌||◌, ◌==◌, List, [], ◌∷◌, arith, length}
use native.Mathlib.Nat.{mod-lt}
use xmap.Pbm.{init, set, check, load_lines}
use xmap.Pbm.Laws.{check-init, check-set, load_lines-check, contains, addresses}

check-init_example : check init 5 ≡ false
check-init_example = check-init 5

check-set_example : check (set (set init 7) 65543) 7 ≡ (65543 == 7 || check (set init 7) 7)
check-set_example = check-set (set init 7) 65543 7 (omega arith) (omega arith)

-- An address parser that answers with the number of characters of the line.
abbrev by_length : List ℕ → Bool × ℕ
by_length line = (true, length line % 2 ^ 32)

abbrev two_lines : List (List ℕ)
two_lines = (b'a' ∷ b'b' ∷ b'#' ∷ []) ∷ (b'#' ∷ []) ∷ []

load_lines-check_run :
    (check (load_lines by_length two_lines init 0).0 2
      ≡ (contains (addresses by_length two_lines) 2 || check init 2))
    × ((load_lines by_length two_lines init 0).1 ≡ (0 + length two_lines) % 2 ^ 32)
load_lines-check_run =
    load_lines-check by_length two_lines init 0 2 (λ line. mod-lt (length line) (omega arith))
      (omega arith) (omega arith)
