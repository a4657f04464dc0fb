-- ===== src/Store/Object.antt =====
-- What src/xm_store.h packs, read as msgpack objects.
use xmap.Base.{ℕ, zero, suc, ◌+◌, ◌*◌, Option, none, some, List, [], ◌∷◌}
use xmap.Store.{Token, str, bin, map_head, array_head, uint}

-- How many objects are still to come after the calls, where n were: the head of a map of k pairs
-- stands for one and asks for 2 * k more. none: an object more than was asked for.
unfoldable pub pending : ℕ → List Token → Option ℕ
pending n [] = some n
pending zero (t ∷ ts) = none
pending (suc n) (str s ∷ ts) = pending n ts
pending (suc n) (bin b ∷ ts) = pending n ts
pending (suc n) (uint v ∷ ts) = pending n ts
pending (suc n) (map_head k ∷ ts) = pending (2 * k + n) ts
pending (suc n) (array_head k ∷ ts) = pending (k + n) ts
