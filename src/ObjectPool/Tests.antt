-- ===== src/ObjectPool/Tests.antt =====
-- A pool of objects of 30000 bytes, two to a block.
use xmap.Base.{ℕ, ◌+◌, ◌<◌, ◌≤◌, ◌⊎◌, some_injective, ◌≡◌, refl, some, [], ◌∷◌, inl, arith}
use xmap.ObjectPool.{object_mem_size, item_header_size, Pool, get, put}
use xmap.ObjectPool.Owners.{IsSound, HandsOut, count, remove, get-HandsOut, put-IsSound}

-- One object at 100 + 8 in use, one behind it free.
abbrev halved : Pool
halved = record {
  mm_list = 100 ∷ [];
  free_list = 30124 ∷ [];
  object_limits = 0;
  object_size = 30000;
  n_objects = 2;
  n_mms = 1;
  n_frees = 1;
  n_using = 1;
}

halved-IsSound : IsSound halved (108 ∷ [])
unfolding count
halved-IsSound = record {
  frees = refl;
  using = refl;
  objects = refl;
  once = λ x. ground arith;
  spaced = λ x y hx hy lt. ground (arith, hx, hy);
}

-- The same with both in use.
abbrev used_up : Pool
used_up = record halved { free_list = []; n_frees = 0; n_using = 2 }

used_up-IsSound : IsSound used_up (30124 ∷ 108 ∷ [])
unfolding count
used_up-IsSound = record {
  frees = refl;
  using = refl;
  objects = refl;
  once = λ x. ground arith;
  spaced = λ x y hx hy lt. ground (arith, hx, hy);
}

below :
    (addr x : ℕ)
    → some 70000 ≡ some addr
    → 0 < count x (30124 ∷ 108 ∷ [])
    → (x + (30000 + item_header_size) ≤ addr) ⊎ (addr + object_mem_size ≤ x)
unfolding count
below addr x e h = let at = some_injective 70000 addr e in inl (ground (arith, at, h))

get-HandsOut_example : HandsOut (30124 ∷ 108 ∷ []) (get (some 70000) used_up)
get-HandsOut_example =
    get-HandsOut (some 70000) used_up (30124 ∷ 108 ∷ []) (omega arith) (omega arith) below
      used_up-IsSound

held : 0 < count 108 (108 ∷ [])
unfolding count
held = omega arith

put-IsSound_example :
    let after = put halved (some (108 + 16)) in
    IsSound after (remove 108 (108 ∷ []))
    × (count 108 after.free_list ≡ 1)
    × (count 108 (remove 108 (108 ∷ [])) ≡ 0)
    × ((x : ℕ)
        → count x after.free_list + count x (remove 108 (108 ∷ []))
          ≡ count x halved.free_list + count x (108 ∷ []))
put-IsSound_example = put-IsSound halved (108 ∷ []) 108 (omega arith) held halved-IsSound
