-- ===== src/ObjectPool.antt =====
-- lib/common/xm_object_pool.c: objects of one size, carved out of blocks of memory. An item is its
-- address, and the free list the addresses in their order; what malloc returns is an argument. The
-- first entry of an empty list is a pointer into the pool itself.
pub mod Owners
mod Tests
use xmap.Base.{
  ℕ, zero, suc, ◌+◌, ◌-◌, ◌*◌, ◌%◌, ◌^◌, Bool, true, false, ◌&&◌, ltb, leb, ◌==◌, if◌then◌else◌,
  Option, none, some, List, [], ◌∷◌, ◌++◌,
}

-- `struct xm_object_pool_t`
pub record Pool : Type 0 where
  pub mm_list : List ℕ
  pub free_list : List ℕ
  pub object_limits : ℕ
  pub object_size : ℕ
  pub n_objects : ℕ
  pub n_mms : ℕ
  pub n_frees : ℕ
  pub n_using : ℕ

-- `OBJECT_MEM_SIZE`, and the sizes of the two headers
abbrev pub object_mem_size : ℕ
object_mem_size = 64 * 1024

abbrev pub mem_header_size : ℕ
mem_header_size = 8

abbrev pub item_header_size : ℕ
item_header_size = 16

-- An item behind the others of the free list.
abbrev pub add_item : Pool → ℕ → Pool
add_item omp item = record omp {
  free_list = omp.free_list ++ (item ∷ []);
  n_frees = (omp.n_frees + 1) % 2 ^ 64;
  n_objects = (omp.n_objects + 1) % 2 ^ 64;
}

-- The loop of `_new_memory`; a turn takes more than 16 bytes, so that as many turns as the block has
-- bytes are enough.
unfoldable pub carve : ℕ → ℕ → ℕ → Pool → Pool
carve zero pos end omp = omp
carve (suc fuel) pos end omp =
    let r_item_size = omp.object_size + item_header_size in
    let rest = carve fuel (pos + r_item_size) end (add_item omp pos) in
    if ltb (pos + r_item_size) end then rest else omp

-- `_new_memory`, with what malloc returns: whether it succeeds, and the pool after it.
unfoldable pub new_memory : Option ℕ → Pool → Bool × Pool
new_memory none omp = (false, omp)
new_memory (some addr) omp =
    let carved = carve object_mem_size (addr + mem_header_size) (addr + object_mem_size) omp in
    (true, record carved { mm_list = addr ∷ carved.mm_list; n_mms = (carved.n_mms + 1) % 2 ^ 64 })

-- `xm_object_pool_create`; none is a null pointer.
unfoldable pub create : ℕ → ℕ → Option Pool
create object_limits object_size =
    if leb object_mem_size object_size
    then none
    else some (record {
      mm_list = [];
      free_list = [];
      object_limits = object_limits;
      object_size = object_size;
      n_objects = 0;
      n_mms = 0;
      n_frees = 0;
      n_using = 0;
    })

-- What a call hands out: nothing, an object, or what stands behind the head of an empty list.
pub data Got : Type 0 where
  null : Got
  object : ℕ → Got
  no_object : Got

-- The end of `xm_object_pool_get`, from the first entry of the free list on.
unfoldable pub take_first : Pool → Got × Pool
take_first omp =
    let counted = record omp {
      n_frees = (omp.n_frees + 2 ^ 64 - 1) % 2 ^ 64;
      n_using = (omp.n_using + 1) % 2 ^ 64;
    } in
    elim omp.free_list [
      | [] ↦ (no_object, counted)
      | item ∷ items ↦ (object (item + item_header_size), record counted { free_list = items })
    ]

-- `xm_object_pool_get`
unfoldable pub get : Option ℕ → Pool → Got × Pool
get malloc omp = elim omp.free_list [
  | [] ↦
      if ltb 0 omp.object_limits && ltb omp.object_limits omp.n_objects
      then (null, omp)
      else (let (ok, grown) = new_memory malloc omp in
          if ok then take_first grown else (null, grown))
  | item ∷ items ↦ take_first omp
]

-- `xm_object_pool_put` of an object; of a null pointer nothing is put.
unfoldable pub put : Pool → Option ℕ → Pool
put omp none = omp
put omp (some obj) = record omp {
  free_list = omp.free_list ++ ((obj - item_header_size) ∷ []);
  n_frees = (omp.n_frees + 1) % 2 ^ 64;
  n_using = (omp.n_using + 2 ^ 64 - 1) % 2 ^ 64;
}
