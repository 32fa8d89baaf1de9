-- ===== src/ReqsPool.antt =====
-- ftl/hlm_reqs_pool.h and the pool of ftl/hlm_reqs_pool.c: how requests are lent and given back.
-- A pointer to a request is its number in the order of allocation. A lock makes each
-- call one step. Build, Compact and Pages model the functions that fill requests.
pub mod Lend
pub mod Pages
pub mod Build
pub mod Compact
use h4h.Base.{
  ℕ, zero, suc, ◌+◌, ◌%◌, ◌^◌, Bool, true, false, ◌&&◌, not, List, [], ◌∷◌, ◌++◌, Option, none,
  some, ◌==◌, ltb, if◌then◌else◌, erase,
}
use h4h.Params.{kernel_page_size}

abbrev pub default_pool_size : ℕ
default_pool_size = 128

-- DEFAULT_POOL_INC_SIZE, which is 128 / 5
abbrev pub default_pool_inc_size : ℕ
default_pool_inc_size = 25

-- h4h_hlm_reqs_pool_t; `allocated` counts the requests that were ever allocated for the pool.
pub record Pool : Type 0 where
  pub used_list : List ℕ
  pub free_list : List ℕ
  pub pool_size : ℕ
  pub map_unit : ℕ
  pub io_unit : ℕ
  pub in_place_rmw : Bool
  pub allocated : ℕ

-- The loops that allocate `n` requests and put each at the tail of the free list
unfoldable pub add_items : ℕ → Pool → Pool
add_items zero pool = pool
add_items (suc n) pool = add_items n (record pool {
  free_list = pool.free_list ++ (pool.allocated ∷ []);
  allocated = suc pool.allocated;
})

-- h4h_hlm_reqs_pool_create; `allocs` is how many requests can be allocated, `none` is NULL.
unfoldable pub pool_create : ℕ → ℕ → ℕ → Option Pool
pool_create allocs mapping_unit_size io_unit_size =
    if ltb io_unit_size mapping_unit_size
    then none
    else if ltb mapping_unit_size io_unit_size && not (mapping_unit_size == kernel_page_size)
    then none
    else if ltb allocs default_pool_size
    then none
    else some (
        add_items default_pool_size (record {
          used_list = [];
          free_list = [];
          pool_size = default_pool_size;
          map_unit = mapping_unit_size;
          io_unit = io_unit_size;
          in_place_rmw = ltb kernel_page_size io_unit_size && mapping_unit_size == io_unit_size;
          allocated = 0;
        }))

-- The first free request goes to the tail of the used list.
unfoldable pub lend_first : Pool → Pool × Option ℕ
lend_first pool = elim pool.free_list [
  | [] ↦ (pool, none)
  | i ∷ rest ↦ (record pool { free_list = rest; used_list = pool.used_list ++ (i ∷ []) }, some i)
]

-- h4h_hlm_reqs_pool_get_item; where the pool grows, `allocs` is how many requests can be allocated.
unfoldable pub get_item : ℕ → Pool → Pool × Option ℕ
unfolding lend_first
get_item allocs pool = elim pool.free_list [
  | i ∷ rest ↦ lend_first pool
  | [] ↦
      if ltb allocs default_pool_inc_size
      then (add_items allocs pool, none)
      else lend_first (record (add_items default_pool_inc_size pool) {
        pool_size = (pool.pool_size + default_pool_inc_size) % 2 ^ 32;
      })
]

-- h4h_hlm_reqs_pool_free_item: from whichever list holds the request to the tail of the free list
unfoldable pub free_item : ℕ → Pool → Pool
free_item i pool = record pool {
  used_list = erase i pool.used_list;
  free_list = erase i pool.free_list ++ (i ∷ []);
}
