-- ===== src/ReqsPool/Lend.antt =====
-- The pool of ftl/hlm_reqs_pool.c lends each request to one user at a time and loses none.
use native.Mathlib.Nat.{mod-eq_of_lt}
use h4h.Base.{
  ℕ, zero, suc, ◌+◌, ◌<◌, ◌≤◌, ◌≡◌, ◌%◌, ◌^◌, refl, sym, ap, subst, ◌∙◌, false, not, ◌&&◌, ◌⊎◌,
  Returns, List, [], ◌∷◌, ◌++◌, Option, none, some, arith, ◌==◌, ltb, if◌then◌else◌, erase, length,
  length-append, count, count-append, count-erase, tally,
}
use h4h.Params.{kernel_page_size}
use h4h.ReqsPool.{
  Pool, default_pool_size, default_pool_inc_size, add_items, pool_create, lend_first, get_item,
  free_item,
}

length-erase : (i : ℕ) (xs : List ℕ) → length (erase i xs) + count i xs ≡ length xs
length-erase i [] = omega arith
length-erase i (x ∷ xs) = ground (arith, length-erase i xs)

-- Every allocated request is in one of the two lists, once.
pub record IsPool (pool : Pool) : Type 0 where
  pub each_once :
      (i : ℕ) → count i pool.used_list + count i pool.free_list ≡ tally (ltb i pool.allocated)

-- The size counts the requests.
abbrev pub IsSize : Pool → Type 0
IsSize pool = length pool.used_list + length pool.free_list ≡ pool.pool_size

add_items-IsPool : (n : ℕ) (pool : Pool) → IsPool pool → IsPool (add_items n pool)
unfolding add_items
add_items-IsPool zero pool ok = ok
add_items-IsPool (suc n) pool ok = add_items-IsPool n _ (record {
  each_once = λ i.
      let a = count-append i pool.free_list (pool.allocated ∷ []) in
      let b = ok.each_once i in ground arith;
})

-- What `n` new requests change
record Grown (n : ℕ) (pool pool' : Pool) : Type 0 where
  used_same : pool'.used_list ≡ pool.used_list
  free_longer : length pool'.free_list ≡ length pool.free_list + n
  size_same : pool'.pool_size ≡ pool.pool_size

add_items-Grown : (n : ℕ) (pool : Pool) → Grown n pool (add_items n pool)
unfolding add_items
add_items-Grown zero pool = record { used_same = refl; free_longer = omega arith; size_same = refl }
add_items-Grown (suc n) pool =
    let g = add_items-Grown n (record pool {
      free_list = pool.free_list ++ (pool.allocated ∷ []);
      allocated = suc pool.allocated;
    }) in
    record {
      used_same = g.used_same;
      free_longer =
          omega (arith, g.free_longer, length-append pool.free_list (pool.allocated ∷ []));
      size_same = g.size_same;
    }

-- h4h_hlm_reqs_pool_create with a mapping unit that is the I/O unit, or smaller and one kernel page, and
-- enough memory returns a pool of 128 requests, all of them free, each once.
pub pool_create-IsPool :
    (allocs mapping_unit_size io_unit_size : ℕ)
    → mapping_unit_size ≤ io_unit_size
    → (mapping_unit_size ≡ io_unit_size) ⊎ (mapping_unit_size ≡ kernel_page_size)
    → 128 ≤ allocs
    → Returns
        (λ pool. IsPool pool × IsSize pool × (pool.used_list ≡ []) × (pool.pool_size ≡ 128))
        (pool_create allocs mapping_unit_size io_unit_size)
unfolding pool_create
pool_create-IsPool allocs m io le unit enough =
    let start : Pool = record {
      used_list = [];
      free_list = [];
      pool_size = default_pool_size;
      map_unit = m;
      io_unit = io;
      in_place_rmw = ltb kernel_page_size io && m == io;
      allocated = 0;
    } in
    let g = add_items-Grown default_pool_size start in
    let a : ltb io m ≡ false = ground arith in
    let b : (ltb m io && not (m == kernel_page_size)) ≡ false = ground arith in
    let c : ltb allocs default_pool_size ≡ false = ground arith in
    rw (a, b, c)
      (
        add_items-IsPool default_pool_size start (record { each_once = λ i. ground arith }),
        (rw (g.used_same, g.size_same) (omega (arith, g.free_longer))),
        g.used_same,
        g.size_same,
      )

-- A request is lent that nobody had.
pub record Lent (pool : Pool) (r : Pool × Option ℕ) : Type 0 where
  pub item : ℕ
  pub is_item : r.1 ≡ some item
  pub was_unused : count item pool.used_list ≡ 0
  pub used_now : r.0.used_list ≡ pool.used_list ++ (item ∷ [])
  pub lent_pool : IsPool r.0
  pub lent_size : IsSize r.0

module _ (pool : Pool) (ok : IsPool pool) (sized : IsSize pool) where
  lend_first-eq :
      (i : ℕ) (rest : List ℕ)
      → pool.free_list ≡ i ∷ rest
      → lend_first pool
        ≡ (record pool { free_list = rest; used_list = pool.used_list ++ (i ∷ []) }, some i)
  unfolding lend_first
  lend_first-eq i rest e =
      subst
        (λ (xs : List ℕ).
          ◌≡◌ {A = Pool × Option ℕ}
            (elim xs [
              | [] ↦ (pool, none)
              | j ∷ js ↦
                  (record pool { free_list = js; used_list = pool.used_list ++ (j ∷ []) }, some j)
            ])
            (record pool { free_list = rest; used_list = pool.used_list ++ (i ∷ []) }, some i))
        (sym e) refl

  lend_first-Lent :
      (i : ℕ) (rest : List ℕ) → pool.free_list ≡ i ∷ rest → Lent pool (lend_first pool)
  lend_first-Lent i rest e =
      let here : 0 < count i pool.free_list = rw e (ground arith) in
      subst (Lent pool) (sym (lend_first-eq i rest e)) (record {
        item = i;
        is_item = refl;
        was_unused = let b = ok.each_once i in ground arith;
        used_now = refl;
        lent_pool = record {
          each_once = λ j.
              let a = count-append j pool.used_list (i ∷ []) in
              let b =
                subst
                  (λ (xs : List ℕ).
                    count j pool.used_list + count j xs ≡ tally (ltb j pool.allocated))
                  e (ok.each_once j) in
              ground arith;
        };
        lent_size =
            let b =
              subst (λ (xs : List ℕ). length pool.used_list + length xs ≡ pool.pool_size) e sized in
            omega (arith, length-append pool.used_list (i ∷ []));
      })

  -- h4h_hlm_reqs_pool_free_item of a request that is lent: it is free again, every request is still in
  -- one list, and the size still counts them.
  pub free_item-IsPool :
      (i : ℕ)
      → 0 < count i pool.used_list
      → IsPool (free_item i pool)
        × IsSize (free_item i pool)
        × (count i (free_item i pool).used_list ≡ 0)
  unfolding free_item
  free_item-IsPool i lent =
      let unfree : count i pool.free_list ≡ 0 = let b = ok.each_once i in ground arith in
      (
        record {
          each_once = λ j.
              let a = count-append j (erase i pool.free_list) (i ∷ []) in
              let b = count-erase j i pool.free_list in
              let c = count-erase j i pool.used_list in let d = ok.each_once j in ground arith;
        },
        (let d = ok.each_once i in
            let a = length-append (erase i pool.free_list) (i ∷ []) in
            let b = length-erase i pool.free_list in
            let c = length-erase i pool.used_list in ground arith),
        (let c = count-erase i i pool.used_list in ground arith),
      )

first_rest : (xs : List ℕ) → 0 < length xs → (i : ℕ) × (rest : List ℕ) × (xs ≡ i ∷ rest)
first_rest [] h = absurd (omega arith)
first_rest (x ∷ xs) h = (x, xs, refl)

grown_Lent :
    (pool : Pool)
    → IsPool pool
    → IsSize pool
    → pool.pool_size + 25 < 2 ^ 32
    → Lent pool (
        lend_first (record (add_items default_pool_inc_size pool) {
          pool_size = (pool.pool_size + default_pool_inc_size) % 2 ^ 32;
        }))
grown_Lent pool ok sized small =
    let q = record (add_items default_pool_inc_size pool) {
      pool_size = (pool.pool_size + default_pool_inc_size) % 2 ^ 32;
    } in
    let g = add_items-Grown default_pool_inc_size pool in
    let exact = mod-eq_of_lt {n = pool.pool_size + 25} {m = 2 ^ 32} (omega arith) in
    let used = ap length g.used_same in
    let (i, rest, e) = first_rest q.free_list (omega (arith, g.free_longer)) in
    let l =
      lend_first-Lent q
        (record { each_once = (add_items-IsPool default_pool_inc_size pool ok).each_once })
        (omega (arith, used, g.free_longer, exact, sized)) i rest e in
    record {
      item = l.item;
      is_item = l.is_item;
      was_unused = ap (count l.item) (sym g.used_same) ∙ l.was_unused;
      used_now = l.used_now ∙ ap (λ (xs : List ℕ). xs ++ (l.item ∷ [])) g.used_same;
      lent_pool = l.lent_pool;
      lent_size = l.lent_size;
    }

-- h4h_hlm_reqs_pool_get_item, when 25 more requests can be allocated and the size stays below 2^32,
-- returns a request that was not lent, puts it in the used list, and keeps every request in one list
-- and the size the number of them, also where the pool has to grow.
pub get_item-Lent :
    (allocs : ℕ) (pool : Pool)
    → IsPool pool
    → IsSize pool
    → 25 ≤ allocs
    → pool.pool_size + 25 < 2 ^ 32
    → Lent pool (get_item allocs pool)
unfolding get_item
get_item-Lent allocs pool ok sized enough small = go pool.free_list refl
  where
    go :
        (xs : List ℕ)
        → pool.free_list ≡ xs
        → Lent pool (elim xs [
          | i ∷ rest ↦ lend_first pool
          | [] ↦
              if ltb allocs default_pool_inc_size
              then (add_items allocs pool, none)
              else lend_first (record (add_items default_pool_inc_size pool) {
                pool_size = (pool.pool_size + default_pool_inc_size) % 2 ^ 32;
              })
        ])
    go (i ∷ rest) e = lend_first-Lent pool ok sized i rest e
    go [] e =
        let mem : ltb allocs default_pool_inc_size ≡ false = ground arith in
        rw mem (grown_Lent pool ok sized small)
