-- ===== src/ReqsPool/Build/Shape.antt =====
-- The sizes that the requests of ftl/hlm_reqs_pool.c are built from, as divisions: a mapping unit of
-- 2^e kernel pages and an I/O unit of 2^g mapping units.
use native.Mathlib.Nat.{
  mul-div_cancel_left, one-le-pow, mul_comm, mul_assoc, add-mul, lt_of_mul-lt-mul_right,
  le_of_mul-le-mul_right, div-add-mod', mod-lt, pow-le-pow_right, mul-le-mul_right,
}
use h4h.Base.{ℕ, ◌+◌, ◌-◌, ◌*◌, ◌/◌, ◌^◌, ◌<◌, ◌≤◌, ◌≡◌, sym, ap, ◌∙◌, arith, length, add64}
use h4h.Request.{BlkioReq, nr_ksectors_in, nr_kpages_in}
use h4h.Request.Align.{two_pow_add, align_down-eq, align_up-eq}
use h4h.ReqsPool.{Pool}
use h4h.ReqsPool.Build.{pg_start, pg_end, write_start, write_end, write_count}
use h4h.ReqsPool.Build.Fill.{IsRequest}
use h4h.ReqsPool.Build.Units.{IsUnit}

pub record IsShape (pool : Pool) (e g : ℕ) : Type 0 where
  pub map_size : pool.map_unit ≡ 2 ^ (12 + e)
  pub io_size : pool.io_unit ≡ 2 ^ (12 + e + g)
  pub small : 12 + e + g < 60

-- A request of the host: some sectors below 2^62, and a vector for each kernel page that they touch
pub record IsHostReq (br : BlkioReq) : Type 0 where
  pub some_sector : 0 < br.bi_size
  pub in_range : br.bi_offset + br.bi_size ≤ 2 ^ 62
  pub each_page : br.bi_bvec_cnt ≡ (br.bi_offset + br.bi_size + 7) / 8 - br.bi_offset / 8
  pub vectors : br.bi_bvec_cnt ≤ length br.bi_bvec_ptr

-- The mapping unit of the first sector, and the first unit behind the last sector
abbrev pub first_unit : Pool → BlkioReq → ℕ
first_unit pool br = br.bi_offset / nr_ksectors_in pool.map_unit

abbrev pub last_unit : Pool → BlkioReq → ℕ
last_unit pool br =
    (br.bi_offset + br.bi_size + (nr_ksectors_in pool.map_unit - 1)) / nr_ksectors_in pool.map_unit

-- A number against the multiples below and above it
pub floor_bounds : (n u : ℕ) → 0 < u → (n / u * u ≤ n) × (n < n / u * u + u)
floor_bounds n u pos = let d = div-add-mod' n u in let r = mod-lt n pos in omega (arith, d, r)

pub ceil_bounds : (n u : ℕ) → 0 < u → (n ≤ (n + (u - 1)) / u * u) × ((n + (u - 1)) / u * u < n + u)
ceil_bounds n u pos =
    let d = div-add-mod' (n + (u - 1)) u in let r = mod-lt (n + (u - 1)) pos in omega (arith, d, r)

power_ratio : (a b : ℕ) → 2 ^ (a + b) / 2 ^ a ≡ 2 ^ b
power_ratio a b =
    rw (← two_pow_add a b) (mul-div_cancel_left (2 ^ b) (one-le-pow a 2 (omega arith)))

module _ (pool : Pool) (e g : ℕ) (shape : IsShape pool e g) where
  pub sectors-power : nr_ksectors_in pool.map_unit ≡ 2 ^ (3 + e)
  sectors-power =
      rw shape.map_size
        (ap (λ x. 2 ^ x / 512) {x = 12 + e} {y = 9 + (3 + e)} (omega arith) ∙ power_ratio 9 (3 + e))

  pub unit_small : 2 ^ (3 + e) ≤ 2 ^ 60
  unit_small = pow-le-pow_right (omega arith) {i = 3 + e} {j = 60} (omega (arith, shape.small))

module _ (br : BlkioReq) (host : IsHostReq br) where
  pub pg_start-eq : pg_start br ≡ br.bi_offset / 8
  unfolding pg_start
  pg_start-eq =
      rw (align_down-eq 3 br.bi_offset (omega arith) (omega (arith, host.in_range))) (omega arith)

  end-eq : add64 br.bi_offset br.bi_size ≡ br.bi_offset + br.bi_size
  end-eq = omega (arith, host.in_range)

  pub pg_end-eq : pg_end br ≡ (br.bi_offset + br.bi_size + 7) / 8
  unfolding pg_end
  pg_end-eq =
      rw
        (
          end-eq,
          align_up-eq 3 (br.bi_offset + br.bi_size) (omega arith) (omega (arith, host.in_range)),
        )
        (omega arith)

  pub host-IsRequest : IsRequest br
  host-IsRequest = record {
    some_page = rw (pg_start-eq, pg_end-eq) (omega (arith, host.some_sector));
    each_page = rw (pg_start-eq, pg_end-eq, host.each_page) (omega (arith, host.some_sector));
    vectors = host.vectors;
  }

  module _ (pool : Pool) (e g : ℕ) (shape : IsShape pool e g) where
    pub pages-eq : nr_kpages_in pool.map_unit ≡ 2 ^ e
    pages-eq = rw shape.map_size (power_ratio 12 e)

    pub rate-eq : pool.io_unit / pool.map_unit ≡ 2 ^ g
    rate-eq = rw (shape.map_size, shape.io_size) (power_ratio (12 + e) g)

    io_sectors-eq : nr_ksectors_in pool.io_unit ≡ 2 ^ (3 + e + g)
    io_sectors-eq = rw shape.io_size (
        ap (λ x. 2 ^ x / 512) {x = 12 + e + g} {y = 9 + (3 + e + g)} (omega arith)
        ∙ power_ratio 9 (3 + e + g))

    pub shape-IsUnit : IsUnit pool
    shape-IsUnit = record {
      not_empty = rw pages-eq (one-le-pow e 2 (omega arith));
      sectors =
          rw (sectors-power pool e g shape, pages-eq) (sym (two_pow_add 3 e) ∙ mul_comm 8 (2 ^ e));
    }

    in_sectors : (u : ℕ) → nr_ksectors_in pool.map_unit * u ≡ u * nr_kpages_in pool.map_unit * 8
    in_sectors u =
        let size = nr_kpages_in pool.map_unit in
        mul_comm (nr_ksectors_in pool.map_unit) u
        ∙ ap (λ x. u * x) (shape-IsUnit.sectors)
        ∙ sym (mul_assoc u size 8)

    pub write_start-eq : write_start pool br ≡ (first_unit pool br) * nr_kpages_in pool.map_unit * 8
    unfolding write_start
    write_start-eq =
        (rw (sectors-power pool e g shape) (
          align_down-eq (3 + e) br.bi_offset (omega (arith, shape.small))
            (omega (arith, host.in_range))))
        ∙ in_sectors (first_unit pool br)

    pub write_end-eq : write_end pool br ≡ (last_unit pool br) * nr_kpages_in pool.map_unit * 8
    unfolding write_end
    write_end-eq =
        (rw (end-eq, sectors-power pool e g shape)
          (align_up-eq (3 + e) (br.bi_offset + br.bi_size) (omega (arith, shape.small))
            (omega (arith, host.in_range, unit_small pool e g shape))))
        ∙ in_sectors (last_unit pool br)

    some_sectors : 0 < nr_ksectors_in pool.map_unit
    some_sectors = rw (sectors-power pool e g shape) (one-le-pow (3 + e) 2 (omega arith))

    by_unit : (u : ℕ) → u * nr_ksectors_in pool.map_unit ≡ u * nr_kpages_in pool.map_unit * 8
    by_unit u = mul_comm u (nr_ksectors_in pool.map_unit) ∙ in_sectors u

    first_bounds : (first_unit pool br) * nr_ksectors_in pool.map_unit ≤ br.bi_offset
    first_bounds = (floor_bounds br.bi_offset (nr_ksectors_in pool.map_unit) some_sectors).0

    last_bounds :
        (br.bi_offset + br.bi_size ≤ (last_unit pool br) * nr_ksectors_in pool.map_unit)
        × ((last_unit pool br) * nr_ksectors_in pool.map_unit
            < br.bi_offset + br.bi_size + nr_ksectors_in pool.map_unit)
    last_bounds =
        ceil_bounds (br.bi_offset + br.bi_size) (nr_ksectors_in pool.map_unit) some_sectors

    pub pages_within : pg_end br ≤ (last_unit pool br) * nr_kpages_in pool.map_unit
    pages_within = rw pg_end-eq (omega (arith, last_bounds, by_unit (last_unit pool br)))

    pub pages_from : (first_unit pool br) * nr_kpages_in pool.map_unit ≤ pg_start br
    pages_from = rw pg_start-eq (omega (arith, first_bounds, by_unit (first_unit pool br)))

    pub units_order : (first_unit pool br) < (last_unit pool br)
    units_order =
        lt_of_mul-lt-mul_right (nr_ksectors_in pool.map_unit)
          (omega (arith, first_bounds, last_bounds, host.some_sector))

    -- The sectors that a write expands to, and those of an I/O unit
    abbrev span : ℕ
    span = ((last_unit pool br) - (first_unit pool br)) * nr_ksectors_in pool.map_unit

    io_in_units :
        nr_ksectors_in pool.io_unit ≡ pool.io_unit / pool.map_unit * nr_ksectors_in pool.map_unit
    io_in_units =
        rw (io_sectors-eq, rate-eq, sectors-power pool e g shape)
          (sym (two_pow_add (3 + e) g) ∙ mul_comm (2 ^ (3 + e)) (2 ^ g))

    write_count-eq :
        write_count pool br
        ≡ (span + (nr_ksectors_in pool.io_unit - 1)) / nr_ksectors_in pool.io_unit
    unfolding write_count
    write_count-eq =
        let size = nr_kpages_in pool.map_unit in
        let whole : (last_unit pool br) - (first_unit pool br) + (first_unit pool br)
            ≡ (last_unit pool br) =
          omega (arith, units_order) in
        let cut : write_end pool br - write_start pool br ≡ span =
          rw (write_end-eq, write_start-eq)
            (omega (
              arith,
              by_unit (first_unit pool br),
              by_unit (last_unit pool br),
              add-mul ((last_unit pool br) - (first_unit pool br)) (first_unit pool br)
                  (nr_ksectors_in pool.map_unit),
              ap (λ x. x * nr_ksectors_in pool.map_unit) whole,
            )) in
        let power : nr_ksectors_in pool.io_unit ≡ 2 ^ (3 + e + g) = io_sectors-eq in
        let small : 2 ^ (3 + e + g) ≤ 2 ^ 60 =
          pow-le-pow_right (omega arith) {i = 3 + e + g} {j = 60} (omega (arith, shape.small)) in
        let top : nr_ksectors_in pool.map_unit ≤ 2 ^ 60 =
          rw (sectors-power pool e g shape) (unit_small pool e g shape) in
        let shorter : span ≤ (last_unit pool br) * nr_ksectors_in pool.map_unit =
          mul-le-mul_right (nr_ksectors_in pool.map_unit) (omega arith) in
        let low : span ≤ 2 ^ 63 = omega (arith, last_bounds, host.in_range, top, shorter) in
        rw
          (
            cut,
            power,
            align_up-eq (3 + e + g) span (omega (arith, shape.small)) (omega (arith, low, small)),
          )
          (mul-div_cancel_left _ (one-le-pow (3 + e + g) 2 (omega arith)))

    count_bounds :
        ((last_unit pool br) - (first_unit pool br)
          ≤ write_count pool br * (pool.io_unit / pool.map_unit))
        × (write_count pool br * (pool.io_unit / pool.map_unit)
            < (last_unit pool br) - (first_unit pool br) + pool.io_unit / pool.map_unit)
    count_bounds =
        let unit = nr_ksectors_in pool.map_unit in
        let rate = pool.io_unit / pool.map_unit in
        let some_io : 0 < nr_ksectors_in pool.io_unit =
          rw io_sectors-eq (one-le-pow (3 + e + g) 2 (omega arith)) in
        let b =
          rw (← write_count-eq, io_in_units, ← mul_assoc (write_count pool br) rate unit) at
            (ceil_bounds span (nr_ksectors_in pool.io_unit) some_io) in
        (
          le_of_mul-le-mul_right b.0 some_sectors,
          lt_of_mul-lt-mul_right unit
              (rw (add-mul ((last_unit pool br) - (first_unit pool br)) rate unit) b.1),
        )

    pub write_count-ge :
        (last_unit pool br)
        ≤ (first_unit pool br) + write_count pool br * (pool.io_unit / pool.map_unit)
    write_count-ge = omega (arith, count_bounds, units_order)

    pub write_count-lt :
        (first_unit pool br) + write_count pool br * (pool.io_unit / pool.map_unit)
        < (last_unit pool br) + pool.io_unit / pool.map_unit
    write_count-lt = omega (arith, count_bounds, units_order)
