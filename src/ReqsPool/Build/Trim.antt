-- ===== src/ReqsPool/Build/Trim.antt =====
-- __hlm_reqs_pool_create_trim_req of ftl/hlm_reqs_pool.c trims whole mapping units only.
use native.Mathlib.Nat.{
  mul-div_cancel_left, one-le-pow, mul-le-mul_right, mul-le-mul_left, mul-lt-mul_of_pos_left,
  suc-mul, mul-sub, lt_of_mul-lt-mul_right,
}
use h4h.Base.{
  ℕ, suc, ◌+◌, ◌-◌, ◌*◌, ◌/◌, ◌^◌, ◌<◌, ◌≤◌, ◌≡◌, ◌↔◌, false, Bool-cases, inl, inr, arith, ltb,
  add64, lt→ltb,
}
use h4h.Request.{BlkioReq, HlmReq, trim_lpa, trim_len, nr_ksectors_in, align_up, align_down}
use h4h.Request.Align.{align_down-eq, align_up-eq}
use h4h.ReqsPool.{Pool}
use h4h.ReqsPool.Build.{create_trim_req}
use h4h.ReqsPool.Build.Shape.{IsShape, floor_bounds, ceil_bounds, sectors-power, unit_small}

module _ (pool : Pool) (e g : ℕ) (shape : IsShape pool e g) (br : BlkioReq)
    (in_range : br.bi_offset + br.bi_size ≤ 2 ^ 62) where
  abbrev unit : ℕ
  unit = nr_ksectors_in pool.map_unit

  abbrev first : ℕ
  first = (br.bi_offset + (unit - 1)) / unit

  abbrev behind : ℕ
  behind = (br.bi_offset + br.bi_size) / unit

  some_unit : 0 < unit
  some_unit = rw (sectors-power pool e g shape) (one-le-pow (3 + e) 2 (omega arith))

  start-eq : align_up br.bi_offset unit ≡ unit * first
  start-eq = rw (sectors-power pool e g shape) (
      align_up-eq (3 + e) br.bi_offset (omega (arith, shape.small))
        (omega (arith, in_range, unit_small pool e g shape)))

  end-eq : align_down (add64 br.bi_offset br.bi_size) unit ≡ unit * behind
  end-eq =
      let exact : add64 br.bi_offset br.bi_size ≡ br.bi_offset + br.bi_size =
        omega (arith, in_range) in
      rw (exact, sectors-power pool e g shape)
        (align_down-eq (3 + e) (br.bi_offset + br.bi_size) (omega (arith, shape.small))
          (omega (arith, in_range)))

  trim_range :
      (hr : HlmReq)
      → (trim_lpa (create_trim_req pool br hr) ≡ first)
        × (trim_len (create_trim_req pool br hr) ≡ behind - first)
  unfolding create_trim_req
  trim_range hr =
      rw (start-eq, end-eq)
        (
          mul-div_cancel_left first some_unit,
          elim (Bool-cases (ltb first behind)) [
            | inl some_left ↦
                let lt : unit * first < unit * behind =
                  mul-lt-mul_of_pos_left (ground arith) some_unit in
                rw (lt→ltb _ _ lt, ← mul-sub unit behind first)
                  (mul-div_cancel_left (behind - first) some_unit)
            | inr none_left ↦
                let le : unit * behind ≤ unit * first = mul-le-mul_left unit (ground arith) in
                let test : ltb (unit * first) (unit * behind) ≡ false = ground arith in
                rw test (ground arith)
          ],
        )

  -- A range that ends within `n` mapping units
  pub trim_fits :
      (hr : HlmReq) (n : ℕ)
      → br.bi_offset + br.bi_size ≤ n * unit
      → trim_lpa (create_trim_req pool br hr) + trim_len (create_trim_req pool br hr) ≤ n
  trim_fits hr n fits =
      let r = trim_range hr in
      let c = ceil_bounds br.bi_offset unit some_unit in
      let d = floor_bounds (br.bi_offset + br.bi_size) unit some_unit in
      let one_more = suc-mul n unit in
      let a : first < suc n = lt_of_mul-lt-mul_right unit (omega (arith, fits, c, one_more)) in
      let b : behind < suc n =
        lt_of_mul-lt-mul_right unit (omega (arith, fits, d, one_more, some_unit)) in
      rw (r.0, r.1) (omega (arith, a, b))

  -- __hlm_reqs_pool_create_trim_req in a pool whose mapping unit is 2^e kernel pages, for a range that
  -- ends at sector 2^62 at most: mapping unit `u` is one of the `len` units from `lpa` on if and only if
  -- all of its sectors lie in the range.
  pub create_trim_req-within :
      (hr : HlmReq) (u : ℕ)
      → ((trim_lpa (create_trim_req pool br hr) ≤ u)
          × (u < trim_lpa (create_trim_req pool br hr) + trim_len (create_trim_req pool br hr)))
        ↔ ((br.bi_offset ≤ u * unit) × (suc u * unit ≤ br.bi_offset + br.bi_size))
  create_trim_req-within hr u =
      let r = trim_range hr in
      let c = ceil_bounds br.bi_offset unit some_unit in
      let d = floor_bounds (br.bi_offset + br.bi_size) unit some_unit in
      rw (r.0, r.1)
        (
          (λ h.
              let a : first * unit ≤ u * unit = mul-le-mul_right unit h.0 in
              let b : suc u * unit ≤ behind * unit = mul-le-mul_right unit (omega (arith, h)) in
              (omega (arith, a, c), omega (arith, b, d))),
          (λ h.
              let a : first < suc u =
                lt_of_mul-lt-mul_right unit (omega (arith, h, c, suc-mul u unit)) in
              let b : suc u < suc behind =
                lt_of_mul-lt-mul_right unit (omega (arith, h, d, suc-mul behind unit)) in
              (omega (arith, a), omega (arith, a, b))),
        )
