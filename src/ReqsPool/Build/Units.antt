-- ===== src/ReqsPool/Build/Units.antt =====
-- The loop on mapping units of ftl/hlm_reqs_pool.c builds one low-level request.
use native.Mathlib.Nat.{
  div-eq_of_eq-mul_left, mul-le-mul_right, mul-lt-mul_of_pos_right, add-mul, suc-mul, mul_assoc,
}
use h4h.Base.{
  ℕ, zero, suc, ◌+◌, ◌-◌, ◌*◌, ◌/◌, ◌<◌, ◌≤◌, ◌≡◌, refl, ◌∙◌, Bool-cases, inl, inr, List, some,
  arith, get_elem?, get_elem?_of_lt, set, length, Returns, Returns-bind, leb, if◌then◌else◌,
}
use h4h.Request.{KernelPage, BlkioReq, nr_ksectors_in, nr_kpages_in}
use h4h.ReqsPool.{Pool}
use h4h.ReqsPool.Build.{Cursor, build_pages, build_units}
use h4h.ReqsPool.Build.Fill.{fill, get_elem?-fill, set-fill, IsRequest, Placed, build_pages-Placed}

abbrev pub number : ℕ → ℕ → ℕ
number u _ = u

abbrev pub least : ℕ → ℕ → ℕ
least a b = if leb a b then a else b

-- A mapping unit is a whole number of kernel pages.
pub record IsUnit (pool : Pool) : Type 0 where
  pub not_empty : 0 < nr_kpages_in pool.map_unit
  pub sectors : nr_ksectors_in pool.map_unit ≡ nr_kpages_in pool.map_unit * 8

long : (size j n k : ℕ) → (j + suc n) * size ≤ k → suc j * size ≤ k
long size j n k h =
    let le : suc j * size ≤ (j + suc n) * size = mul-le-mul_right size (omega arith) in
    omega (arith, le)

module _ (pool : Pool) (unit : IsUnit pool) (br : BlkioReq) (ok : IsRequest br) where
  unit_number :
      (u j : ℕ)
      → ((u * nr_kpages_in pool.map_unit + j * nr_kpages_in pool.map_unit) * 8)
          / nr_ksectors_in pool.map_unit
        ≡ u + j
  unit_number u j =
      let size = nr_kpages_in pool.map_unit in
      div-eq_of_eq-mul_left (omega (arith, unit.sectors, unit.not_empty))
        (rw (unit.sectors, ← mul_assoc (u + j) size 8, ← add-mul u j size) refl)

  at_end :
      (last u m : ℕ)
      → leb
          (last * nr_kpages_in pool.map_unit * 8)
          ((u * nr_kpages_in pool.map_unit + m * nr_kpages_in pool.map_unit) * 8)
        ≡ leb last (u + m)
  at_end last u m =
      let size = nr_kpages_in pool.map_unit in
      let sum : (u + m) * size ≡ u * size + m * size = add-mul u m size in
      elim (Bool-cases (leb last (u + m))) [
        | inl ends ↦
            let h : last ≤ u + m = ground arith in
            let le : last * size ≤ (u + m) * size = mul-le-mul_right size h in ground (arith, sum)
        | inr goes ↦
            let h : u + m < last = ground arith in
            let lt : (u + m) * size < last * size = mul-lt-mul_of_pos_right h unit.not_empty in
            ground (arith, sum)
      ]

  -- From round `j` on there are `n` rounds, unless the last unit comes first.
  pub build_units-Placed :
      (u last : ℕ) (fm : List KernelPage) (lpa : List ℕ) (n j : ℕ) (c : Cursor)
      → (0 < n → u + j < last)
      → (j + n) * nr_kpages_in pool.map_unit ≤ length fm
      → j + n ≤ length lpa
      → Placed br
          (u * nr_kpages_in pool.map_unit)
          fm
          (fill number u j lpa)
          (j * nr_kpages_in pool.map_unit)
          c
      → Returns
          (Placed br
            (u * nr_kpages_in pool.map_unit)
            fm
            (fill number u (j + least n (last - (u + j))) lpa)
            ((j + least n (last - (u + j))) * nr_kpages_in pool.map_unit))
          (build_units pool br (last * nr_kpages_in pool.map_unit * 8) n j c)
  unfolding build_units
  build_units-Placed u last fm lpa zero j c more long_fm long_lpa p =
      let none_left : j + least 0 (last - (u + j)) ≡ j = ground arith in rw none_left p
  build_units-Placed u last fm lpa (suc n) j c more long_fm long_lpa p =
      let size = nr_kpages_in pool.map_unit in
      let (old, e) = get_elem?_of_lt lpa j (omega arith) in
      let entry : get_elem? c.lpa j ≡ some old =
        rw p.same_lpa (get_elem?-fill number u j lpa j old e ∙ ground arith) in
      let value : c.sec_start / nr_ksectors_in pool.map_unit ≡ u + j =
        rw p.at_sector (unit_number u j) in
      let written : set c.lpa j (c.sec_start / nr_ksectors_in pool.map_unit)
          ≡ fill number u (suc j) lpa =
        rw (value, p.same_lpa) (set-fill number u j lpa old e) in
      let d = record c { lpa = set c.lpa j (c.sec_start / nr_ksectors_in pool.map_unit) } in
      let q : Placed br (u * size) fm (fill number u (suc j) lpa) (j * size) d = record {
        at_sector = p.at_sector;
        used = p.used;
        at_entry = p.at_entry;
        filled = p.filled;
        same_lpa = written;
        has_hole = p.has_hole;
      } in
      rw entry (
        Returns-bind (Placed br (u * size) fm (fill number u (suc j) lpa) (suc j * size)) _
          (build_pages br size d) _
          (build_pages-Placed br ok (u * size) fm (fill number u (suc j) lpa) size (j * size)
            (suc j * size) d (omega (arith, suc-mul j size)) (long size j n (length fm) long_fm) q)
          λ f _ r.
            let test : leb (last * size * 8) f.sec_start ≡ leb last (u + suc j) =
              rw r.at_sector (at_end last u (suc j)) in
            elim (Bool-cases (leb last (u + suc j))) [
              | inl ends ↦
                  let one : j + least (suc n) (last - (u + j)) ≡ suc j = ground arith in
                  rw (test, ends, one) r
              | inr goes ↦
                  let rest : j + least (suc n) (last - (u + j))
                      ≡ suc j + least n (last - (u + suc j)) =
                    ground arith in
                  let regroup : suc j + n ≡ j + suc n = omega arith in
                  rw (test, goes, rest)
                    (build_units-Placed u last fm lpa n (suc j) f (λ _. ground arith)
                      (rw regroup long_fm) (omega arith) r)
            ])
