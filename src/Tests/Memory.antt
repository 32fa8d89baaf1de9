-- ===== src/Tests/Memory.antt =====
-- ftl/hlm_nobuf.c at concrete inputs: on the device of Device.antt, after logical page 3 is written.
use h4h.Base.{
  ℕ, zero, suc, ◌+◌, ◌≡◌, refl, subst, true, false, [], ◌∷◌, Option, none, some, arith, get_elem?,
  Every, Returns, some-inj, none-ne-some, ◌>>=◌,
}
use h4h.PageFtl.{PhyAddr, PageFtl}
use h4h.PageFtl.Ops.{map_loop, map_subpage, map_lpa_to_ppa, is_gc_needed}
use h4h.PageFtl.State.{IsFtl}
use h4h.Request.{reqtype_write, reqtype_read, reqtype_trim, kp_stt_data, LlmReq, BlkioReq, HlmReq}
use h4h.ReqsPool.{Pool}
use h4h.ReqsPool.Build.{build_req}
use h4h.FtlInf.{LlmInf, ftl_page_ftl}
use h4h.HlmNobuf.{mapping_policy_page, nobuf_make_req, make_rw_req, check_ondemand_gc}
use h4h.HlmNobuf.Trim.{HostTrimmed, trim-HostTrimmed}
use h4h.HlmNobuf.Done.{Finished, end_blkio_reqs, end_blkio_reqs-Finished}
use h4h.HlmNobuf.Collect.{Cleaned, check_ondemand_gc-Cleaned}
use h4h.HlmNobuf.Reads.{IsReadReq, ReadsSent, make_rw_req-ReadsSent}
use h4h.HlmNobuf.Send.{Accepts}
use h4h.HlmNobuf.Writes.{IsWriteReq, WritesSent, make_rw_req-WritesSent}
use h4h.Tests.Device.{created, start, two_channels}
use h4h.Tests.Ftl.{written, written-IsFtl}

written_np : written.0.np ≡ two_channels
unfolding written start created map_lpa_to_ppa map_loop map_subpage
written_np = refl

abbrev one_page : Pool
one_page = record {
  used_list = [];
  free_list = 0 ∷ [];
  pool_size = 1;
  map_unit = 4096;
  io_unit = 4096;
  in_place_rmw = false;
  allocated = 1;
}

-- The sectors of logical page 3, and of half the page before it
abbrev trim_3 : BlkioReq
trim_3 = record {
  bi_rw = reqtype_trim;
  bi_offset = 20;
  bi_size = 12;
  bi_bvec_cnt = 0;
  bi_bvec_ptr = [];
}

abbrev pub page_0 : PhyAddr
page_0 = record { punit_id = 0; channel_no = 0; chip_no = 0; block_no = 0; page_no = 0 }

abbrev pub read_of : ℕ → LlmReq
read_of lpa = record {
  req_type = reqtype_read;
  is_done = false;
  logaddr = record { lpa = lpa ∷ []; ofs = 0 };
  phyaddr = page_0;
  phyaddr_src = page_0;
  phyaddr_dst = page_0;
  fmain = record { kp_stt = kp_stt_data; kp_ptr = some 7; kp_pad = none } ∷ [];
  foob = 0 ∷ [];
}

-- Reads of a page with data and of one without
abbrev two_reads : HlmReq
two_reads = record {
  req_type = reqtype_read;
  nr_llm_reqs = 2;
  nr_llm_reqs_done = 0;
  llm_reqs = read_of 3 ∷ read_of 5 ∷ [];
  blkio_req = none;
  ret = 0;
}

-- A host and a low-level manager that count their calls
abbrev count_done : HlmReq → ℕ → ℕ
count_done hr s = suc s

abbrev counting : LlmInf ℕ
counting = record { make_req = λ lr m. some (suc m, 0); make_reqs = none }

counting-Accepts : Accepts counting
counting-Accepts = record { takes = λ lr m. refl; takes_all = λ f e. absurd (none-ne-some e) }

-- A collector that finds nothing to do
abbrev no_garbage : PageFtl → Option (PageFtl × ℕ)
no_garbage p = some (p, 0)

trim-HostTrimmed_example : Returns (HostTrimmed count_done one_page trim_3 written.0 0 0) (
    build_req (λ i f. 1000 + i) one_page trim_3 two_reads >>= λ b.
    nobuf_make_req
      (ftl_page_ftl no_garbage)
      counting
      count_done
      written.0.np
      mapping_policy_page
      b.0
      written.0
      0
      0)
trim-HostTrimmed_example =
    trim-HostTrimmed counting count_done no_garbage (λ i f. 1000 + i) mapping_policy_page one_page 0
      0 trim_3 two_reads written.0 0 0
      (record { map_size = refl; io_size = refl; small = omega arith }) refl (omega arith)
      (rw written_np (omega arith)) written-IsFtl

end_blkio_reqs-Finished_example :
    Returns
      (Finished count_done two_reads 0 (1 ∷ 0 ∷ []) 2)
      (end_blkio_reqs count_done (1 ∷ 0 ∷ []) two_reads 0)
end_blkio_reqs-Finished_example =
    end_blkio_reqs-Finished count_done (1 ∷ 0 ∷ []) two_reads 0 (omega arith, (omega arith, tt))
      (omega arith) (omega arith)

check_ondemand_gc-Cleaned_example :
    Returns
      (λ g.
        IsFtl g
        × (true ≡ true → Cleaned (ftl_page_ftl no_garbage) (λ _ p. is_gc_needed p) 10 written.0 g)
        × (true ≡ false → g ≡ written.0))
      (check_ondemand_gc
        (ftl_page_ftl no_garbage)
        mapping_policy_page
        (record two_reads { req_type = reqtype_write })
        written.0)
check_ondemand_gc-Cleaned_example =
    check_ondemand_gc-Cleaned (ftl_page_ftl no_garbage) (λ _ p. is_gc_needed p) IsFtl (λ p ok. ok)
      (record two_reads { req_type = reqtype_write }) written.0 refl written-IsFtl

read_of-IsReadReq : (lpa : ℕ) → IsReadReq two_channels (read_of lpa)
read_of-IsReadReq lpa = record {
  plain_read = refl;
  ofs_in = omega arith;
  pages = omega arith;
  lpas = omega arith;
  oobs = omega arith;
}

two_reads-IsReadReq : Every (λ _. IsReadReq written.0.np) two_reads.llm_reqs
two_reads-IsReadReq k lr at = rw written_np (fits k lr at)
  where
    fits :
        (k : ℕ) (lr : LlmReq) → get_elem? two_reads.llm_reqs k ≡ some lr → IsReadReq two_channels lr
    fits zero lr at = subst (IsReadReq two_channels) (some-inj at) (read_of-IsReadReq 3)
    fits (suc zero) lr at = subst (IsReadReq two_channels) (some-inj at) (read_of-IsReadReq 5)
    fits (suc (suc k)) lr at = absurd (none-ne-some at)

make_rw_req-ReadsSent_example :
    Returns
      (ReadsSent counting written.0 two_reads 0)
      (make_rw_req (ftl_page_ftl no_garbage) counting written.0.np two_reads written.0 0)
make_rw_req-ReadsSent_example =
    make_rw_req-ReadsSent counting no_garbage written.0 two_reads 0 counting-Accepts written-IsFtl
      (omega arith) two_reads-IsReadReq

-- A write to the page with data, then one to a page without: the second has no place.
abbrev two_writes : HlmReq
two_writes = record two_reads {
  req_type = reqtype_write;
  llm_reqs =
      record (read_of 3) { req_type = reqtype_write }
      ∷ record (read_of 5) { req_type = reqtype_write }
      ∷ [];
}

two_writes-IsWriteReq : Every (λ _. IsWriteReq written.0.np) two_writes.llm_reqs
two_writes-IsWriteReq k lr at = rw written_np (fits k lr at)
  where
    write_of :
        (lpa : ℕ) → IsWriteReq two_channels (record (read_of lpa) { req_type = reqtype_write })
    write_of lpa = record { plain_write = refl; lpas = omega arith; oobs = omega arith }

    fits :
        (k : ℕ) (lr : LlmReq)
        → get_elem? two_writes.llm_reqs k ≡ some lr
        → IsWriteReq two_channels lr
    fits zero lr at = subst (IsWriteReq two_channels) (some-inj at) (write_of 3)
    fits (suc zero) lr at = subst (IsWriteReq two_channels) (some-inj at) (write_of 5)
    fits (suc (suc k)) lr at = absurd (none-ne-some at)

make_rw_req-WritesSent_example :
    Returns
      (WritesSent counting written.0 two_writes 0)
      (make_rw_req (ftl_page_ftl no_garbage) counting written.0.np two_writes written.0 0)
make_rw_req-WritesSent_example =
    make_rw_req-WritesSent counting no_garbage written.0 two_writes 0 counting-Accepts written-IsFtl
      (omega arith) two_writes-IsWriteReq
