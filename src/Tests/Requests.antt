-- ===== src/Tests/Requests.antt =====
-- The building of requests in ftl/hlm_reqs_pool.c, and ftl/algo/no_ftl.c, at
-- concrete inputs: a pool whose mapping unit and I/O unit are two kernel pages.
use h4h.Base.{
  leb, if◌then◌else◌, ℕ, zero, suc, ◌+◌, ◌*◌, ◌/◌, ◌^◌, ◌<◌, ◌≤◌, ◌≡◌, ◌↔◌, refl, sym, ap, subst,
  ◌∙◌, inl, true, false, [], ◌∷◌, none, some, arith, replicate, length-replicate, Every, Returns,
  none-ne-some, some-inj,
}
use h4h.PageFtl.{PhyAddr}
use h4h.PageFtl.State.Turn.{get-replicate}
use h4h.Request.{
  reqtype_write, reqtype_read, KernelPage, kp_stt_data, kp_stt_done, LlmReq, BlkioReq, HlmReq,
  trim_lpa, trim_len, nr_ksectors_in, align_up, align_down,
}
use h4h.Request.Align.{two_pow_add}
use h4h.ReqsPool.{Pool}
use h4h.ReqsPool.Build.{
  create_write_req, create_read_req, create_trim_req, write_count, write_start, write_end,
}
use h4h.ReqsPool.Build.Shape.{IsShape, IsHostReq}
use h4h.ReqsPool.Build.Llm.{IsLlmReq}
use h4h.ReqsPool.Build.Write.{Writes, create_write_req-Writes}
use h4h.ReqsPool.Build.Read.{HasUnit, AllRead, create_read_req-AllRead}
use h4h.ReqsPool.Build.Trim.{create_trim_req-within}
use h4h.ReqsPool.Compact.{HlmReqGc, write_compaction}
use h4h.ReqsPool.Compact.Slots.{HasSlots}
use h4h.ReqsPool.Compact.Pack.{Compacted, write_compaction-Compacted}
use h4h.NoFtl.{no_ftl_get_ppa}
use h4h.NoFtl.Slices.{Places, no_ftl_get_ppa-Places}
use h4h.Tests.Device.{two_channels}
use native.Mathlib.Nat.{one-le-pow}

abbrev two_pages : Pool
two_pages = record {
  used_list = [];
  free_list = 0 ∷ [];
  pool_size = 1;
  map_unit = 8192;
  io_unit = 8192;
  in_place_rmw = true;
  allocated = 1;
}

two_pages-IsShape : IsShape two_pages 1 0
two_pages-IsShape = record { map_size = refl; io_size = refl; small = omega arith }

-- Kernel pages 1 and 2: the second half of one mapping unit and the first half of the next
abbrev pages_1_and_2 : BlkioReq
pages_1_and_2 = record {
  bi_rw = reqtype_write;
  bi_offset = 8;
  bi_size = 16;
  bi_bvec_cnt = 2;
  bi_bvec_ptr = 100 ∷ 101 ∷ [];
}

pages_1_and_2-IsHostReq : IsHostReq pages_1_and_2
pages_1_and_2-IsHostReq = record {
  some_sector = omega arith;
  in_range = omega arith;
  each_page = refl;
  vectors = omega arith;
}

abbrev page_0 : PhyAddr
page_0 = record { punit_id = 0; channel_no = 0; chip_no = 0; block_no = 0; page_no = 0 }

abbrev old_page : KernelPage
old_page = record { kp_stt = kp_stt_data; kp_ptr = some 7; kp_pad = none }

abbrev old_llm_req : LlmReq
old_llm_req = record {
  req_type = reqtype_read;
  is_done = false;
  logaddr = record { lpa = 5 ∷ 6 ∷ []; ofs = 0 };
  phyaddr = page_0;
  phyaddr_src = page_0;
  phyaddr_dst = page_0;
  fmain = old_page ∷ old_page ∷ [];
  foob = 5 ∷ 6 ∷ [];
}

abbrev old_hlm_req : HlmReq
old_hlm_req = record {
  req_type = reqtype_read;
  nr_llm_reqs = 0;
  nr_llm_reqs_done = 0;
  llm_reqs = replicate 512 old_llm_req;
  blkio_req = none;
  ret = 0;
}

-- The memory allocated for entry f of request i
abbrev address : ℕ → ℕ → ℕ
address i f = 1000 + i * 10 + f

replicate-Every :
    (P : LlmReq → Type 0) (n : ℕ) → P old_llm_req → Every (λ _. P) (replicate n old_llm_req)
replicate-Every P n p k lr at = subst P (get-replicate n old_llm_req lr k at) p

create_write_req-Writes_example :
    Returns
      (Writes two_pages pages_1_and_2)
      (create_write_req address two_pages pages_1_and_2 old_hlm_req)
unfolding write_count write_start write_end align_up align_down
create_write_req-Writes_example =
    create_write_req-Writes address two_pages 1 0 pages_1_and_2 old_hlm_req two_pages-IsShape
      pages_1_and_2-IsHostReq (omega arith) (length-replicate 512 old_llm_req)
      (replicate-Every (IsLlmReq two_pages) 512
        (record { all_pages = refl; all_units = omega arith }))

create_read_req-AllRead_example :
    Returns
      (AllRead two_pages pages_1_and_2)
      (create_read_req address two_pages pages_1_and_2 old_hlm_req)
create_read_req-AllRead_example =
    create_read_req-AllRead address two_pages pages_1_and_2 old_hlm_req
      (record { not_empty = omega arith; in_place = inl refl }) pages_1_and_2-IsHostReq
      (let n = length-replicate 512 old_llm_req in omega (arith, n))
      (replicate-Every (HasUnit two_pages) 512
        (record { a_unit = omega arith; a_lpa = omega arith }))

create_trim_req-within_example :
    ((trim_lpa (create_trim_req two_pages pages_1_and_2 old_hlm_req) ≤ 1)
      × (1
          < trim_lpa (create_trim_req two_pages pages_1_and_2 old_hlm_req)
            + trim_len (create_trim_req two_pages pages_1_and_2 old_hlm_req)))
    ↔ ((8 ≤ 1 * nr_ksectors_in 8192) × (2 * nr_ksectors_in 8192 ≤ 24))
create_trim_req-within_example =
    create_trim_req-within two_pages 1 0 two_pages-IsShape pages_1_and_2 (omega arith) old_hlm_req 1

-- A page to collect with one subpage, which holds data
abbrev full_page : LlmReq
full_page = record {
  req_type = reqtype_read;
  is_done = false;
  logaddr = record { lpa = 5 ∷ []; ofs = 0 };
  phyaddr = page_0;
  phyaddr_src = page_0;
  phyaddr_dst = page_0;
  fmain = old_page ∷ [];
  foob = 5 ∷ [];
}

-- One with no data
abbrev stale_page : LlmReq
stale_page = record full_page { fmain = record old_page { kp_stt = kp_stt_done } ∷ [] }

abbrev to_collect : HlmReqGc
to_collect = record {
  req_type = reqtype_read;
  nr_llm_reqs = 4;
  nr_llm_reqs_done = 4;
  llm_reqs = stale_page ∷ full_page ∷ stale_page ∷ full_page ∷ [];
}

to_collect-HasSlots : Every (λ _. HasSlots 1) to_collect.llm_reqs
to_collect-HasSlots zero lr at =
    subst (HasSlots 1) (some-inj at)
      (record { pages = omega arith; lpas = omega arith; oobs = omega arith })
to_collect-HasSlots (suc zero) lr at =
    subst (HasSlots 1) (some-inj at)
      (record { pages = omega arith; lpas = omega arith; oobs = omega arith })
to_collect-HasSlots (suc (suc zero)) lr at =
    subst (HasSlots 1) (some-inj at)
      (record { pages = omega arith; lpas = omega arith; oobs = omega arith })
to_collect-HasSlots (suc (suc (suc zero))) lr at =
    subst (HasSlots 1) (some-inj at)
      (record { pages = omega arith; lpas = omega arith; oobs = omega arith })
to_collect-HasSlots (suc (suc (suc (suc k)))) lr at = absurd (none-ne-some at)

write_compaction-Compacted_example :
    Returns
      (Compacted two_channels to_collect)
      (write_compaction address two_channels to_collect to_collect)
write_compaction-Compacted_example =
    write_compaction-Compacted address two_channels to_collect to_collect (omega arith) refl refl
      to_collect-HasSlots to_collect-HasSlots

-- ilog2 on numbers below 2^f
abbrev halvings : ℕ → ℕ → ℕ
halvings zero n = 0
halvings (suc f) n = let rest = halvings f (n / 2) in if leb n 1 then 0 else suc rest

abbrev floor_log2 : ℕ → ℕ
floor_log2 n = halvings n n

halvings-double : (f n : ℕ) → 1 ≤ n → halvings (suc f) (2 * n) ≡ suc (halvings f n)
halvings-double f n some_left =
    let more : leb (2 * n) 1 ≡ false = ground arith in
    let half : 2 * n / 2 ≡ n = omega arith in rw (more, half) refl

halvings-pow : (f k : ℕ) → k ≤ f → halvings f (2 ^ k) ≡ k
halvings-pow zero zero h = refl
halvings-pow zero (suc k) h = absurd (omega arith)
halvings-pow (suc f) zero h = refl
halvings-pow (suc f) (suc k) h =
    let double : 2 ^ suc k ≡ 2 * 2 ^ k =
      ap (λ x. 2 ^ x) {x = suc k} {y = 1 + k} (omega arith) ∙ sym (two_pow_add 1 k) in
    ap (halvings (suc f)) double
    ∙ (halvings-double f (2 ^ k) (one-le-pow k 2 (omega arith))
        ∙ ap suc (halvings-pow f k (omega arith)))

le-pow : (k : ℕ) → k ≤ 2 ^ k
le-pow zero = omega arith
le-pow (suc k) = let ih = le-pow k in let one = one-le-pow k 2 (omega arith) in omega arith

floor_log2-pow : (k : ℕ) → floor_log2 (2 ^ k) ≡ k
floor_log2-pow k = halvings-pow (2 ^ k) k (le-pow k)

no_ftl_get_ppa-Places_example :
    Places two_channels 5 1 0 0 1
    × ((no_ftl_get_ppa floor_log2 two_channels 5).0.punit_id
        ≡ 1 * two_channels.nr_chips_per_channel + 0)
unfolding no_ftl_get_ppa
no_ftl_get_ppa-Places_example =
    no_ftl_get_ppa-Places floor_log2 two_channels 1 0 1 1 5 floor_log2-pow
      (record { channels = refl; chips = refl; blocks = refl; pages = refl; small = omega arith })
      (omega arith)
