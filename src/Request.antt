-- ===== src/Request.antt =====
-- include/h4h_drv.h: the requests that the parts of the driver hand to each other, and its alignment
-- macros. Sector numbers are unsigned words: where the source has int64_t, below 2^63, they are the same.
-- A request's back pointers and its semaphore are left out.
use Prim.Native.Nat.{bit_and}
use h4h.Base.{ℕ, ◌+◌, ◌-◌, ◌/◌, ◌%◌, ◌^◌, List, Option, Bool, true, false}
use h4h.PageFtl.{PhyAddr}
use h4h.Params.{kernel_page_size}
pub mod Align

-- enum H4H_REQTYPE, the types of whole requests
pub data ReqType : Type 0 where
  reqtype_read : ReqType
  reqtype_read_dummy : ReqType
  reqtype_write : ReqType
  reqtype_trim : ReqType
  reqtype_rmw_read : ReqType
  reqtype_rmw_write : ReqType
  reqtype_gc_read : ReqType
  reqtype_gc_write : ReqType
  reqtype_gc_erase : ReqType
  reqtype_meta_read : ReqType
  reqtype_meta_write : ReqType

-- h4h_is_normal, h4h_is_rmw, h4h_is_gc, h4h_is_read, h4h_is_write and h4h_is_trim: a bit of the type
abbrev pub is_normal : ReqType → Bool
is_normal reqtype_read = true
is_normal reqtype_read_dummy = true
is_normal reqtype_write = true
is_normal reqtype_trim = true
is_normal _ = false

abbrev pub is_rmw : ReqType → Bool
is_rmw reqtype_rmw_read = true
is_rmw reqtype_rmw_write = true
is_rmw _ = false

abbrev pub is_gc : ReqType → Bool
is_gc reqtype_gc_read = true
is_gc reqtype_gc_write = true
is_gc reqtype_gc_erase = true
is_gc _ = false

abbrev pub is_read : ReqType → Bool
is_read reqtype_read = true
is_read reqtype_rmw_read = true
is_read reqtype_gc_read = true
is_read reqtype_meta_read = true
is_read _ = false

abbrev pub is_write : ReqType → Bool
is_write reqtype_write = true
is_write reqtype_rmw_write = true
is_write reqtype_gc_write = true
is_write reqtype_meta_write = true
is_write _ = false

abbrev pub is_trim : ReqType → Bool
is_trim reqtype_trim = true
is_trim _ = false

-- kp_stt_t
pub data KpStt : Type 0 where
  kp_stt_done : KpStt
  kp_stt_hole : KpStt
  kp_stt_data : KpStt
  kp_stt_hole_done : KpStt
  kp_stt_data_done : KpStt

-- Entry i of h4h_flash_page_main_t: kp_stt[i], kp_ptr[i] and kp_pad[i]. A pointer is an address, or
-- `none` for NULL.
pub record KernelPage : Type 0 where
  pub kp_stt : KpStt
  pub kp_ptr : Option ℕ
  pub kp_pad : Option ℕ

-- h4h_logaddr_t; -1 is the word 2^64 - 1.
pub record LogAddr : Type 0 where
  pub lpa : List ℕ
  pub ofs : ℕ

-- h4h_llm_req_t; `foob` is the spare area, read as an array of int64_t, and `is_done` says whether
-- REQTYPE_DONE is set in req_type.
pub record LlmReq : Type 0 where
  pub req_type : ReqType
  pub is_done : Bool
  pub logaddr : LogAddr
  pub phyaddr : PhyAddr
  pub phyaddr_src : PhyAddr
  pub phyaddr_dst : PhyAddr
  pub fmain : List KernelPage
  pub foob : List ℕ

-- h4h_blkio_req_t: what the host asks for
pub record BlkioReq : Type 0 where
  pub bi_rw : ReqType
  pub bi_offset : ℕ
  pub bi_size : ℕ
  pub bi_bvec_cnt : ℕ
  pub bi_bvec_ptr : List ℕ

-- h4h_hlm_req_t. `nr_llm_reqs` and `nr_llm_reqs_done` share their memory with `lpa` and `len`: see below.
pub record HlmReq : Type 0 where
  pub req_type : ReqType
  pub nr_llm_reqs : ℕ
  pub nr_llm_reqs_done : ℕ
  pub llm_reqs : List LlmReq
  pub blkio_req : Option BlkioReq
  pub ret : ℕ

-- The members of the union that a trim uses
abbrev pub trim_lpa : HlmReq → ℕ
trim_lpa hr = hr.nr_llm_reqs

abbrev pub trim_len : HlmReq → ℕ
trim_len hr = hr.nr_llm_reqs_done

abbrev pub ksector_size : ℕ
ksector_size = 512

abbrev pub h4h_blkio_max_vecs : ℕ
h4h_blkio_max_vecs = 512

-- ~(size - 1), on words
abbrev pub not_below : ℕ → ℕ
not_below size = (2 ^ 64 - size) % 2 ^ 64

-- H4H_ALIGN_DOWN
unfoldable pub align_down : ℕ → ℕ → ℕ
align_down addr size = bit_and addr (not_below size)

-- H4H_ALIGN_UP
unfoldable pub align_up : ℕ → ℕ → ℕ
align_up addr size = bit_and ((addr + (size + (2 ^ 64 - 1))) % 2 ^ 64) (not_below size)

-- NR_KSECTORS_IN
abbrev pub nr_ksectors_in : ℕ → ℕ
nr_ksectors_in size = size / ksector_size

-- NR_KPAGES_IN
abbrev pub nr_kpages_in : ℕ → ℕ
nr_kpages_in size = size / kernel_page_size
