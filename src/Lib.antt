-- ===== src/Lib.antt =====
-- Verification of the flash translation layer of this repository.
--
-- The driver turns block requests into flash operations. What is modelled is its core, from the
-- bottom up; each part is a module, and the theorems about it are in its child modules.
--
-- - Params: the device geometry (include/params.h, get_default_device_params of
--   devices/common/dev_params.c). The other parts take a geometry that satisfies IsGeometry.
-- - Abm: the block manager (ftl/algo/abm.h, ftl/algo/abm.c). The state is the record Abm: the blocks,
--   the lists of free, clean, dirty and bad blocks of every chip, and five counters. A pointer to a
--   block is its index. Abm holds the data and the creation, Abm.Ops the functions that change the
--   state: prepare, rollback, commit, erase, set-to-dirty and invalidate, Abm.Store load and store. The invariant is
--   Abm.Valid.IsValid: the counters count, each block stands once, in the list of its status and chip,
--   its address is that of its index, and its page status table has as many marks as it counts.
-- - PageFtl: the page-level FTL (ftl/algo/page_ftl.c) on top of Abm. The state is the record PageFtl.
--   PageFtl holds creation and h4h_page_ftl_get_free_ppa, PageFtl.Ops the rest of the interface. The
--   invariant is PageFtl.State.IsFtl: every parallel unit has an active block of its own chip that is
--   in use, each mapped logical address has a live subpage, and no two share one.
-- - Queue: the FIFO queues (ftl/queue/queue.c). Each queue is a sequence.
-- - PriorQueue: the queues with tags for each logical address (ftl/queue/prior_queue.c). The hash table
--   of common/3rd is the parameter LpaHash: its operations and laws.
-- - RdPriorQueue: the same queues with reads served before writes (ftl/queue/rd_prior_queue.c).
-- - Request: the requests of include/h4h_drv.h, with its alignment macros.
-- - ReqsPool: the pool of requests (ftl/hlm_reqs_pool.c). ReqsPool.Build makes low-level requests from a
--   request of the host, ReqsPool.Compact packs the pages that are collected, ReqsPool.Pages holds the
--   steps on kernel pages that both use. The address of allocated memory is a parameter.
-- - NoFtl: the FTL for devices that map addresses themselves (ftl/algo/no_ftl.c); ilog2 is a parameter.
-- - FtlInf: the interfaces of include/h4h_drv.h between the parts, and the page-level FTL as one.
-- - HlmNobuf: the high-level memory manager without a buffer (ftl/hlm_nobuf.c), between the host, an FTL
--   and a low-level manager. HlmNobuf.Trim follows a request of the host through ReqsPool.Build, HlmNobuf
--   and PageFtl; HlmNobuf.Reads and Writes follow reads and writes to PageFtl.
-- - LlmMq: the low-level memory manager with a queue and a semaphore for each parallel unit
--   (ftl/llm_mq.c), on top of PriorQueue. Its threads are steps, and a semaphore is the count that it
--   holds in the kernel.
-- - Base: what the parts share. Tests: the theorems at concrete inputs.
--
-- Conventions. A result `none` is a run that stops at h4h_bug_on, in a build where that stops the
-- kernel, or at an access out of range; `Returns P r` says that the run gets to its end and its result
-- satisfies P. Loops are structural recursion over the list that they walk or over the number of their
-- rounds, so no fuel is needed. Words are natural numbers with their wrap-around written out: `% 2 ^ 64`
-- for uint64_t, `% 2 ^ 32` for uint32_t, `% 2 ^ 16` and `% 2 ^ 8` where a field is that short. Memory
-- allocation succeeds, except where a function takes a flag or a number for it. A function under a
-- lock is one step, and what a step waits for has come when it is taken. An array of H4H_MAX_PAGES
-- entries is a list, and a theorem that needs a number of entries says so. The state that
-- h4h_page_ftl_create leaves when it fails is not looked at: the source frees it.
--
-- Not modelled: messages and displays, freeing of memory, the bytes of files, the saving of the mapping
-- table, garbage collection and the bad-block scan of page_ftl.c (the collector is a parameter of the
-- interface), the block-level FTL and DFTL, the other memory managers, the scheduling of threads, devices,
-- frontends, and vendored code.
pub mod Base
pub mod Params
pub mod Abm
pub mod PageFtl
pub mod Queue
pub mod PriorQueue
pub mod RdPriorQueue
pub mod ReqsPool
pub mod Request
pub mod NoFtl
pub mod FtlInf
pub mod HlmNobuf
pub mod LlmMq
pub mod Tests
