-- ===== src/Lib.antt =====
-- AMP: memory pools, a request scheduler, compile caches and speculative decoding for serving
-- language models.
--
-- The parts and how they interact. `PagePool` (include/pool.hpp, src/pool.cpp) hands out pages
-- of device memory behind a mutex; `PagePoolFast` (include/pool_fast.hpp, src/pool_fast.cpp)
-- does it with one linked stack of free pages for each shard, and `PagePoolNUMA`
-- (include/pool_numa.hpp, src/pool_numa.cpp) with a `PagePoolFast` for each node. `Scheduler`
-- (include/scheduler.hpp, src/scheduler.cpp) keeps the requests that wait and run, takes the
-- pages of their KV cache from a `PagePoolFast`, and puts the batch of each step together.
-- `CacheStore` (include/cache.hpp, src/cache.cpp) keeps compiled binaries in a directory;
-- `CacheStoreFast` (include/cache_fast.hpp, src/cache_fast.cpp) puts a table in memory before
-- it, and `CacheStoreAsync` (include/cache_async.hpp, src/cache_async.cpp) a table and a thread
-- that writes. `SpecDecodeEngine` (include/speculative.hpp, src/speculative.cpp) accepts or
-- rejects the tokens of a draft model. The autotuner (include/autotune_sh.hpp), the products on
-- a device (kernels/matmul.cuh, kernels/matmul.cu, kernels/matmul_sycl.cpp), attention
-- (kernels/flash_attn.cu, kernels/flash_attn.cuh), the products through vendors' libraries
-- (include/gemm_vendor.hpp, src/gemm_vendor.cpp), the collective calls (include/collective.hpp,
-- src/collective.cpp), the 8-bit floats (include/fp8.hpp) and the discovery of devices
-- (src/device.cpp) stand alone.
--
-- Prelude and its children hold the shared names, the tests on numbers and the lemmas on lists.
-- Pool models `PagePool`; PoolFast models `PagePoolFast`, with Stacks on the linked stacks,
-- Taking and Alloc on `alloc`, Pages on `free_pages`, Sweep on `leak_scan`, and Protocol on
-- histories of calls. PoolNuma models `PagePoolNUMA` over PoolFast. Scheduler/Data has the
-- types, Pages the page helpers, Step `schedule`, Complete the other methods; Budget, Ids,
-- Parked, Stuck, Preempted, Rounds and Starvation are on what they do. Cache models `CacheStore`
-- with its file format, Cache/Sha256 the digest of `fingerprint` and Cache/Fingerprint its text,
-- CacheFast `CacheStoreFast`, and CacheAsync `CacheStoreAsync`, with Flush on what its thread
-- has written and Races on interleavings. Speculative models the types and the sampling,
-- Speculative/Steps the loops of `verify`, `verify_greedy` and `medusa_verify`. Autotune models
-- `successive_halving` and `grid_search`, Matmul `matmul_fp32_kernel` and its launch, Sycl
-- `gemm_tiled_sycl` over the device of Matmul, Fp8 the four conversions, and Device
-- `detect_device` and `detect_caps`. Flash models `flash_attn_fwd_kernel`, Flash/Dispatch the
-- choice of its tiles and Flash/Launch its output and launch; Exact has the arithmetic, Softmax
-- is on a row, Loads, Blocks and Partial on full and partial blocks, Output on the output
-- arrays, and Attention puts them together. Gemm models `VendorGemm`, with its types in
-- Gemm/Types; Fallback is on its loops, Rocblas on the calls of the vendors, and Backends on
-- `gemm` and `batch_gemm`. Collective models the groups of communicators and their calls, with
-- Lifecycle and Histories on how groups are made and destroyed, and Tuner `autotune_matmul` and
-- `autotune_flash_attn`. A method is a function of the same name on a record of the members; an
-- exception is `none`.
--
-- Bounds. Loops run over lists or over a number of pages, shards or nodes, so that most need no
-- fuel. The rounds of `successive_halving` have fuel: as many as there are candidates are enough
-- for an `eta` from 2 on. The loops of the kernels and of `SHA256` have fuel: each turn goes on
-- by one at least, so that the bound of the loop is enough. The digits of a magnitude are
-- counted with fuel 176; a finite `float` in range of the formats has fewer. Counters wrap at
-- 2^64. Ids, sizes and the `int`s of the source are natural numbers.
--
-- Floats. The scheduler carries them as bit patterns. Speculative, Autotune, Matmul, Flash and
-- Gemm take them, their operations and the random numbers as parameters, about which a theorem
-- supposes what it names: for attention the laws of exact arithmetic with an exponential that is
-- 0 at a masked key. Fp8 takes a finite `float` as the exact multiple of 2^-149 that it is.
--
-- What is not modelled. But for `CacheStoreAsync`, whose threads take turns at each critical
-- section, and at each counter and read of the disk outside of one, a call runs without
-- interference: the mutexes, the compare-exchange loops and memory order are not modelled, and
-- the clock is read once for each call. A condition variable wakes no thread without a
-- notification. The device's malloc, libnuma and the vendors' runtimes are parameters. Writes of
-- files that fail are not modelled, nor are groups of communicators that the caller copies, the
-- build of the collectives with oneCCL and the tensor-core kernels, which are code over the
-- vendors' types. In Matmul, Sycl and Flash the threads of a block take turns between two
-- barriers, and the blocks of a grid too; in Flash the lanes of a warp run in lockstep. Where
-- the source divides by 0, as attention does with more heads of keys than of queries, or
-- `verify` reads the maximum of no logits, the model has a value that stands for nothing.
pub mod Prelude
pub mod Pool
pub mod PoolFast
pub mod Scheduler
pub mod Cache
pub mod CacheFast
pub mod Speculative
pub mod PoolNuma
pub mod CacheAsync
pub mod Autotune
pub mod Fp8
pub mod Device
pub mod Matmul
pub mod Flash
pub mod Gemm
pub mod Sycl
pub mod Collective
pub mod Tuner
mod Tests
