-- ===== src/Collective.antt =====
-- include/collective.hpp and src/collective.cpp: the groups of communicators and the collective calls, in
-- the build with NCCL (or RCCL, whose calls are the same) and in the one without a backend. The library
-- is a parameter. A `CommGroup` holds the address of a communicator on the heap.
pub mod Lifecycle
pub mod Histories
use amp.Prelude.{
  ℕ, zero, suc, ◌+◌, ◌-◌, ◌<◌, Bool, true, false, List, [], ◌∷◌, Option, none, some, if◌then◌else◌,
  ltb, leb, ◌==◌, ◌&&◌, min, max,
}
use amp.Gemm.Types.{DataType, fp32, bf16, fp16, fp8e4m3, fp8e5m2, int8, int4, int32}

pub data CollBuild : Type 0 where
  with_nccl without : CollBuild

pub record CommGroup : Type 0 where
  pub handle : Option ℕ
  pub rank : ℕ
  pub world : ℕ
  pub device_id : ℕ
  pub initialized : Bool

abbrev pub default_group : CommGroup
default_group = record { handle = none; rank = 0; world = 1; device_id = 0; initialized = false }

pub data ReduceOp : Type 0 where
  op_sum op_max op_min op_prod : ReduceOp

-- The groups of a process, numbered, with those of a vector side by side; and the heap: which addresses
-- hold a communicator, and the next address that `new` gives. A group is not copied.
pub record Process : Type 0 where
  pub groups : ℕ → CommGroup
  pub live : ℕ → Bool
  pub next : ℕ

abbrev pub set_group : ℕ → CommGroup → (ℕ → CommGroup) → ℕ → CommGroup
set_group i g groups x = if i == x then g else groups x

abbrev pub set_live : ℕ → Bool → (ℕ → Bool) → ℕ → Bool
set_live h b live x = if h == x then b else live x

-- `comm_init_rank` of the group `i` with NCCL; `ok` is whether the library's call succeeds. When it
-- throws, the object that `new` made stays.
unfoldable pub comm_init_rank : Bool → ℕ → ℕ → ℕ → ℕ → Process → Process
comm_init_rank ok i rank world device_id s =
    let live = set_live s.next true s.live in
    if ok
    then record {
      groups =
          set_group i
            (record {
              handle = some s.next;
              rank = rank;
              world = world;
              device_id = device_id;
              initialized = true;
            })
            s.groups;
      live = live;
      next = s.next + 1;
    }
    else record { groups = s.groups; live = live; next = s.next + 1 }

-- `groups.resize(n)` of a vector of `len` groups that begins with the group `first`: the entries past
-- the shorter length are dropped, or made anew. A `CommGroup` has no destructor, so that the
-- communicator of one that is dropped stays on the heap.
abbrev pub resize : ℕ → ℕ → ℕ → (ℕ → CommGroup) → ℕ → CommGroup
resize first len n groups x =
    if leb (first + min len n) x && ltb x (first + max len n) then default_group else groups x

-- The loop of `comm_init_all` over the entries from `i` on, with `turns` to go.
unfoldable pub init_loop : ℕ → ℕ → ℕ → ℕ → Process → Process
unfolding comm_init_rank
init_loop first n zero i s = s
init_loop first n (suc turns) i s =
    init_loop first n turns (i + 1) (comm_init_rank true (first + i) i n i s)

-- `comm_init_all`, on `n` devices, for a vector of `len` groups that begins with the group `first`;
-- when the library's call fails it throws, after the resize.
unfoldable pub comm_init_all : Bool → ℕ → ℕ → ℕ → Process → Process
unfolding init_loop
comm_init_all ok first len n s =
    let s' = record s { groups = resize first len n s.groups } in
    if ok then init_loop first n n 0 s' else s'

-- `delete` of the communicator at `h`; `none` is undefined behaviour: nothing lives there.
abbrev pub delete_comm : ℕ → ℕ → Process → Option Process
delete_comm i h s =
    if s.live h
    then some (record {
      groups = set_group i (record (s.groups i) { handle = none; initialized = false }) s.groups;
      live = set_live h false s.live;
      next = s.next;
    })
    else none

-- The part of `comm_destroy` under its guard; a null handle is dereferenced.
abbrev pub destroy_handle : Bool → ℕ → Option ℕ → Process → Option Process
destroy_handle ok i none s = none
destroy_handle ok i (some h) s =
    if s.live h then (if ok then delete_comm i h s else some s) else none

-- `comm_destroy`; when the library's call fails it throws, and nothing has changed.
unfoldable pub comm_destroy : Bool → ℕ → Process → Option Process
comm_destroy ok i s =
    if (s.groups i).initialized then destroy_handle ok i (s.groups i).handle s else some s

-- The calls that make and destroy groups.
pub data Call : Type 0 where
  init_rank : Bool → ℕ → ℕ → ℕ → ℕ → Call
  init_all : Bool → ℕ → ℕ → ℕ → Call
  destroy : Bool → ℕ → Call

unfoldable pub step : Call → Process → Option Process
unfolding comm_init_rank comm_init_all comm_destroy
step (init_rank ok i rank world device_id) s = some (comm_init_rank ok i rank world device_id s)
step (init_all ok first len n) s = some (comm_init_all ok first len n s)
step (destroy ok i) s = comm_destroy ok i s

unfoldable pub run : List Call → Process → Option Process
unfolding step
run [] s = some s
run (c ∷ cs) s = elim (step c s) [ none ↦ none | some s' ↦ run cs s' ]

-- `to_nccl_dtype`: whether the type has one; it throws for the others.
abbrev pub to_nccl_dtype : DataType → Bool
to_nccl_dtype fp32 = true
to_nccl_dtype bf16 = true
to_nccl_dtype fp16 = true
to_nccl_dtype fp8e4m3 = false
to_nccl_dtype fp8e5m2 = false
to_nccl_dtype int8 = true
to_nccl_dtype int4 = false
to_nccl_dtype int32 = true

-- The library's calls, on the communicator at an address: what they leave in the buffer that they
-- receive into; `none` is a status of failure.
pub record Nccl (Buf : Type 0) : Type 0 where
  pub all_reduce : ℕ → Buf → ℕ → DataType → ReduceOp → Option Buf
  pub broadcast : ℕ → Buf → ℕ → DataType → ℕ → Option Buf
  pub all_gather : ℕ → Buf → Buf → ℕ → DataType → Option Buf
  pub reduce_scatter : ℕ → Buf → Buf → ℕ → DataType → ReduceOp → Option Buf
  pub send : ℕ → Buf → ℕ → DataType → ℕ → Option Buf
  pub recv : ℕ → Buf → ℕ → DataType → ℕ → Option Buf
  pub zeros : Buf

-- What a call ends with.
pub data Outcome (A : Type 0) : Type 0 where
  done : A → Outcome A
  threw : Outcome A
  fault : Outcome A

module _ {Buf : Type 0} where
  abbrev pub checked : Option Buf → Outcome Buf
  checked none = threw
  checked (some buf) = done buf

  -- A call of the library: the type is converted, and the handle followed.
  abbrev pub call_nccl : DataType → Option ℕ → (ℕ → Option Buf) → Outcome Buf
  call_nccl dtype none call = if to_nccl_dtype dtype then fault else threw
  call_nccl dtype (some h) call = if to_nccl_dtype dtype then checked (call h) else threw

  -- Without a backend: `check_collective`, where there is more than one rank.
  abbrev pub stub : CommGroup → Buf → Outcome Buf
  stub g buf = if ltb 1 g.world then threw else done buf

  module _ (lib : Nccl Buf) where
    unfoldable pub allreduce : CollBuild → CommGroup → Buf → ℕ → DataType → ReduceOp → Outcome Buf
    allreduce with_nccl g buf count dtype op =
        call_nccl dtype g.handle (λ h. lib.all_reduce h buf count dtype op)
    allreduce without g buf count dtype op = stub g buf

    unfoldable pub broadcast : CollBuild → CommGroup → Buf → ℕ → DataType → ℕ → Outcome Buf
    broadcast with_nccl g buf count dtype root =
        call_nccl dtype g.handle (λ h. lib.broadcast h buf count dtype root)
    broadcast without g buf count dtype root = stub g buf

    unfoldable pub allgather : CollBuild → CommGroup → Buf → Buf → ℕ → DataType → Outcome Buf
    allgather with_nccl g sendbuf recvbuf count dtype =
        call_nccl dtype g.handle (λ h. lib.all_gather h sendbuf recvbuf count dtype)
    allgather without g sendbuf recvbuf count dtype = stub g recvbuf

    unfoldable pub reduce_scatter :
        CollBuild → CommGroup → Buf → Buf → ℕ → DataType → ReduceOp → Outcome Buf
    reduce_scatter with_nccl g sendbuf recvbuf recv_count dtype op =
        call_nccl dtype g.handle (λ h. lib.reduce_scatter h sendbuf recvbuf recv_count dtype op)
    reduce_scatter without g sendbuf recvbuf recv_count dtype op = stub g recvbuf

    unfoldable pub send : CollBuild → CommGroup → Buf → ℕ → DataType → ℕ → Outcome Buf
    send with_nccl g buf count dtype peer =
        call_nccl dtype g.handle (λ h. lib.send h buf count dtype peer)
    send without g buf count dtype peer = stub g buf

    unfoldable pub recv : CollBuild → CommGroup → Buf → ℕ → DataType → ℕ → Outcome Buf
    recv with_nccl g buf count dtype peer =
        call_nccl dtype g.handle (λ h. lib.recv h buf count dtype peer)
    recv without g buf count dtype peer = stub g buf

    -- `barrier`: a sum over one zero; without a backend it does nothing.
    unfoldable pub barrier : CollBuild → CommGroup → Outcome Buf
    barrier with_nccl g = call_nccl fp32 g.handle (λ h. lib.all_reduce h lib.zeros 1 fp32 op_sum)
    barrier without g = done lib.zeros

-- `local_device_count`, from what the runtime counts.
unfoldable pub local_device_count : ℕ → ℕ
local_device_count n = if ltb 0 n then n else 1

abbrev pub collective_available : CollBuild → Bool
collective_available with_nccl = true
collective_available without = false

-- The build without a backend: groups without a communicator.
abbrev pub stub_init_rank : ℕ → ℕ → ℕ → CommGroup → CommGroup
stub_init_rank rank world device_id g = record g {
  rank = rank;
  world = world;
  device_id = device_id;
  initialized = true;
}

abbrev pub stub_init_all : List CommGroup → List CommGroup
stub_init_all [] = stub_init_rank 0 1 0 default_group ∷ []
stub_init_all (g ∷ groups) = stub_init_rank 0 1 0 g ∷ []

abbrev pub stub_destroy : CommGroup → CommGroup
stub_destroy g = record g { initialized = false }
