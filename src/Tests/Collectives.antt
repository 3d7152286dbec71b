-- ===== src/Tests/Collectives.antt =====
-- src/collective.cpp: histories of groups, and calls of one rank over a library that does nothing but copy.
use amp.Prelude.{ℕ, ◌≡◌, refl, true, false, List, [], ◌∷◌, some}
use amp.Gemm.Types.{fp32, fp8e4m3}
use amp.Collective.{
  Process, with_nccl, without, CommGroup, default_group, op_sum, Nccl, done, threw, fault,
  allreduce, allgather, Call, init_rank, init_all, destroy, run, step, comm_init_rank,
  comm_init_all, comm_destroy, init_loop,
}
use amp.Collective.Lifecycle.{Inv, Owned}
use amp.Collective.Histories.{start, start-Inv, AllClean, run_lem}

-- Two devices, a group that is destroyed twice, and one that cannot be made.
abbrev calls : List Call
calls = init_all true 0 0 2 ∷ destroy true 0 ∷ destroy true 0 ∷ init_rank false 5 0 4 1 ∷ []

run_lem_example :
    (s' : Process) × (run calls start ≡ some s')
    × Inv s'
    × (AllClean calls start → Owned start → Owned s')
run_lem_example = run_lem calls start start-Inv

-- The communicator of a group that could not be made stays on the heap, and so does that of a group
-- that is made again, and those of the groups that comm_init_all drops as it shrinks the vector.
leak_runs :
    ((s' : Process) × (run calls start ≡ some s')
      × (s'.live 0 ≡ false)
      × (s'.live 1 ≡ true)
      × (s'.live 2 ≡ true)
      × ((s'.groups 5).initialized ≡ false))
    × ((s' : Process) × (run
            (init_rank true 0 0 1 0 ∷ init_rank true 0 0 1 0 ∷ destroy true 0 ∷ [])
            start
          ≡ some s')
        × (s'.live 0 ≡ true)
        × ((s'.groups 0).initialized ≡ false))
    × ((s' : Process) × (run (init_all true 0 0 2 ∷ init_all false 0 2 1 ∷ []) start ≡ some s')
        × (s'.live 1 ≡ true)
        × ((s'.groups 1).initialized ≡ false))
unfolding run step comm_init_rank comm_init_all comm_destroy init_loop
leak_runs = ((_, refl, refl, refl, refl, refl), (_, refl, refl, refl), (_, refl, refl, refl))

abbrev copies : Nccl ℕ
copies = record {
  all_reduce = λ h buf count dtype op. some buf;
  broadcast = λ h buf count dtype root. some buf;
  all_gather = λ h sendbuf recvbuf count dtype. some sendbuf;
  reduce_scatter = λ h sendbuf recvbuf count dtype op. some sendbuf;
  send = λ h buf count dtype peer. some buf;
  recv = λ h buf count dtype peer. some buf;
  zeros = 0;
}

abbrev alone : CommGroup
alone = record default_group { handle = some 0; initialized = true }

-- For one rank the builds agree on allreduce, but not on allgather, where the build without a backend
-- leaves the buffer as it was; a group that was never made has no communicator to follow.
builds_run :
    (allreduce copies with_nccl alone 7 1 fp32 op_sum ≡ done 7)
    × (allreduce copies without alone 7 1 fp32 op_sum ≡ done 7)
    × (allgather copies with_nccl alone 7 0 1 fp32 ≡ done 7)
    × (allgather copies without alone 7 0 1 fp32 ≡ done 0)
    × (allreduce copies with_nccl alone 7 1 fp8e4m3 op_sum ≡ threw)
    × (allreduce copies with_nccl default_group 7 1 fp32 op_sum ≡ fault)
unfolding allreduce allgather
builds_run = (refl, refl, refl, refl, refl, refl)
