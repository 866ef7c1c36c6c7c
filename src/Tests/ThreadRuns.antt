-- ===== src/Tests/ThreadRuns.antt =====
-- Threads 1 and 2 of a process, with an allocator that never gives a block twice.
use libsysve.Prelude.{
  ℕ, suc, ◌+◌, ◌<◌, ◌≤◌, ◌≡◌, ◌≢◌, refl, true, false, none, some, [], ◌∷◌, ◌^◌, ◌-◌, ◌*◌, arith,
}
use libsysve.Prelude.Int.{pos}
use libsysve.Acc.Process.{AccIoResources, accelerated_io, Process, World}
use libsysve.Acc.Resources.{
  pre, unless_pdma, swapped, own, first_request, allocated, initialised, publish, claimed,
  chk_env_init_dma, atfork_prepare, atfork_parent, asks_pdma,
}
use libsysve.Acc.Resources.Blocks.{Allocator}
use libsysve.Acc.Resources.Growth.{Known, Grown, pre-Grown}
use libsysve.Acc.Threads.{
  System, view, leave, end_thread, Reachable, fresh_process, then, request, ended,
}
use libsysve.Acc.Threads.Owners.{keys, Owned, Reachable-Owned}
use libsysve.Tests.ResourceRuns.{no_hooks, nodes, listed}

-- The blocks from 200 on, one after another.
abbrev world : World ℕ
world = record {
  acc_io_sigset = 2 ^ 32 - 1;
  list_head = 100;
  accelerated_io_flag = 2 ^ 63;
  setting_pdma = λ k. none;
  setting_atomic = λ k. none;
  ve_dma_init = λ k e. (pos 0, (k, e));
  malloc = λ k e. (200 + k, (suc k, e));
  ve_io_buff_of = λ a. 4000 * a;
  init2 = λ b k e. (some (record { vhva = 7; vehva = 8; local_vehva = 9 }), (k, e));
  setspecific = λ a k e. (true, (k, e));
  free_vh_buf = λ a k e. (pos 0, (k, e));
  unregister_dmaatb = λ a b k e. (pos 0, (k, e));
  free = λ a k. k;
}

one_more : (k x : ℕ) → x ≤ 200 + k → x < 200 + suc k
one_more k x le = omega (arith, le)

never_again : (k x : ℕ) → x < 200 + k → 200 + k ≢ x
never_again k x lt = omega (arith, lt)

abbrev alloc : Allocator world
alloc = record {
  live = λ k x. x < 200 + k;
  fresh = λ k e x lt. never_again k x lt;
  given = λ k e nz. one_more k (200 + k) (omega arith);
  malloc_keeps = λ k e x lt. one_more k x (omega (arith, lt));
  free_keeps = λ k a x ne lt. lt;
  ve_dma_init_keeps = λ k e x lt. lt;
  init2_keeps = λ b k e x lt. lt;
  setspecific_keeps = λ a k e x lt. lt;
  free_vh_buf_keeps = λ a k e x lt. lt;
  unregister_dmaatb_keeps = λ a b k e x lt. lt;
}

abbrev process : ℕ → Process ℕ
process key = record {
  sys = 0;
  errno = 0;
  constructor_result = accelerated_io;
  ve_buff_using_flag = false;
  key = key;
  heap = nodes;
  hooks = no_hooks;
  sigmask = 0;
  acc_io_sigset_old = 0;
  list_locked = false;
}

process-Known : (key : ℕ) → Known world alloc (2 ∷ 3 ∷ []) (process key)
process-Known key = (
  listed,
  ((omega arith, (omega arith, tt)), ((omega arith, tt), (tt, tt))),
  (omega arith, (omega arith, (omega arith, tt))),
)

pre-Grown_example : Grown world alloc (2 ∷ 3 ∷ []) (pre world (process 0))
pre-Grown_example = pre-Grown world alloc (2 ∷ 3 ∷ []) (process 0) refl (process-Known 0)

abbrev empty_node : AccIoResources
empty_node = record { local_vehva = 0; vehva = 0; vh_buff = 0; ve_io_buff = 0; next = 0; prev = 0 }

abbrev at_start : System ℕ
at_start = record {
  sys = 0;
  constructor_result = accelerated_io;
  heap = λ _. empty_node;
  hooks = no_hooks;
  list_locked = false;
  threads = λ _. record {
    errno = 0;
    ve_buff_using_flag = false;
    key = 0;
    sigmask = 0;
    acc_io_sigset_old = 0;
  };
}

abbrev asked : ℕ → System ℕ → System ℕ
asked t s = leave t s (pre world (view t s)).1

-- Both threads have asked for buffers.
abbrev both : System ℕ
both = asked 2 (asked 1 at_start)

both-Reachable : Reachable world both
both-Reachable =
    then (then (fresh_process at_start refl (λ t. refl)) (request 1 at_start))
      (request 2 (asked 1 at_start))

-- Each has its own.
both_have : (keys both 1 ≡ 200) × (keys both 2 ≡ 201)
unfolding pre unless_pdma swapped own first_request allocated initialised publish claimed
    chk_env_init_dma atfork_prepare atfork_parent asks_pdma
both_have = (refl, refl)

Reachable-Owned_example :
    Owned world alloc (omega arith) (λ k. omega arith) (end_thread world 1 both)
Reachable-Owned_example =
    Reachable-Owned world alloc (omega arith) (λ k. omega arith)
      (then both-Reachable (ended 1 both (ground (arith, both_have.0))))
