-- ===== src/Tests/ResourceRuns.antt =====
-- The buffers of src/accelerated_io.c in a process with the list head at 100 and nodes at 1, 2 and 3.
use libsysve.Prelude.{
  ℕ, ◌*◌, ◌-◌, ◌^◌, ◌≡◌, refl, true, false, none, some, List, [], ◌∷◌, ◌==◌, if◌then◌else◌, arith,
}
use libsysve.Prelude.Int.{pos}
use libsysve.Acc.Vh.{AccIoInfo}
use libsysve.Acc.Process.{AccIoResources, accelerated_io, none_set, Hooks, Process, World}
use libsysve.Acc.Resources.{success, pre, atfork_child}
use libsysve.Acc.Resources.Claiming.{Settles, pre-Settles}
use libsysve.Acc.Resources.Links.{Linked}
use libsysve.Acc.Resources.Fork.{child_frees, atfork_child-list}

abbrev pub no_hooks : Hooks
no_hooks = record {
  read_hook = none_set;
  pread_hook = none_set;
  readv_hook = none_set;
  preadv_hook = none_set;
  write_hook = none_set;
  pwrite_hook = none_set;
  writev_hook = none_set;
  pwritev_hook = none_set;
}

-- A node of the list, with its buffers at addresses made from its own.
abbrev node : ℕ → ℕ → ℕ → AccIoResources
node a next prev = record {
  local_vehva = 1000 * a;
  vehva = 2000 * a;
  vh_buff = 3000 * a;
  ve_io_buff = 4000 * a;
  next = next;
  prev = prev;
}

abbrev pub nodes : ℕ → AccIoResources
nodes a =
    if a == 100
    then node a 2 0
    else (if a == 2 then node a 3 100 else (if a == 3 then node a 0 2 else node a 0 0))

abbrev pub process : Process (List ℕ)
process = record {
  sys = [];
  errno = 0;
  constructor_result = accelerated_io;
  ve_buff_using_flag = false;
  key = 0;
  heap = nodes;
  hooks = no_hooks;
  sigmask = 0;
  acc_io_sigset_old = 0;
  list_locked = false;
}

-- The allocator gives node 1; the log takes what is given back.
abbrev world : World (List ℕ)
world = record {
  acc_io_sigset = 2 ^ 32 - 1;
  list_head = 100;
  accelerated_io_flag = 2 ^ 63;
  setting_pdma = λ k. none;
  setting_atomic = λ k. none;
  ve_dma_init = λ k e. (pos 0, (k, e));
  malloc = λ k e. (1, (k, e));
  ve_io_buff_of = λ a. 4000 * a;
  init2 = λ b k e. (some (record { vhva = 7; vehva = 8; local_vehva = 9 }), (k, e));
  setspecific = λ a k e. (true, (k, e));
  free_vh_buf = λ a k e. (pos 0, (a ∷ k, e));
  unregister_dmaatb = λ a b k e. (pos 0, (a ∷ b ∷ k, e));
  free = λ a k. a ∷ k;
}

pre-Settles_example :
    Settles world process 0 false (pre world process)
    × ((io : AccIoInfo) → (pre world process).0 ≡ success io → false ≡ false)
pre-Settles_example = pre-Settles world process

pub listed : Linked nodes 100 (2 ∷ 3 ∷ [])
listed = (refl, (omega arith), refl, (refl, (omega arith), refl, refl))

atfork_child-list_example :
    (((atfork_child world 3 process).sys, (atfork_child world 3 process).errno)
      ≡ child_frees world (2 ∷ 3 ∷ []) process.heap (process.sys, process.errno))
    × Linked (atfork_child world 3 process).heap 100 []
    × ((atfork_child world 3 process).key ≡ 0)
    × ((atfork_child world 3 process).ve_buff_using_flag ≡ false)
    × ((atfork_child world 3 process).list_locked ≡ false)
    × ((atfork_child world 3 process).sigmask ≡ 0)
atfork_child-list_example = atfork_child-list world 3 (2 ∷ 3 ∷ []) process listed (omega arith)
