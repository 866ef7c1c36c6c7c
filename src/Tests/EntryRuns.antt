-- ===== src/Tests/EntryRuns.antt =====
-- Whole requests of src/accelerated_io.c, in a thread that has its buffers already.
use libsysve.Prelude.{
  ℕ, ◌+◌, ◌*◌, ◌-◌, ◌%◌, ◌^◌, ◌≡◌, refl, Bool, true, false, none, List, [], ◌∷◌, Bytes, arith,
}
use Prim.Native.Nat.{min}
use libsysve.Prelude.Int.{pos}
use libsysve.Acc.Read.Step.{Honest}
use libsysve.Acc.Vh.{accepted}
use libsysve.Acc.Process.{AccIoResources, accelerated_io, none_set, Process, World}
use libsysve.Acc.Resources.{success, pre, own, claimed, swapped, unless_pdma, io_info_of}
use libsysve.Acc.Read.Types.{got}
use libsysve.Acc.Read
use libsysve.Acc.Write.Types.{wrote}
use libsysve.Acc.Write
use libsysve.Acc.Iov.{Iovec}
use libsysve.Acc.Entry.{
  Numbers, Args, Direct, read_pread, readv_preadv, write_pwrite, writev_pwritev,
}
use libsysve.Acc.Entry.Keeps.{Quiet, entries-Quiet}
use libsysve.Acc.Entry.Carry.{Regions}

abbrev pub Outside : Type 0
Outside = ℕ × Unit {0}

abbrev pub world : World Outside
world = record {
  acc_io_sigset = 2 ^ 32 - 1;
  list_head = 100;
  accelerated_io_flag = 2 ^ 62;
  setting_pdma = λ k. none;
  setting_atomic = λ k. none;
  ve_dma_init = λ k e. (pos 0, (k, e));
  malloc = λ k e. (0, (k, 12));
  ve_io_buff_of = λ a. 4096 * a;
  init2 = λ b k e. (none, (k, e));
  setspecific = λ a k e. (true, (k, e));
  free_vh_buf = λ a k e. (pos 0, (k, e));
  unregister_dmaatb = λ a b k e. (pos 0, (k, e));
  free = λ a k. k;
}

abbrev pub resources : AccIoResources
resources = record {
  local_vehva = 2 ^ 40;
  vehva = 2 ^ 41;
  vh_buff = 2 ^ 42;
  ve_io_buff = 2 ^ 20;
  next = 0;
  prev = 100;
}

abbrev pub process : Bool → Process Outside
process using = record {
  sys = (0, tt);
  errno = 3;
  constructor_result = accelerated_io;
  ve_buff_using_flag = using;
  key = 1;
  heap = λ a. resources;
  hooks = record {
    read_hook = none_set;
    pread_hook = none_set;
    readv_hook = none_set;
    preadv_hook = none_set;
    write_hook = none_set;
    pwrite_hook = none_set;
    writev_hook = none_set;
    pwritev_hook = none_set;
  };
  sigmask = 0;
  acc_io_sigset_old = 0;
  list_locked = false;
}

abbrev pub numbers : Numbers
numbers = record {
  sys_read = 0;
  sys_pread64 = 17;
  sys_readv = 19;
  sys_preadv = 295;
  sys_write = 1;
  sys_pwrite64 = 18;
  sys_writev = 20;
  sys_pwritev = 296;
}

abbrev pub direct : Direct Outside
direct number args mem k errno = (pos 0, mem, k, errno)

abbrev pub zeroed : ℕ → Bytes
zeroed j k = 0

-- A file of 9 MB, at an engine that is late; and a disk that takes all.
abbrev pub reader : Read.Env ℕ (Unit {0})
reader = record {
  second_flag = 2 ^ 61;
  read = λ k r. let n = min r.size (9437184 - k) in (got n (λ x. (k + x) % 256), k + n);
  post = λ d t. (accepted 0 false, d);
  wait = λ d h. (0, d);
}

abbrev pub writer : Write.Env ℕ (Unit {0})
writer = record {
  second_flag = 2 ^ 61;
  write = λ k r f. (wrote r.size, k + r.size);
  post = λ d t. (accepted 0 false, d);
  wait = λ d h. (0, d);
}

abbrev pub args : Args
args = record { fd = 3; buf = 4096; count = 10485760; ofs = 0 }

abbrev pub iov_args : Args
iov_args = record { fd = 3; buf = 4096; count = 2; ofs = 0 }

abbrev pub iov : List Iovec
iov =
    record { iov_base = 65536; iov_len = 5000000 }
    ∷ record { iov_base = 2 ^ 30; iov_len = 5000000 }
    ∷ []

abbrev pub memory : Bytes
memory k = k % 256

pub regions : Regions resources
regions = omega arith

pub reader-Honest : Honest reader.read
reader-Honest k r n bytes q = ground (arith, q)

pub claimed_run :
    pre world (process false) ≡ (success (io_info_of (2 ^ 62) resources), process true)
unfolding pre unless_pdma swapped own claimed
claimed_run = refl

entries-Quiet_example :
    Quiet
      (process true)
      (read_pread numbers world direct zeroed zeroed reader 0 args memory (process true)).process
    × Quiet
        (process true)
        (readv_preadv numbers world direct zeroed zeroed reader 0 args iov memory
          (process true)).process
    × Quiet
        (process true)
        (write_pwrite numbers world direct zeroed zeroed writer 0 args memory
          (process true)).process
    × Quiet
        (process true)
        (writev_pwritev numbers world direct zeroed zeroed writer 0 args iov memory
          (process true)).process
entries-Quiet_example =
    entries-Quiet numbers world direct zeroed zeroed reader writer 0 args iov memory (process true)
