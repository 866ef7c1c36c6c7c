-- ===== src/Acc/Entry/Writev.antt =====
-- What a writev or pwritev that has claimed the buffers sends: the bytes of its `iovec`s, one after another.
use libsysve.Prelude.{ℕ, ◌-◌, ◌≡◌, ◌≢◌, ◌==◌, if◌then◌else◌, leb, Bytes, List}
use libsysve.Acc.Vh.{AccIoInfo}
use libsysve.Acc.Control.{rounds}
use libsysve.Acc.Process.{AccIoResources, Process, World}
use libsysve.Acc.Resources.{success, pre, io_info_of}
use libsysve.Acc.Entry.{Numbers, Args, Direct}
use libsysve.Acc.Entry.Carry.{Regions}
use libsysve.Acc.Read.Types.{Result, Job}
use libsysve.Acc.Write
use libsysve.Acc.Write.Plain.{plain_write}
use libsysve.Acc.Iov.{Iovec, total_size}
use libsysve.Acc.Iov.Stream.{fill_stream}

module _ {K D : Type 0} (numbers : Numbers) (w : World (K × D)) (direct : Direct (K × D))
    (vh ve : ℕ → Bytes) (number : ℕ) (args : Args) (iov : List Iovec) (mem : Bytes)
    (p q : Process (K × D)) (r : AccIoResources) (some_count : args.count ≢ 0)
    (some_buf : args.buf ≢ 0) (claim : pre w p ≡ (success (io_info_of w.accelerated_io_flag r), q))
    (regions : Regions r) where
  abbrev io : AccIoInfo
  io = io_info_of w.accelerated_io_flag r

  abbrev pub writev_job : Job
  writev_job = record {
    number = if number == numbers.sys_pwritev then numbers.sys_pwrite64 else numbers.sys_write;
    fd = args.fd;
    count = total_size iov;
    ofs = args.ofs;
  }

  -- The plain loop of writes of 4 MB of the concatenation.
  abbrev pub plain_pwritev : Write.Env K D → Result K (Unit {0})
  plain_pwritev e =
      plain_write e.write (fill_stream mem iov) e.second_flag io.vh_buff_and_flag writev_job
        (rounds (total_size iov) - 1) (leb 2 (rounds (total_size iov))) (rounds (total_size iov)) 0
        (record { kernel = q.sys.0; source = 0; total = 0; ofs = args.ofs; errno = q.errno })
