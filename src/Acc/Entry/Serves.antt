-- ===== src/Acc/Entry/Serves.antt =====
-- What a request that has claimed the buffers delivers, against plain system calls on its chunks.
use libsysve.Prelude.{ℕ, ◌-◌, ◌≡◌, ◌≢◌, ◌==◌, if◌then◌else◌, leb, Bytes, List}
use libsysve.Acc.Vh.{AccIoInfo}
use libsysve.Acc.Control.{rounds}
use libsysve.Acc.Process.{AccIoResources, Process, World}
use libsysve.Acc.Resources.{success, pre, io_info_of}
use libsysve.Acc.Entry.{Numbers, Args, Direct}
use libsysve.Acc.Read
use libsysve.Acc.Read.Types.{Result, Job}
use libsysve.Acc.Read.Plain.{plain_read}
use libsysve.Acc.Write
use libsysve.Acc.Write.Plain.{plain_write}
use libsysve.Acc.Buffer.{Cursor, put_buffer, fill_buffer}
use libsysve.Acc.Iov.{Iovec, Scatter, scatter, total_size}
use libsysve.Acc.Entry.Carry.{Regions}

module _ {K D : Type 0} (numbers : Numbers) (w : World (K × D)) (direct : Direct (K × D))
    (vh ve : ℕ → Bytes) (number : ℕ) (args : Args) (mem : Bytes) (p q : Process (K × D))
    (r : AccIoResources) (some_count : args.count ≢ 0) (some_buf : args.buf ≢ 0)
    (claim : pre w p ≡ (success (io_info_of w.accelerated_io_flag r), q))
    (regions : Regions r) where
  abbrev io : AccIoInfo
  io = io_info_of w.accelerated_io_flag r

  abbrev pub read_job : Job
  read_job = record { number = number; fd = args.fd; count = args.count; ofs = args.ofs }

  abbrev pub readv_job : List Iovec → Job
  readv_job iov = record {
    number = if number == numbers.sys_preadv then numbers.sys_pread64 else numbers.sys_read;
    fd = args.fd;
    count = total_size iov;
    ofs = args.ofs;
  }

  -- The plain loops of system calls on chunks of 4 MB.
  abbrev pub plain_pread : Read.Env K D → Result K Cursor
  plain_pread e =
      plain_read e.read put_buffer e.second_flag io.vh_buff_and_flag read_job
        (rounds args.count - 1) (rounds args.count) 0
        (record {
          kernel = q.sys.0;
          sink = record { mem = mem; buf = args.buf };
          total = 0;
          ofs = args.ofs;
          errno = q.errno;
        })

  abbrev pub plain_preadv : Read.Env K D → List Iovec → Result K Scatter
  plain_preadv e iov =
      plain_read e.read (scatter iov) e.second_flag io.vh_buff_and_flag (readv_job iov)
        (rounds (total_size iov) - 1) (rounds (total_size iov)) 0
        (record {
          kernel = q.sys.0;
          sink = record { mem = mem; place = record { next_iov_num = 0; iov_len_done = 0 } };
          total = 0;
          ofs = args.ofs;
          errno = q.errno;
        })

  abbrev pub plain_pwrite : Write.Env K D → Result K (Unit {0})
  plain_pwrite e =
      plain_write e.write (fill_buffer mem) e.second_flag io.vh_buff_and_flag read_job
        (rounds args.count - 1) (leb 2 (rounds args.count)) (rounds args.count) 0
        (record { kernel = q.sys.0; source = args.buf; total = 0; ofs = args.ofs; errno = q.errno })
