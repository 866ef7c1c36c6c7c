-- ===== src/Acc/Entry.antt =====
-- The functions of src/accelerated_io.c that the C library's hooks call: the early returns, the claim
-- of the buffers, the transfer, and the plain system call when there are no buffers.
pub mod Keeps
pub mod Carry
pub mod Serves
pub mod Writev
pub mod Files
pub mod Saves
pub mod Hooked
use libsysve.Prelude.{ℕ, ◌+◌, ◌-◌, Bool, true, false, ◌==◌, if◌then◌else◌, Bytes, List, [], ◌∷◌}
use libsysve.Prelude.Int.{ℤ, minus_one}
use libsysve.Acc.Vh.{AccIoInfo, efault}
use libsysve.Acc.Control.{rounds}
use libsysve.Acc.Process.{
  Process, World, Hook, none_set, library, other, Hooks, Constructed, pdma_io,
}
use libsysve.Acc.Resources.{Claim, success, fail, nobuf, pre, post}
use libsysve.Acc.Read.Types.{Result, Job}
use libsysve.Acc.Read
use libsysve.Acc.Write
use libsysve.Acc.Buffer.{Cursor, put_buffer, fill_buffer}
use libsysve.Acc.Iov.{Iovec, Scatter, Place, scatter, gather, total_size}

-- The numbers of the eight system calls.
pub record Numbers : Type 0 where
  pub sys_read : ℕ
  pub sys_pread64 : ℕ
  pub sys_readv : ℕ
  pub sys_preadv : ℕ
  pub sys_write : ℕ
  pub sys_pwrite64 : ℕ
  pub sys_writev : ℕ
  pub sys_pwritev : ℕ

-- The arguments `fd`, `buf` or `iov`, `count` and `ofs`.
pub record Args : Type 0 where
  pub fd : ℕ
  pub buf : ℕ
  pub count : ℕ
  pub ofs : ℕ

-- What the caller has in the end.
pub record Answer (S : Type 0) : Type 0 where
  pub ret : ℤ
  pub mem : Bytes
  pub process : Process S

-- `ve_accelerated_io_free_io_hook`
unfoldable pub free_io_hook : {S : Type 0} → Process S → Process S
free_io_hook p = record p {
  hooks = record {
    read_hook = none_set;
    pread_hook = none_set;
    readv_hook = none_set;
    preadv_hook = none_set;
    write_hook = none_set;
    pwrite_hook = none_set;
    writev_hook = none_set;
    pwritev_hook = none_set;
  };
}

-- One hook of `ve_accelerated_io_init`.
unfoldable pub take_hook : Hook → Hook
take_hook none_set = library
take_hook library = library
take_hook (other f) = other f

-- The constructor: `refused` says whether pthread_atfork, pthread_key_create or sigfillset failed.
unfoldable pub init : {S : Type 0} → Bool → Process S → Process S
init refused p = record p {
  hooks = record {
    read_hook = take_hook p.hooks.read_hook;
    pread_hook = take_hook p.hooks.pread_hook;
    readv_hook = take_hook p.hooks.readv_hook;
    preadv_hook = take_hook p.hooks.preadv_hook;
    write_hook = take_hook p.hooks.write_hook;
    pwrite_hook = take_hook p.hooks.pwrite_hook;
    writev_hook = take_hook p.hooks.writev_hook;
    pwritev_hook = take_hook p.hooks.pwritev_hook;
  };
  constructor_result = if refused then pdma_io else p.constructor_result;
}

-- `syscall(number, fd, buf, count, ofs)` on the caller's own buffers: the result and errno.
abbrev pub Direct : Type 0 → Type 0
Direct S = ℕ → Args → Bytes → S → ℕ → ℤ × Bytes × S × ℕ

unfoldable pub call_direct : {S : Type 0} → Direct S → ℕ → Args → Bytes → Process S → Answer S
call_direct direct number args mem p =
    let (ret, mem', s, errno) = direct number args mem p.sys p.errno in
    record { ret = ret; mem = mem'; process = record p { sys = s; errno = errno } }

-- What follows `ve_accelerated_io_pre`: `plain` is the system call, `moved` the transfer.
unfoldable pub offload :
    {S : Type 0}
    → (plain : Process S → Answer S) → (moved : AccIoInfo → Process S → Answer S)
    → Claim × Process S
    → Answer S
offload plain moved (fail, p) = plain (free_io_hook p)
offload plain moved (nobuf, p) = plain p
offload plain moved (success io, p) = let a = moved io p in record a { process = post a.process }

-- What the four functions share: the two early returns, then the request.
unfoldable pub serve :
    {S : Type 0}
    → World S
    → (plain : Process S → Answer S) → (moved : AccIoInfo → Process S → Answer S) → Args
    → Bytes
    → Process S
    → Answer S
serve w plain moved args mem p =
    if args.count == 0
    then plain p
    else (if args.buf == 0
        then record { ret = minus_one; mem = mem; process = record p { errno = efault } }
        else offload plain moved (pre w p))

module _ {K D : Type 0} (numbers : Numbers) (w : World (K × D)) (direct : Direct (K × D))
    (vh ve : ℕ → Bytes) where
  -- A read's transfer from `sink` on, and the memory that it leaves.
  unfoldable pub run_read :
      {T : Type 0}
      → Read.Env K D
      → (T → Bytes → ℕ → T)
      → Job
      → T
      → (T → Bytes)
      → AccIoInfo
      → Process (K × D)
      → Answer (K × D)
  run_read e put job sink mem_of io p =
      let s = Read.drain e put io job (
        Read.read_loop e put io job (rounds job.count) 0
          (Read.start e put io job p.sys.0 p.sys.1 sink p.errno vh ve)) in
      let r = Read.result e put io job s in
      record {
        ret = r.ret;
        mem = mem_of r.sink;
        process = record p { sys = (r.kernel, s.dma); errno = r.errno };
      }

  unfoldable pub run_write :
      {T : Type 0}
      → Write.Env K D
      → (T → ℕ → Write.Types.Chunk T)
      → Job
      → T
      → Bytes
      → AccIoInfo
      → Process (K × D)
      → Answer (K × D)
  run_write e fill job source mem io p =
      let s = Write.drain e fill io job (
        Write.write_loop e fill io job (rounds job.count) 0
          (Write.start e fill io job p.sys.0 p.sys.1 source p.errno vh ve)) in
      let r = Write.result e fill io job s in
      record {
        ret = r.ret;
        mem = mem;
        process = record p { sys = (r.kernel, s.dma); errno = r.errno };
      }

  unfoldable pub read_pread : Read.Env K D → ℕ → Args → Bytes → Process (K × D) → Answer (K × D)
  read_pread e number args mem =
      serve w (call_direct direct number args mem)
        (run_read e put_buffer
          (record { number = number; fd = args.fd; count = args.count; ofs = args.ofs })
          (record { mem = mem; buf = args.buf }) (λ c. c.mem))
        args mem

  -- `iov` is the array of `count` elements at `args.buf`.
  unfoldable pub readv_preadv :
      Read.Env K D → ℕ → Args → List Iovec → Bytes → Process (K × D) → Answer (K × D)
  readv_preadv e number args iov mem =
      serve w (call_direct direct number args mem)
        (run_read e (scatter iov)
          (record {
            number = if number == numbers.sys_preadv then numbers.sys_pread64 else numbers.sys_read;
            fd = args.fd;
            count = total_size iov;
            ofs = args.ofs;
          })
          (record { mem = mem; place = record { next_iov_num = 0; iov_len_done = 0 } })
          (λ s. s.mem))
        args mem

  unfoldable pub write_pwrite : Write.Env K D → ℕ → Args → Bytes → Process (K × D) → Answer (K × D)
  write_pwrite e number args mem =
      serve w (call_direct direct number args mem)
        (run_write e (fill_buffer mem)
          (record { number = number; fd = args.fd; count = args.count; ofs = args.ofs }) args.buf
          mem)
        args mem

  unfoldable pub writev_pwritev :
      Write.Env K D → ℕ → Args → List Iovec → Bytes → Process (K × D) → Answer (K × D)
  writev_pwritev e number args iov mem =
      serve w (call_direct direct number args mem)
        (run_write e (gather mem iov)
          (record {
            number =
                if number == numbers.sys_pwritev then numbers.sys_pwrite64 else numbers.sys_write;
            fd = args.fd;
            count = total_size iov;
            ofs = args.ofs;
          })
          (record { next_iov_num = 0; iov_len_done = 0 }) mem)
        args mem
