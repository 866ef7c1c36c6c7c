-- ===== src/Acc/Write.antt =====
-- The write side of src/accelerated_io.c: `ve_accelerated_io_write_pwrite` and
-- `ve_accelerated_io_writev_pwritev`. The two functions share their text but for the way in which the
-- caller's data fills a VE buffer, which is the parameter `fill` here.
-- The two halves of the VE and VH buffers are slots 0 and 1, each a memory of its own.
pub mod Types
pub mod Plain
pub mod Step
pub mod Call
pub mod Release
pub mod Drain
pub mod Issue
pub mod Rounds
pub mod Body
pub mod Refine
pub mod Seen
pub mod Watch
pub mod Source
pub mod File
use libsysve.Prelude.{
  ℕ, zero, suc, ◌+◌, ◌-◌, ◌*◌, ◌/◌, ◌%◌, ◌^◌, Bool, true, false, Option, none, some, ◌==◌, ltb, leb,
  if◌then◌else◌, not, Bytes, copy, update,
}
use libsysve.Prelude.Int.{ℤ, pos, negsuc, ◌+ℤ◌, minus_one}
use libsysve.Acc.Read.Types.{Result, Job}
use libsysve.Acc.Write.Types.{WriteReply, failed, wrote, Chunk}
use libsysve.Acc.Control.{Outcome, go, stop, ◌>>=◌, proceed, rounds}
use libsysve.Acc.Windows.{vh_after, ve_after}
use libsysve.Acc.Vh.{
  Request, Transfer, PostReply, accepted, refused, AccIoInfo, buff_nparas, paras_size, eio,
  get_dma_size, mark_second, ve_find_min_posted,
}

-- What is not in the file: the VH's system calls over `K`, which see the bytes of the VH buffer, and
-- `ve_dma_post` and `ve_dma_wait` over the engine's state `D`.
pub record Env (K D : Type 0) : Type 0 where
  pub second_flag : ℕ
  pub write : K → Request → Bytes → WriteReply × K
  pub post : D → Transfer → PostReply × D
  pub wait : D → ℕ → ℕ × D

-- The locals of the functions, and what they reach.
pub record St (K D T : Type 0) : Type 0 where
  pub kernel : K
  pub dma : D
  pub source : T
  pub errno : ℕ
  pub vh : ℕ → Bytes
  pub ve : ℕ → Bytes
  pub moved : ℕ → Bool
  pub handle : ℕ → ℕ
  pub order : ℕ → Transfer
  pub vh_buff_and_flag : ℕ → ℕ
  pub posted : ℕ → Option ℕ
  pub need_write_in_size : ℕ → ℕ
  pub dma_size : ℕ → ℕ
  pub ofs : ℕ
  pub transfer_size : ℕ
  pub exit_result : ℤ
  pub errno_bak : ℕ
  pub data_err : Bool

-- `0 == posted[j]`
abbrev pub is_first : Option ℕ → Bool
is_first none = false
is_first (some i) = i == 0

module _ {K D T : Type 0} (e : Env K D) (fill : T → ℕ → Chunk T) (io : AccIoInfo) (job : Job) where
  -- The slot's VH bytes once the transfer that was posted for it is over.
  unfoldable pub arrived : St K D T → ℕ → Bytes
  arrived s j = if s.moved j then s.vh j else copy (s.vh j) 0 (s.ve j) (s.dma_size j)

  -- `dma_ret = ve_dma_wait(&vedma_handle[j])`
  unfoldable pub wait_dma : ℕ → St K D T → ℕ × St K D T
  wait_dma j s =
      let (dma_ret, d) = e.wait s.dma (s.handle j) in
      (
        dma_ret,
        record s {
          dma = d;
          vh = if s.moved j then s.vh else vh_after io (s.order j) s.vh s.ve;
          ve = if s.moved j then s.ve else ve_after io (s.order j) s.vh s.ve;
          moved = update s.moved j true;
        },
      )

  -- The failed wait: `exit_result = FAIL; errno_bak = EIO; data_err = 1`
  unfoldable pub dma_failed : St K D T → St K D T
  dma_failed s = record s { exit_result = minus_one; errno_bak = eio; data_err = true }

  -- `write_in_size = syscall(syscall_num, fd, vh_buff_and_flag[j], size, ofs)`
  unfoldable pub call : ℕ → ℕ → St K D T → WriteReply × K
  call j size s =
      e.write s.kernel
        (record {
          number = job.number;
          fd = job.fd;
          buf = s.vh_buff_and_flag j;
          size = size;
          ofs = s.ofs;
        })
        (s.vh j)

  -- The two `if`s at the top of the loop's body.
  unfoldable pub prepare : ℕ → St K D T → St K D T
  prepare i s =
      let s' = record s {
        vh_buff_and_flag =
            if i == 1 then mark_second e.second_flag s.vh_buff_and_flag else s.vh_buff_and_flag;
      } in
      record s' {
        transfer_size =
            if i == rounds job.count - 1
            then job.count - s'.transfer_size * i
            else s'.transfer_size;
      }

  -- What follows the call of the loop's body.
  unfoldable pub retired : ℕ → St K D T → WriteReply × K → Outcome (St K D T)
  retired j s (failed err, k) = stop (record s {
    kernel = k;
    errno_bak = if is_first (s.posted j) then err else s.errno_bak;
    exit_result = if is_first (s.posted j) then minus_one else s.exit_result;
    errno = 0;
    data_err = true;
    posted = update s.posted j none;
  })
  retired j s (wrote n, k) =
      if n == 0
      then stop (record s { kernel = k; data_err = true; posted = update s.posted j none })
      else (let s' = record s {
        kernel = k;
        exit_result = s.exit_result +ℤ pos n;
        ofs = s.ofs + n;
      } in
          if ltb n paras_size
          then stop (record s' { data_err = true; posted = update s.posted j none })
          else go s')

  -- From the third round on the slot's former chunk is finished first.
  unfoldable pub retire : ℕ → ℕ → St K D T → Outcome (St K D T)
  retire i j s =
      if ltb i buff_nparas
      then go s
      else (let (dma_ret, s') = wait_dma j s in
          if leb 1 dma_ret
          then (let f = dma_failed s' in stop (record f { posted = update f.posted j none }))
          else retired j s' (call j paras_size s'))

  -- What follows `ve_dma_post` of the transfer `t`, `chunk` being what was copied to the VE buffer.
  unfoldable pub post_chunk :
      ℕ → ℕ → Chunk T → Transfer → St K D T → PostReply × D → Outcome (St K D T)
  post_chunk i j chunk t s (refused, d) = stop (record s {
    dma = d;
    source = chunk.rest;
    exit_result = minus_one;
    errno_bak = eio;
    posted = update s.posted j none;
    data_err = true;
  })
  post_chunk i j chunk t s (accepted h now, d) = go (record s {
    dma = d;
    source = chunk.rest;
    handle = update s.handle j h;
    order = update s.order j t;
    moved = update s.moved j now;
    dma_size = update s.dma_size j (get_dma_size s.transfer_size);
    vh = if now then vh_after io t s.vh s.ve else s.vh;
    ve = if now then ve_after io t s.vh s.ve else s.ve;
    posted = update s.posted j (some i);
    need_write_in_size = update s.need_write_in_size j (s.transfer_size - chunk.less);
  })

  -- `ve_dma_post` of the transfer `t`, and what follows.
  abbrev pub start_transfer : ℕ → ℕ → Chunk T → Transfer → St K D T → Outcome (St K D T)
  start_transfer i j chunk t s = post_chunk i j chunk t s (e.post s.dma t)

  -- Copy the caller's data to the VE buffer, and start its transfer.
  unfoldable pub issue : ℕ → ℕ → St K D T → Outcome (St K D T)
  issue i j s =
      let chunk = fill s.source s.transfer_size in
      start_transfer i j chunk
        (record { dst = io.vh_vehva j; src = io.ve_vehva j; size = get_dma_size s.transfer_size })
        (record s {
          ve = update s.ve j (copy (s.ve j) 0 chunk.bytes (s.transfer_size - chunk.less));
        })

  -- The body of the loop.
  unfoldable pub round : ℕ → St K D T → Outcome (St K D T)
  round i s = retire i (i % buff_nparas) (prepare i s) >>= issue i (i % buff_nparas)

  -- `for (; i < write_num; i++)` with `left` rounds to go.
  unfoldable pub write_loop : (left i : ℕ) → St K D T → St K D T
  write_loop zero i s = s
  write_loop (suc left) i s = proceed (round i s) (write_loop left (suc i))

  -- What follows the call of the final loop.
  unfoldable pub finished : ℕ → ℕ → St K D T → WriteReply × K → St K D T
  finished i size s (failed err, k) = record s {
    kernel = k;
    errno_bak = if i == 0 then err else s.errno_bak;
    exit_result = if i == 0 then minus_one else s.exit_result;
    errno = 0;
    data_err = true;
  }
  finished i size s (wrote n, k) =
      if n == 0 then record s { kernel = k; data_err = true } else record s {
        kernel = k;
        exit_result = s.exit_result +ℤ pos n;
        ofs = s.ofs + n;
        data_err = if ltb n size then true else s.data_err;
      }

  -- One round of the final loop, at the entry `posted[slot]`.
  unfoldable pub finish_posted : Option ℕ → St K D T → St K D T
  finish_posted none s = s
  finish_posted (some i) s =
      let j = i % buff_nparas in
      let (dma_ret, s') = wait_dma j s in
      let s'' = if leb 1 dma_ret then dma_failed s' else s' in
      if s''.data_err
      then s''
      else finished i (s''.need_write_in_size j) s'' (call j (s''.need_write_in_size j) s'')

  unfoldable pub finish_slot : ℕ → St K D T → St K D T
  finish_slot slot s = finish_posted (s.posted slot) s

  -- "Last 8MB": the chunks that are still under way, oldest first.
  unfoldable pub drain : St K D T → St K D T
  drain s =
      let min_k = ve_find_min_posted s.posted in
      finish_slot ((min_k + 1) % buff_nparas) (finish_slot ((min_k + 0) % buff_nparas) s)

  unfoldable pub result : St K D T → Result K (Unit {0})
  result s = record {
    ret = s.exit_result;
    errno = if s.errno_bak == 0 then s.errno else s.errno_bak;
    sink = tt;
    kernel = s.kernel;
  }

  -- The variables where the loop starts.
  abbrev pub start : K → D → T → ℕ → (ℕ → Bytes) → (ℕ → Bytes) → St K D T
  start k d source errno vh ve = record {
    kernel = k;
    dma = d;
    source = source;
    errno = errno;
    vh = vh;
    ve = ve;
    moved = λ _. false;
    handle = λ _. 0;
    order = λ _. record { dst = 0; src = 0; size = 0 };
    vh_buff_and_flag = io.vh_buff_and_flag;
    posted = λ _. none;
    need_write_in_size = λ _. 0;
    dma_size = λ _. 0;
    ofs = job.ofs;
    transfer_size = paras_size;
    exit_result = pos 0;
    errno_bak = 0;
    data_err = false;
  }

  -- All that follows a successful `ve_accelerated_io_pre`.
  unfoldable pub transfer : St K D T → Result K (Unit {0})
  transfer s = result (drain (write_loop (rounds job.count) 0 s))
