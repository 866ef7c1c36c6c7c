-- ===== src/Acc/Read.antt =====
-- The read side of src/accelerated_io.c: `ve_accelerated_io_read_pread` and
-- `ve_accelerated_io_readv_preadv`. The two functions share their text but for the way in which a
-- filled VE buffer is handed to the caller, which is the parameter `put` here.
-- The two halves of the VE and VH buffers are slots 0 and 1; the DMA engine reaches them by the addresses
-- that are posted (Acc/Windows).
pub mod Types
pub mod Plain
pub mod Step
pub mod Drain
pub mod Issue
pub mod Rounds
pub mod Received
pub mod Body
pub mod Refine
pub mod Seen
pub mod Watch
pub mod File
use libsysve.Prelude.{
  ℕ, zero, suc, ◌+◌, ◌-◌, ◌*◌, ◌/◌, ◌%◌, ◌^◌, Bool, true, false, Option, none, some, ◌==◌, ltb, leb,
  if◌then◌else◌, not, Bytes, copy, update,
}
use libsysve.Prelude.Int.{ℤ, pos, negsuc, ◌+ℤ◌, minus_one}
use libsysve.Acc.Read.Types.{ReadReply, failed, got, Result, Job}
use libsysve.Acc.Control.{Outcome, go, stop, ◌>>=◌, proceed, rounds}
use libsysve.Acc.Windows.{vh_after, ve_after}
use libsysve.Acc.Vh.{
  Request, Transfer, PostReply, accepted, refused, AccIoInfo, buff_nparas, paras_size, eio,
  get_dma_size, mark_second, ve_find_min_posted,
}

-- What is not in the file: the VH's system calls over `K`, and `ve_dma_post` and `ve_dma_wait` over
-- the engine's state `D`. `wait` gives 0 or the exception bits.
pub record Env (K D : Type 0) : Type 0 where
  pub second_flag : ℕ
  pub read : K → Request → ReadReply × K
  pub post : D → Transfer → PostReply × D
  pub wait : D → ℕ → ℕ × D

-- The locals of the functions, and what they reach: the bytes of the VH's and the VE's buffers by slot, and
-- for each handle the transfer it was posted for (`order`) and whether its bytes have moved (`moved`). `read_out_size` is kept where it is read: for a
-- call that returned bytes.
pub record St (K D T : Type 0) : Type 0 where
  pub kernel : K
  pub dma : D
  pub sink : T
  pub errno : ℕ
  pub vh : ℕ → Bytes
  pub ve : ℕ → Bytes
  pub moved : ℕ → Bool
  pub handle : ℕ → ℕ
  pub order : ℕ → Transfer
  pub vh_buff_and_flag : ℕ → ℕ
  pub posted : ℕ → Option ℕ
  pub read_out_size : ℕ → ℕ
  pub ofs : ℕ
  pub transfer_size : ℕ
  pub exit_result : ℤ
  pub errno_bak : ℕ
  pub data_err : Bool

module _ {K D T : Type 0} (e : Env K D) (put : T → Bytes → ℕ → T) (io : AccIoInfo) (job : Job) where
  -- The slot's VE bytes once the transfer that was posted for it is over.
  unfoldable pub arrived : St K D T → ℕ → Bytes
  arrived s j =
      if s.moved j then s.ve j else copy (s.ve j) 0 (s.vh j) (get_dma_size (s.read_out_size j))

  -- `dma_ret = ve_dma_wait(&vedma_handle[j])`
  unfoldable pub wait_dma : ℕ → St K D T → ℕ × St K D T
  wait_dma j s =
      let (dma_ret, d) = e.wait s.dma (s.handle j) in
      (
        dma_ret,
        record s {
          dma = d;
          vh = if s.moved j then s.vh else vh_after io (s.order j) s.vh s.ve;
          ve = if s.moved j then s.ve else ve_after io (s.order j) s.vh s.ve;
          moved = update s.moved j true;
        },
      )

  -- The failed wait: `exit_result = FAIL; errno_bak = EIO; data_err = 1`
  unfoldable pub dma_failed : St K D T → St K D T
  dma_failed s = record s { exit_result = minus_one; errno_bak = eio; data_err = true }

  -- Copy the VE buffer to the user's, and count the bytes.
  unfoldable pub copy_out : ℕ → St K D T → St K D T
  copy_out j s = record s {
    sink = put s.sink (s.ve j) (s.read_out_size j);
    exit_result = s.exit_result +ℤ pos (s.read_out_size j);
  }

  -- The two `if`s at the top of the loop's body.
  unfoldable pub prepare : ℕ → St K D T → St K D T
  prepare i s =
      let s' = record s {
        vh_buff_and_flag =
            if i == 1 then mark_second e.second_flag s.vh_buff_and_flag else s.vh_buff_and_flag;
      } in
      record s' {
        transfer_size =
            if i == rounds job.count - 1
            then job.count - s'.transfer_size * i
            else s'.transfer_size;
      }

  -- From the third round on the slot's former chunk is finished first.
  unfoldable pub retire : ℕ → ℕ → St K D T → Outcome (St K D T)
  retire i j s =
      if ltb i buff_nparas
      then go s
      else (let (dma_ret, s') = wait_dma j s in
          if leb 1 dma_ret
          then (let f = dma_failed s' in stop (record f { posted = update f.posted j none }))
          else go (copy_out j s'))

  -- What follows `ve_dma_post` of the transfer `t`.
  unfoldable pub post_chunk : ℕ → ℕ → ℕ → Transfer → St K D T → PostReply × D → Outcome (St K D T)
  post_chunk i j n t s (refused, d) = stop (record s {
    dma = d;
    exit_result = minus_one;
    errno_bak = eio;
    ofs = s.ofs + s.transfer_size;
    posted = update s.posted j none;
    data_err = true;
  })
  post_chunk i j n t s (accepted h now, d) =
      let s' = record s {
        dma = d;
        handle = update s.handle j h;
        order = update s.order j t;
        moved = update s.moved j now;
        vh = if now then vh_after io t s.vh s.ve else s.vh;
        ve = if now then ve_after io t s.vh s.ve else s.ve;
        ofs = s.ofs + n;
        posted = update s.posted j (some i);
      } in
      if ltb n s.transfer_size then stop s' else go s'

  -- `ve_dma_post` of the transfer `t`, and what follows.
  abbrev pub start_transfer : ℕ → ℕ → ℕ → Transfer → St K D T → Outcome (St K D T)
  start_transfer i j n t s = post_chunk i j n t s (e.post s.dma t)

  -- What the system call returned.
  unfoldable pub receive : ℕ → ℕ → St K D T → ReadReply × K → Outcome (St K D T)
  receive i j s (failed err, k) = stop (record s {
    kernel = k;
    errno_bak = if i == 0 then err else s.errno_bak;
    exit_result = if i == 0 then minus_one else s.exit_result;
    errno = 0;
    posted = update s.posted j none;
  })
  receive i j s (got n bytes, k) =
      let s' = record s {
        kernel = k;
        vh = update s.vh j (copy (s.vh j) 0 bytes n);
        read_out_size = update s.read_out_size j n;
      } in
      if n == 0
      then stop (record s' { posted = update s.posted j none })
      else start_transfer i j n
          (record { dst = io.ve_vehva j; src = io.vh_vehva j; size = get_dma_size n }) s'

  unfoldable pub issue : ℕ → ℕ → St K D T → Outcome (St K D T)
  issue i j s = receive i j s (
      e.read s.kernel (record {
        number = job.number;
        fd = job.fd;
        buf = s.vh_buff_and_flag j;
        size = s.transfer_size;
        ofs = s.ofs;
      }))

  -- The body of the loop.
  unfoldable pub round : ℕ → St K D T → Outcome (St K D T)
  round i s = retire i (i % buff_nparas) (prepare i s) >>= issue i (i % buff_nparas)

  -- `for (; i < read_num; i++)` with `left` rounds to go.
  unfoldable pub read_loop : (left i : ℕ) → St K D T → St K D T
  read_loop zero i s = s
  read_loop (suc left) i s = proceed (round i s) (read_loop left (suc i))

  -- One round of the final loop, at the entry `posted[slot]`.
  unfoldable pub finish_posted : Option ℕ → St K D T → St K D T
  finish_posted none s = s
  finish_posted (some i) s =
      let j = i % buff_nparas in
      let (dma_ret, s') = wait_dma j s in
      let s'' = if leb 1 dma_ret then dma_failed s' else s' in
      if s''.data_err then s'' else copy_out j s''

  unfoldable pub finish_slot : ℕ → St K D T → St K D T
  finish_slot slot s = finish_posted (s.posted slot) s

  -- "Last 8MB": the chunks that are still under way, oldest first.
  unfoldable pub drain : St K D T → St K D T
  drain s =
      let min_k = ve_find_min_posted s.posted in
      finish_slot ((min_k + 1) % buff_nparas) (finish_slot ((min_k + 0) % buff_nparas) s)

  unfoldable pub result : St K D T → Result K T
  result s = record {
    ret = s.exit_result;
    errno = if s.errno_bak == 0 then s.errno else s.errno_bak;
    sink = s.sink;
    kernel = s.kernel;
  }

  -- The variables where the loop starts.
  abbrev pub start : K → D → T → ℕ → (ℕ → Bytes) → (ℕ → Bytes) → St K D T
  start k d sink errno vh ve = record {
    kernel = k;
    dma = d;
    sink = sink;
    errno = errno;
    vh = vh;
    ve = ve;
    moved = λ _. false;
    handle = λ _. 0;
    order = λ _. record { dst = 0; src = 0; size = 0 };
    vh_buff_and_flag = io.vh_buff_and_flag;
    posted = λ _. none;
    read_out_size = λ _. 0;
    ofs = job.ofs;
    transfer_size = paras_size;
    exit_result = pos 0;
    errno_bak = 0;
    data_err = false;
  }

  -- All that follows a successful `ve_accelerated_io_pre`.
  unfoldable pub transfer : St K D T → Result K T
  transfer s = result (drain (read_loop (rounds job.count) 0 s))
