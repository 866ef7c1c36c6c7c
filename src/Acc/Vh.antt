-- ===== src/Acc/Vh.antt =====
-- What src/accelerated_io.c works on: its constants, the requests that it sends to the VH and to the
-- VE DMA engine, and the arithmetic that every transfer shares.
use Prim.Native.Nat.{bit_or}
use libsysve.Prelude.{
  ℕ, zero, suc, ◌+◌, ◌-◌, ◌*◌, ◌/◌, ◌^◌, Bool, Option, none, some, ltb, if◌then◌else◌,
}

-- BUFF_NPARAS, VE_BUFF_SIZE and PARAS_SIZE
abbrev pub buff_nparas : ℕ
buff_nparas = 2

abbrev pub ve_buff_size : ℕ
ve_buff_size = 8 * 1024 * 1024

abbrev pub paras_size : ℕ
paras_size = ve_buff_size / buff_nparas

-- Linux errno values.
abbrev pub eio : ℕ
eio = 5

abbrev pub efault : ℕ
efault = 14

-- The arguments of `syscall(number, fd, buf, size, ofs)`.
pub record Request : Type 0 where
  pub number : ℕ
  pub fd : ℕ
  pub buf : ℕ
  pub size : ℕ
  pub ofs : ℕ

-- The arguments of `ve_dma_post(dst, src, size, _)`.
pub record Transfer : Type 0 where
  pub dst : ℕ
  pub src : ℕ
  pub size : ℕ

-- `ve_dma_post` returns 0 and fills the handle, or returns -EAGAIN. The flag of `accepted` is the
-- engine's timing: the bytes move at once, or not before the wait.
pub data PostReply : Type 0 where
  accepted : ℕ → Bool → PostReply
  refused : PostReply

-- `acc_io_info`, less the constant mask.
pub record AccIoInfo : Type 0 where
  pub vh_buff_and_flag : ℕ → ℕ
  pub ve_buff : ℕ → ℕ
  pub vh_vehva : ℕ → ℕ
  pub ve_vehva : ℕ → ℕ

-- GET_DMA_SIZE: `(a + 3) & ~3`, for sizes that do not wrap.
unfoldable pub get_dma_size : ℕ → ℕ
get_dma_size a = (a + 3) / 4 * 4

-- The loop `for (j...) vh_buff_and_flag[j] |= VE_SECOND_SYS_CALL_FLAG`.
unfoldable pub mark_second : ℕ → (ℕ → ℕ) → ℕ → ℕ
mark_second flag addr j = if ltb j buff_nparas then bit_or (addr j) flag else addr j

-- One round of `__ve_find_min_posted`: `(min_k, min_v)` after looking at `posted[k]`.
-- `none` is the entry -1.
unfoldable pub min_posted_step : ℕ → Option ℕ → ℕ × ℕ → ℕ × ℕ
min_posted_step k none best = best
min_posted_step k (some v) (min_k, min_v) = if ltb v min_v then (k, v) else (min_k, min_v)

unfoldable pub min_posted_from : (left k : ℕ) → (ℕ → Option ℕ) → ℕ × ℕ → ℕ × ℕ
min_posted_from zero k posted best = best
min_posted_from (suc left) k posted best =
    min_posted_from left (suc k) posted (min_posted_step k (posted k) best)

unfoldable pub ve_find_min_posted : (ℕ → Option ℕ) → ℕ
unfolding min_posted_step min_posted_from
ve_find_min_posted posted = (min_posted_from buff_nparas 0 posted (0, 2 ^ 64 - 1)).0
