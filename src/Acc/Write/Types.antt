-- ===== src/Acc/Write/Types.antt =====
-- What a write is asked for and what comes back, shared by the loop of src/accelerated_io.c and the
-- plain write that it is compared with.
use libsysve.Prelude.{ℕ, Bytes}

-- -1 with `errno`, or a number of bytes that were taken.
pub data WriteReply : Type 0 where
  failed : ℕ → WriteReply
  wrote : ℕ → WriteReply

-- The outcome of filling a VE buffer from the caller's data: the bytes, the room that is left in the
-- buffer (`ve_buff_size_less`), and the place from which to go on.
pub record Chunk (T : Type 0) : Type 0 where
  pub bytes : Bytes
  pub less : ℕ
  pub rest : T
