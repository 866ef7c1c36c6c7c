-- ===== src/Acc/Read/Types.antt =====
-- What a read is asked for and what comes back, shared by src/accelerated_io.c's loop and the plain
-- read that it is compared with.
use libsysve.Prelude.{ℕ, Bytes}
use libsysve.Prelude.Int.{ℤ}

-- -1 with `errno`, or a number of bytes that were put into the VH buffer.
pub data ReadReply : Type 0 where
  failed : ℕ → ReadReply
  got : ℕ → Bytes → ReadReply

-- What a call returns to the application.
pub record Result (K T : Type 0) : Type 0 where
  pub ret : ℤ
  pub errno : ℕ
  pub sink : T
  pub kernel : K

-- What the call is asked to do: `count` is the total size, `number` the call for each chunk.
pub record Job : Type 0 where
  pub number : ℕ
  pub fd : ℕ
  pub count : ℕ
  pub ofs : ℕ
