-- ===== src/Acc/Buffer.antt =====
-- The single user buffer of read, pread, write and pwrite in src/accelerated_io.c: the pointer `buf`
-- that moves on with each chunk.
use libsysve.Prelude.{ℕ, ◌+◌, ◌<◌, ◌≡◌, refl, Bytes, copy, copy-congr}
use libsysve.Acc.Write.Types.{Chunk}

-- The caller's memory and `buf`.
pub record Cursor : Type 0 where
  pub mem : Bytes
  pub buf : ℕ

-- `__libsysve_vec_memcpy(buf, ve_buff, n)`, and `buf` moves on.
unfoldable pub put_buffer : Cursor → Bytes → ℕ → Cursor
put_buffer c bytes n = record { mem = copy c.mem c.buf bytes n; buf = c.buf + n }

-- `__libsysve_vec_memcpy(ve_buff, buf, n)`, and `buf` moves on.
unfoldable pub fill_buffer : Bytes → ℕ → ℕ → Chunk ℕ
fill_buffer mem buf n = record { bytes = λ k. mem (buf + k); less = 0; rest = buf + n }

pub put_buffer-congr :
    (c : Cursor) (n : ℕ) (f g : Bytes)
    → ((k : ℕ) → k < n → f k ≡ g k)
    → put_buffer c f n ≡ put_buffer c g n
unfolding put_buffer
put_buffer-congr c n f g same = rw (copy-congr c.mem c.buf n f g same) refl
