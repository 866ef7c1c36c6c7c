-- ===== src/Acc/Entry/Hooked.antt =====
-- The eight functions that src/accelerated_io.c puts in the C library's hooks.
use libsysve.Prelude.{ℕ, Bytes, List}
use libsysve.Acc.Process.{Process, World}
use libsysve.Acc.Read
use libsysve.Acc.Write
use libsysve.Acc.Iov.{Iovec}
use libsysve.Acc.Entry.{
  Numbers, Answer, Direct, read_pread, readv_preadv, write_pwrite, writev_pwritev,
}

module _ {K D : Type 0} (numbers : Numbers) (w : World (K × D)) (direct : Direct (K × D))
    (vh ve : ℕ → Bytes) (e : Read.Env K D) (e' : Write.Env K D) (mem : Bytes)
    (p : Process (K × D)) where
  unfoldable pub accelerated_io_read : (fd buf count : ℕ) → Answer (K × D)
  accelerated_io_read fd buf count =
      read_pread numbers w direct vh ve e numbers.sys_read
        (record { fd = fd; buf = buf; count = count; ofs = 0 }) mem p

  unfoldable pub accelerated_io_pread : (fd buf count ofs : ℕ) → Answer (K × D)
  accelerated_io_pread fd buf count ofs =
      read_pread numbers w direct vh ve e numbers.sys_pread64
        (record { fd = fd; buf = buf; count = count; ofs = ofs }) mem p

  -- `values` are the `count` elements at `iov`.
  unfoldable pub accelerated_io_readv : (fd iov : ℕ) → List Iovec → (count : ℕ) → Answer (K × D)
  accelerated_io_readv fd iov values count =
      readv_preadv numbers w direct vh ve e numbers.sys_readv
        (record { fd = fd; buf = iov; count = count; ofs = 0 }) values mem p

  unfoldable pub accelerated_io_preadv :
      (fd iov : ℕ) → List Iovec → (count ofs : ℕ) → Answer (K × D)
  accelerated_io_preadv fd iov values count ofs =
      readv_preadv numbers w direct vh ve e numbers.sys_preadv
        (record { fd = fd; buf = iov; count = count; ofs = ofs }) values mem p

  unfoldable pub accelerated_io_write : (fd buf count : ℕ) → Answer (K × D)
  accelerated_io_write fd buf count =
      write_pwrite numbers w direct vh ve e' numbers.sys_write
        (record { fd = fd; buf = buf; count = count; ofs = 0 }) mem p

  unfoldable pub accelerated_io_pwrite : (fd buf count ofs : ℕ) → Answer (K × D)
  accelerated_io_pwrite fd buf count ofs =
      write_pwrite numbers w direct vh ve e' numbers.sys_pwrite64
        (record { fd = fd; buf = buf; count = count; ofs = ofs }) mem p

  unfoldable pub accelerated_io_writev : (fd iov : ℕ) → List Iovec → (count : ℕ) → Answer (K × D)
  accelerated_io_writev fd iov values count =
      writev_pwritev numbers w direct vh ve e' numbers.sys_writev
        (record { fd = fd; buf = iov; count = count; ofs = 0 }) values mem p

  unfoldable pub accelerated_io_pwritev :
      (fd iov : ℕ) → List Iovec → (count ofs : ℕ) → Answer (K × D)
  accelerated_io_pwritev fd iov values count ofs =
      writev_pwritev numbers w direct vh ve e' numbers.sys_pwritev
        (record { fd = fd; buf = iov; count = count; ofs = ofs }) values mem p
