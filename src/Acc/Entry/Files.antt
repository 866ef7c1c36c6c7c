-- ===== src/Acc/Entry/Files.antt =====
-- Requests on regular files, with a DMA engine that neither refuses nor fails: what the caller has in
-- the end is what one system call for all of it would give.
use libsysve.Prelude.{ℕ, ◌+◌, ◌≡◌, Bytes, List, copy}
use libsysve.Acc.Process.{Process}
use libsysve.Acc.Read
use libsysve.Acc.Buffer.{Cursor}
use libsysve.Acc.Iov.{Iovec, Scatter}
use libsysve.Acc.Iov.Gather.{AtPlace}
use libsysve.Acc.Iov.Spread.{Spread}

-- `t` bytes of the file stand in the user's buffer.
abbrev Copied : Bytes → ℕ → Bytes → ℕ → Cursor → Type 0
Copied mem buf contents t c = c ≡ record { mem = copy mem buf contents t; buf = buf + t }

-- `t` bytes of the file stand in the caller's iovecs.
abbrev SpreadTo : Bytes → List Iovec → Bytes → ℕ → Scatter → Type 0
SpreadTo mem iov contents t s = Spread iov 0 t contents mem s.mem × AtPlace iov t s.place
