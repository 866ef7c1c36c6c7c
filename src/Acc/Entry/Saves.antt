-- ===== src/Acc/Entry/Saves.antt =====
-- Writes to regular files, with a DMA engine that neither refuses nor fails: the file gets what one
-- system call for all of it would give it.
use libsysve.Acc.Process.{Process}
use libsysve.Acc.Write
