-- ===== src/Tests.antt =====
-- Runs at concrete inputs.
mod TransferRuns
mod ResourceRuns
mod ThreadRuns
mod EntryRuns
mod FileRuns
mod IovRuns
mod VhcallRuns
mod SysveRuns
mod AioRuns
mod DmaRuns
mod RingRuns
mod MemcpyRuns
