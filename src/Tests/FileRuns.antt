-- ===== src/Tests/FileRuns.antt =====
-- Requests of 10 MB on a file of 9 MB, with an engine that never fails.
use libsysve.Prelude.{ℕ, ◌+◌, ◌-◌, ◌^◌, false}
use Prim.Native.Nat.{min}
use libsysve.Acc.Vh.{accepted}
use libsysve.Acc.Write
use libsysve.Acc.Write.Types.{wrote}
use libsysve.Acc.Iov.Spread.{Spread}

abbrev counter : ℕ → ℕ
counter t = t

-- A disk with 9 MB of room.
abbrev disk : Write.Env ℕ (Unit {0})
disk = record {
  second_flag = 2 ^ 61;
  write = λ k r f. let n = min r.size (9437184 - k) in (wrote n, k + n);
  post = λ d t. (accepted 0 false, d);
  wait = λ d h. (0, d);
}
