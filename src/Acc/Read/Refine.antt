-- ===== src/Acc/Read/Refine.antt =====
-- The overlapped read of src/accelerated_io.c against the plain one: the whole loop.
use libsysve.Prelude.{ℕ, zero, suc, ◌+◌, ◌-◌, ◌<◌, ◌≡◌, ◌⊎◌, refl, Bytes, arith}
use libsysve.Prelude.Int.{minus_one}
use libsysve.Acc.Vh.{AccIoInfo, eio}
use libsysve.Acc.Slots.{max_posted}
use libsysve.Acc.Read.Types.{Result, Job}
use libsysve.Acc.Read.Plain.{Progress, plain_read}
use libsysve.Acc.Control.{Outcome, go, stop, proceed, rounds}
use libsysve.Acc.Read.{Env, St, round, read_loop, drain, result, transfer, start}
use libsysve.Acc.Read.Step.{Sound, Good, Faulty}
use libsysve.Acc.Read.Drain.{drain-before}
use libsysve.Acc.Read.Rounds.{last, Sim, Follows}
use libsysve.Acc.Read.Body.{round-Follows}

module _ {K D T : Type 0} (e : Env K D) (put : T → Bytes → ℕ → T) (io : AccIoInfo) (job : Job)
    (ok : Sound e put io job) where
  -- One round of both, and whatever the loops do from there.
  proceed-Good :
      (i : ℕ) (out : Outcome (St K D T)) (plain : (Progress K T → Result K T) → Result K T)
      (loop : St K D T → St K D T) (next : Progress K T → Result K T)
      → Follows e put io job ok i out plain
      → ((s : St K D T) (p : Progress K T)
          → Sim e put io job ok (suc i) s p
          → Good e put io job (result e put io job (drain e put io job (loop s))) (next p))
      → Good e put io job (result e put io job (drain e put io job (proceed out loop))) (plain next)
  proceed-Good i (go s) plain loop next (p, sim, eq) rest = rw (eq next) (rest s p sim)
  proceed-Good i (stop s) plain loop next f rest = f next

  read_loop-Good :
      (left i : ℕ) (s : St K D T) (p : Progress K T)
      → i + left ≡ rounds job.count
      → rounds job.count < max_posted
      → Sim e put io job ok i s p
      → Good e put io job
          (result e put io job (drain e put io job (read_loop e put io job left i s)))
          (plain_read e.read put e.second_flag io.vh_buff_and_flag job
            (last e put io job ok)
            left
            i
            p)
  unfolding read_loop plain_read
  read_loop-Good zero i s p sum bound sim =
      drain-before e put io job i s p (omega arith) sim.clean sim.bak sim.slots sim.lands sim.agrees
  read_loop-Good (suc left) i s p sum bound sim =
      proceed-Good i (round e put io job i s) _ _ _
        (round-Follows e put io job ok i s p (omega arith) bound sim)
        (λ s' p' sim'. read_loop-Good left (suc i) s' p' (omega arith) bound sim')

  rounds_bound : rounds job.count < max_posted
  unfolding rounds
  rounds_bound = omega arith

  -- The overlapped read ends as a plain loop of reads does, with the same result, errno, delivered
  -- data and state of the VH; or it returns -1 with errno EIO, which needs a refused or failed DMA
  -- transfer.
  pub transfer-plain_read :
      (k : K) (d : D) (t : T) (errno : ℕ) (vh ve : ℕ → Bytes)
      → let out = transfer e put io job (start e put io job k d t errno vh ve) in
        (out
          ≡ plain_read e.read put e.second_flag io.vh_buff_and_flag job
              (rounds job.count - 1)
              (rounds job.count)
              0
              (record { kernel = k; sink = t; total = 0; ofs = job.ofs; errno = errno }))
        ⊎ ((out.ret ≡ minus_one) × (out.errno ≡ eio) × Faulty e)
  unfolding transfer
  transfer-plain_read k d t errno vh ve =
      read_loop-Good (rounds job.count) 0 (start e put io job k d t errno vh ve) _ (omega arith)
        rounds_bound
        (record {
          slots = (refl, refl);
          agrees = record { kernel = refl; sink = refl; total = refl; ofs = refl; errno = refl };
          clean = refl;
          bak = refl;
          lands = tt;
          buffers = refl;
          sized = λ lt. refl;
        })
