-- ===== src/Acc/Write/Refine.antt =====
-- The overlapped write against the plain one: the whole loop.
use libsysve.Prelude.{ℕ, zero, suc, ◌+◌, ◌-◌, ◌<◌, ◌≡◌, ◌⊎◌, refl, leb, Bytes, arith}
use libsysve.Prelude.Int.{minus_one}
use libsysve.Acc.Vh.{AccIoInfo, eio}
use libsysve.Acc.Control.{Outcome, go, stop, proceed, rounds}
use libsysve.Acc.Slots.{max_posted}
use libsysve.Acc.Read.Types.{Result, Job}
use libsysve.Acc.Write.Types.{Chunk}
use libsysve.Acc.Write.Plain.{Progress, plain_write}
use libsysve.Acc.Write.{Env, St, drain, round, write_loop, transfer, start}
use libsysve.Acc.Write.Step.{Sound, Faulty, size_of, source_at, drain-Settled}
use libsysve.Acc.Write.Drain.{Ends, drain-idle, drain-one, drain-two}
use libsysve.Acc.Write.Rounds.{marked, behind, Sim, Follows}
use libsysve.Acc.Write.Body.{round-Follows}

module _ {K D T : Type 0} (e : Env K D) (fill : T → ℕ → Chunk T) (io : AccIoInfo) (job : Job)
    (ok : Sound e io job) (origin : T)
    (whole : (i : ℕ)
      → i < rounds job.count
      → (fill (source_at e fill io job origin i) (size_of e fill io job i)).less ≡ 0) where
  abbrev GoodDrain : St K D T → Result K (Unit {0}) → Type 0
  GoodDrain s out =
      Ends e fill io job ok (marked e fill io job ok origin whole) origin (drain e fill io job s)
        out

  drain-behind :
      (i : ℕ) (s : St K D T) (p : Progress K T)
      → i ≡ rounds job.count
      → i < max_posted
      → Sim e fill io job ok origin whole i s p
      → GoodDrain s (behind e fill io job ok origin whole i 0 p)
  drain-behind zero s p end small sim =
      drain-idle e fill io job ok (marked e fill io job ok origin whole) origin 0 s p sim.slots
        sim.synced
  drain-behind (suc zero) s p end small sim =
      drain-one e fill io job ok (marked e fill io job ok origin whole) origin 0 s p (omega arith)
        sim.slots (ground (arith, sim.buffers)) sim.synced sim.held
  drain-behind (suc (suc m)) s p end small sim =
      drain-two e fill io job ok (marked e fill io job ok origin whole) origin m s p (omega arith)
        sim.slots (ground (arith, sim.buffers)) sim.synced sim.held

  proceed-Good :
      (i left : ℕ) (out : Outcome (St K D T)) (p : Progress K T) (loop : St K D T → St K D T)
      → Follows e fill io job ok origin whole i out p
      → ((s : St K D T) (p' : Progress K T)
          → Sim e fill io job ok origin whole (suc i) s p'
          → GoodDrain (loop s) (behind e fill io job ok origin whole (suc i) left p'))
      → GoodDrain (proceed out loop) (behind e fill io job ok origin whole i (suc left) p)
  proceed-Good i left (go s) p loop (p', sim, steps) rest = rw (steps left) (rest s p' sim)
  proceed-Good i left (stop s) p loop settled rest = drain-Settled e fill io job s _ (settled left)

  write_loop-Good :
      (left i : ℕ) (s : St K D T) (p : Progress K T)
      → i + left ≡ rounds job.count
      → rounds job.count < max_posted
      → Sim e fill io job ok origin whole i s p
      → GoodDrain
          (write_loop e fill io job left i s)
          (behind e fill io job ok origin whole i left p)
  unfolding write_loop
  write_loop-Good zero i s p sum bound sim = drain-behind i s p (omega arith) (omega arith) sim
  write_loop-Good (suc left) i s p sum bound sim =
      proceed-Good i left (round e fill io job i s) p _
        (round-Follows e fill io job ok origin whole i s p (omega arith) sim)
        (λ s' p' sim'. write_loop-Good left (suc i) s' p' (omega arith) bound sim')

  rounds_bound : rounds job.count < max_posted
  unfolding rounds
  rounds_bound = omega arith

  -- The overlapped write ends as a plain loop of writes does, with the same result, errno and
  -- state of the VH; or it returns -1 with errno EIO, which needs a refused or failed DMA
  -- transfer. The VH looks at the bytes of the request alone, and every chunk is filled entirely.
  pub transfer-plain_write :
      (k : K) (d : D) (errno : ℕ) (vh ve : ℕ → Bytes)
      → let out = transfer e fill io job (start e fill io job k d origin errno vh ve) in
        (out
          ≡ plain_write e.write fill e.second_flag io.vh_buff_and_flag job
              (rounds job.count - 1)
              (leb 2 (rounds job.count))
              (rounds job.count)
              0
              (record { kernel = k; source = origin; total = 0; ofs = job.ofs; errno = errno }))
        ⊎ ((out.ret ≡ minus_one) × (out.errno ≡ eio) × Faulty e)
  unfolding transfer source_at
  transfer-plain_write k d errno vh ve =
      write_loop-Good (rounds job.count) 0 (start e fill io job k d origin errno vh ve) _
        (omega arith) rounds_bound
        (record {
          slots = (refl, refl);
          held = tt;
          synced = record {
            kernel = refl;
            total = refl;
            ofs = refl;
            errno = refl;
            source = refl;
            clean = refl;
            bak = refl;
          };
          source = refl;
          buffers = refl;
          sized = λ lt. refl;
        })
