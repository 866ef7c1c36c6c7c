-- ===== src/Acc/Read/Body.antt =====
-- One round of the overlapped read of src/accelerated_io.c against the plain one.
use libsysve.Prelude.{
  ℕ, zero, suc, ◌-◌, ◌*◌, ◌%◌, ◌<◌, ◌≡◌, inl, inr, refl, true, ◌==◌, if◌then◌else◌, Bytes, arith,
}
use libsysve.Prelude.Int.{minus_one}
use libsysve.Acc.Vh.{AccIoInfo, eio, mark_second}
use libsysve.Acc.Slots.{max_posted, slots_differ}
use libsysve.Acc.Read.Types.{Job}
use libsysve.Acc.Read.Plain.{Progress, request}
use libsysve.Acc.Control.{Outcome, go, stop, ◌>>=◌, rounds}
use libsysve.Acc.Read.{Env, St, arrived, prepare, retire, issue, round}
use libsysve.Acc.Read.Step.{Sound, Lands, Faulty, drain-failed}
use libsysve.Acc.Read.Drain.{handed, beside-handed, retire-cases}
use libsysve.Acc.Read.Issue.{Free}
use libsysve.Acc.Read.Rounds.{last, answered, Sim, Follows, Ready}
use libsysve.Acc.Read.Received.{issue-Follows}

module _ {K D T : Type 0} (e : Env K D) (put : T → Bytes → ℕ → T) (io : AccIoInfo) (job : Job)
    (ok : Sound e put io job) where
  -- The first half of the body: the bookkeeping of the round, and the slot's former chunk.
  prepare-fields :
      (i : ℕ) (s : St K D T)
      → let s' = prepare e put io job i s in
        (s'.vh_buff_and_flag
          ≡ (if i == 1 then mark_second e.second_flag s.vh_buff_and_flag else s.vh_buff_and_flag))
        × (s'.transfer_size ≡ (
            if i == last e put io job ok then job.count - s.transfer_size * i else s.transfer_size))
  unfolding prepare
  prepare-fields i s = (refl, refl)

  prepared-Ready :
      (i : ℕ) (s t : St K D T) (p : Progress K T)
      → i < rounds job.count
      → rounds job.count < max_posted
      → Sim e put io job ok i s p
      → Free e put io job ok i t p
      → t.vh_buff_and_flag ≡ (prepare e put io job i s).vh_buff_and_flag
      → t.transfer_size ≡ (prepare e put io job i s).transfer_size
      → Ready e put io job ok i t p
  prepared-Ready i s t p lt bound sim free b z = record {
    free = free;
    small = lt;
    bound = bound;
    buffer_set = ground (arith, prepare-fields i s, sim.buffers);
    size_set = ground (arith, prepare-fields i s, sim.sized);
  }

  abbrev Retired : ℕ → Outcome (St K D T) → Progress K T → Type 0
  Retired i (go t) p = Ready e put io job ok i t p
  Retired i (stop t) p =
      (t.data_err ≡ true) × (t.exit_result ≡ minus_one) × (t.errno_bak ≡ eio) × Faulty e

  Free-zero :
      (s : St K D T) (p : Progress K T)
      → Sim e put io job ok zero s p
      → Free e put io job ok zero (prepare e put io job zero s) p
  unfolding prepare arrived
  Free-zero s p sim = record {
    other = sim.slots.1;
    agrees = record {
      kernel = sim.agrees.kernel;
      sink = sim.agrees.sink;
      total = sim.agrees.total;
      ofs = sim.agrees.ofs;
      errno = sim.agrees.errno;
    };
    clean = sim.clean;
    bak = sim.bak;
    lands = tt;
  }

  Free-one :
      (s : St K D T) (p : Progress K T)
      → Sim e put io job ok 1 s p
      → Free e put io job ok 1 (prepare e put io job 1 s) p
  unfolding prepare arrived
  Free-one s p sim = record {
    other = sim.slots.0;
    agrees = record {
      kernel = sim.agrees.kernel;
      sink = sim.agrees.sink;
      total = sim.agrees.total;
      ofs = sim.agrees.ofs;
      errno = sim.agrees.errno;
    };
    clean = sim.clean;
    bak = sim.bak;
    lands = record { apart = sim.lands.apart; order = sim.lands.order; fits = sim.lands.fits };
  }

  later_slot : (m : ℕ) → suc (suc m) % 2 ≡ m % 2
  later_slot m = omega arith

  Free-later :
      (m : ℕ) (d : D) (s : St K D T) (p : Progress K T)
      → Sim e put io job ok (suc (suc m)) s p
      → Free e put io job ok
          (suc (suc m))
          (handed e put io job (suc (suc m) % 2) d (prepare e put io job (suc (suc m)) s))
          p
  unfolding prepare arrived
  Free-later m d s p sim = record {
    other = sim.slots.1;
    agrees = rw (later_slot m) (
        beside-handed e put io job (suc m % 2) (m % 2) d (prepare e put io job (suc (suc m)) s) p
          (slots_differ m)
          (record {
            kernel = sim.agrees.kernel;
            sink = sim.agrees.sink;
            total = sim.agrees.total;
            ofs = sim.agrees.ofs;
            errno = sim.agrees.errno;
          }));
    clean = sim.clean;
    bak = sim.bak;
    lands = record {
      apart = sim.lands.1.apart;
      order = sim.lands.1.order;
      fits = sim.lands.1.fits;
    };
  }

  prepared-Lands :
      (m : ℕ) (s : St K D T)
      → Lands io s (m % 2)
      → Lands io (prepare e put io job (suc (suc m)) s) (suc (suc m) % 2)
  unfolding prepare
  prepared-Lands m s l =
      rw (later_slot m) (record { apart = l.apart; order = l.order; fits = l.fits })

  retire-Retired :
      (i : ℕ) (s : St K D T) (p : Progress K T)
      → i < rounds job.count
      → rounds job.count < max_posted
      → Sim e put io job ok i s p
      → Retired i (retire e put io job i (i % 2) (prepare e put io job i s)) p
  unfolding retire
  retire-Retired zero s p lt bound sim =
      prepared-Ready zero s _ p lt bound sim (Free-zero s p sim) refl refl
  retire-Retired (suc zero) s p lt bound sim =
      prepared-Ready 1 s _ p lt bound sim (Free-one s p sim) refl refl
  retire-Retired (suc (suc m)) s p lt bound sim =
      elim (retire-cases e put io job i j t (omega arith) (omega arith)
        (prepared-Lands m s sim.lands.0)) [
          | inl eq ↦ rw eq (
              prepared-Ready i s _ p lt bound sim
                (Free-later m (e.wait t.dma (t.handle j)).1 s p sim) refl refl)
          | inr (t', eq, x, y, z, fault) ↦ rw eq (x, y, z, fault)
        ]
    where
      i : ℕ
      i = suc (suc m)

      j : ℕ
      j = i % 2

      t : St K D T
      t = prepare e put io job i s

  pub round-Follows :
      (i : ℕ) (s : St K D T) (p : Progress K T)
      → i < rounds job.count
      → rounds job.count < max_posted
      → Sim e put io job ok i s p
      → Follows e put io job ok i (round e put io job i s) (
          answered e put io job ok i p (
            e.read p.kernel (
              request e.read put e.second_flag io.vh_buff_and_flag job (last e put io job ok) i p)))
  unfolding round
  round-Follows i s p lt bound sim =
      from_retired (retire e put io job i (i % 2) (prepare e put io job i s))
        (retire-Retired i s p lt bound sim)
    where
      from_retired :
          (out : Outcome (St K D T))
          → Retired i out p
          → Follows e put io job ok i (out >>= issue e put io job i (i % 2)) (
              answered e put io job ok i p (
                e.read p.kernel (
                  request e.read put e.second_flag io.vh_buff_and_flag job
                    (last e put io job ok)
                    i
                    p)))
      from_retired (go t) ready = issue-Follows e put io job ok i t p ready
      from_retired (stop t) (a, b, c, fault) = λ next. drain-failed e put io job t a b c fault _
