-- ===== src/Acc/Write/Body.antt =====
-- One round of the overlapped write of src/accelerated_io.c against the plain one, from its first half on.
use libsysve.Prelude.{ℕ, zero, suc, ◌%◌, ◌<◌, ◌≡◌, refl, arith, ◌∙◌}
use libsysve.Acc.Vh.{AccIoInfo}
use libsysve.Acc.Control.{Outcome, go, stop, ◌>>=◌, rounds}
use libsysve.Acc.Read.Types.{Job}
use libsysve.Acc.Write.Types.{Chunk}
use libsysve.Acc.Write.Plain.{Progress}
use libsysve.Acc.Write.{Env, St, arrived, retire, issue, round, prepare}
use libsysve.Acc.Write.Step.{Sound, size_of, source_at}
use libsysve.Acc.Write.Call.{
  Holds, Buffers, Synced, sent_state, sent-Synced, next_progress, plain_step,
}
use libsysve.Acc.Write.Release.{Released, retire-Released}
use libsysve.Acc.Write.Drain.{plain-suc, beside-Holds}
use libsysve.Acc.Write.Issue.{Ready}
use libsysve.Acc.Write.Rounds.{
  marked, Sim, Follows, next_buffers, round_size, early_size, issue-Follows,
}

module _ {K D T : Type 0} (e : Env K D) (fill : T → ℕ → Chunk T) (io : AccIoInfo) (job : Job)
    (ok : Sound e io job) (origin : T)
    (whole : (i : ℕ)
      → i < rounds job.count
      → (fill (source_at e fill io job origin i) (size_of e fill io job i)).less ≡ 0) where
  -- The chunk in the slot, and what else holds there, before and after it is written.
  prepared-Synced :
      (i m : ℕ) (s : St K D T) (p : Progress K T)
      → Synced e fill io job ok (marked e fill io job ok origin whole) origin m s p
      → Synced e fill io job ok
          (marked e fill io job ok origin whole)
          origin
          m
          (prepare e fill io job i s)
          p
  unfolding prepare
  prepared-Synced i m s p y = record {
    kernel = y.kernel;
    total = y.total;
    ofs = y.ofs;
    errno = y.errno;
    source = y.source;
    clean = y.clean;
    bak = y.bak;
  }

  prepared-Holds :
      (i m : ℕ) (s : St K D T)
      → Holds e fill io job ok (marked e fill io job ok origin whole) origin m s
      → Holds e fill io job ok
          (marked e fill io job ok origin whole)
          origin
          m
          (prepare e fill io job i s)
  unfolding prepare arrived
  prepared-Holds i m s h = record {
    bytes = h.bytes;
    lands = record { apart = h.lands.apart; order = h.lands.order; fits = h.lands.fits };
    need = h.need;
  }

  Ready-zero :
      (s : St K D T) (p : Progress K T)
      → 0 < rounds job.count
      → Sim e fill io job ok origin whole 0 s p
      → Ready e fill io job ok
          (marked e fill io job ok origin whole)
          origin
          0
          (prepare e fill io job 0 s)
          p
  unfolding prepare
  Ready-zero s p lt sim = record {
    running = lt;
    other = sim.slots.1;
    held = tt;
    synced = prepared-Synced 0 0 s p sim.synced;
    source = sim.source;
    size_set = round_size e fill io job ok origin whole 0 s p lt sim;
  }

  Ready-one :
      (s : St K D T) (p : Progress K T)
      → 1 < rounds job.count
      → Sim e fill io job ok origin whole 1 s p
      → Ready e fill io job ok
          (marked e fill io job ok origin whole)
          origin
          1
          (prepare e fill io job 1 s)
          p
  unfolding prepare
  Ready-one s p lt sim = record {
    running = lt;
    other = sim.slots.0;
    held = prepared-Holds 1 0 s sim.held;
    synced = prepared-Synced 1 0 s p sim.synced;
    source = sim.source;
    size_set = round_size e fill io job ok origin whole 1 s p lt sim;
  }

  Ready-later :
      (m n : ℕ) (k : K) (s : St K D T) (p : Progress K T)
      → suc (suc m) < rounds job.count
      → Sim e fill io job ok origin whole (suc (suc m)) s p
      → Ready e fill io job ok
          (marked e fill io job ok origin whole)
          origin
          (suc (suc m))
          (sent_state e fill io job ok
            (marked e fill io job ok origin whole)
            origin
            k
            n
            (m % 2)
            (prepare e fill io job (suc (suc m)) s))
          (next_progress e fill io job ok (marked e fill io job ok origin whole) origin m n k p)
  unfolding prepare
  Ready-later m n k s p lt sim = record {
    running = lt;
    other = sim.slots.1;
    held =
        beside-Holds e fill io job ok (marked e fill io job ok origin whole) origin m n k _
          (prepared-Holds (suc (suc m)) (suc m) s sim.held.1);
    synced =
        sent-Synced e fill io job ok (marked e fill io job ok origin whole) origin m n k _ p
          (prepared-Synced (suc (suc m)) m s p sim.synced);
    source = sim.source;
    size_set = round_size e fill io job ok origin whole (suc (suc m)) s p lt sim;
  }

  later_slot : (m : ℕ) → suc (suc m) % 2 ≡ m % 2
  later_slot m = omega arith

  retire-Follows :
      (m : ℕ) (s : St K D T) (p : Progress K T)
      → suc (suc m) < rounds job.count
      → Sim e fill io job ok origin whole (suc (suc m)) s p
      → Released e fill io job ok
          (marked e fill io job ok origin whole)
          origin
          m
          (retire e fill io job
            (suc (suc m))
            (suc (suc m) % 2)
            (prepare e fill io job (suc (suc m)) s))
          (prepare e fill io job (suc (suc m)) s)
          p
          (plain_step e fill io job ok (marked e fill io job ok origin whole) origin m p)
  retire-Follows m s p lt sim = rw (later_slot m) (
      retire-Released e fill io job ok (marked e fill io job ok origin whole) origin (suc (suc m)) m
        _ p (omega arith) buffers (prepared-Synced (suc (suc m)) m s p sim.synced)
        (prepared-Holds (suc (suc m)) m s sim.held.0) (unfold prepare in sim.slots.0)
        (early_size e fill io job ok origin whole m lt))
    where
      buffers :
          Buffers e fill io job ok
            (marked e fill io job ok origin whole)
            origin
            (prepare e fill io job (suc (suc m)) s)
      buffers = ground (arith, next_buffers e fill io job ok origin whole (suc (suc m)) s p sim)

  pub round-Follows :
      (i : ℕ) (s : St K D T) (p : Progress K T)
      → i < rounds job.count
      → Sim e fill io job ok origin whole i s p
      → Follows e fill io job ok origin whole i (round e fill io job i s) p
  unfolding round retire
  round-Follows zero s p lt sim =
      issue-Follows e fill io job ok origin whole zero s (prepare e fill io job 0 s) p p lt sim
        (Ready-zero s p lt sim) refl refl refl (λ left. refl)
  round-Follows (suc zero) s p lt sim =
      issue-Follows e fill io job ok origin whole 1 s (prepare e fill io job 1 s) p p lt sim
        (Ready-one s p lt sim) refl refl refl (λ left. refl)
  round-Follows (suc (suc m)) s p lt sim = from_released _ (retire-Follows m s p lt sim)
    where
      i : ℕ
      i = suc (suc m)

      from_released :
          (out : Outcome (St K D T))
          → Released e fill io job ok
              (marked e fill io job ok origin whole)
              origin
              m
              out
              (prepare e fill io job i s)
              p
              (plain_step e fill io job ok (marked e fill io job ok origin whole) origin m p)
          → Follows e fill io job ok origin whole i (out >>= issue e fill io job i (i % 2)) p
      from_released (stop u) settled = λ left.
          rw
            (plain-suc e fill io job ok (marked e fill io job ok origin whole) origin
              (suc (suc left)) m p)
            (settled _)
      from_released (go u) (k, n, eq, steps) = rw eq (
          issue-Follows e fill io job ok origin whole i s _ p
            (next_progress e fill io job ok (marked e fill io job ok origin whole) origin m n k p)
            lt sim (Ready-later m n k s p lt sim) refl refl refl
            (λ left.
              plain-suc e fill io job ok (marked e fill io job ok origin whole) origin
                (suc (suc left)) m p
              ∙ steps _))
