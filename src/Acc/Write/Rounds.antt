-- ===== src/Acc/Write/Rounds.antt =====
-- The overlapped write against the plain one: one round.
use libsysve.Prelude.{
  ℕ, zero, suc, ◌-◌, ◌*◌, ◌%◌, ◌<◌, ◌≡◌, refl, Bool, ◌==◌, ltb, leb, if◌then◌else◌, arith, ◌∙◌,
}
use libsysve.Acc.Vh.{AccIoInfo, paras_size, mark_second}
use libsysve.Acc.Control.{Outcome, go, stop, rounds}
use libsysve.Acc.Slots.{Slots, before}
use libsysve.Acc.Read.Types.{Result, Job}
use libsysve.Acc.Write.Types.{Chunk}
use libsysve.Acc.Write.Plain.{Progress}
use libsysve.Acc.Write.{Env, St, issue, prepare}
use libsysve.Acc.Write.Step.{Sound, last, size_of, source_at, Settled}
use libsysve.Acc.Write.Call.{Synced}
use libsysve.Acc.Write.Drain.{Held, plain}
use libsysve.Acc.Write.Issue.{done, Ready, Issued, issue-Issued}

module _ {K D T : Type 0} (e : Env K D) (fill : T → ℕ → Chunk T) (io : AccIoInfo) (job : Job)
    (ok : Sound e io job) (origin : T)
    (whole : (i : ℕ)
      → i < rounds job.count
      → (fill (source_at e fill io job origin i) (size_of e fill io job i)).less ≡ 0) where
  abbrev pub marked : Bool
  marked = leb 2 (rounds job.count)

  -- The chunks that are written at the start of round `i`.
  abbrev pub lag : ℕ → ℕ
  lag zero = 0
  lag (suc zero) = 0
  lag (suc (suc m)) = m

  -- What is left of the plain write at the start of round `i`, with `left` rounds to go.
  abbrev pub behind : (i left : ℕ) → Progress K T → Result K (Unit {0})
  behind zero left = plain e fill io job ok marked origin left 0
  behind (suc zero) left = plain e fill io job ok marked origin (suc left) 0
  behind (suc (suc m)) left = plain e fill io job ok marked origin (suc (suc left)) m

  -- What holds at the start of round `i`.
  pub record Sim (i : ℕ) (s : St K D T) (p : Progress K T) : Type 0 where
    pub slots : Slots (before i) s.posted
    pub held : Held e fill io job ok marked origin (before i) s
    pub synced : Synced e fill io job ok marked origin (lag i) s p
    pub source : s.source ≡ source_at e fill io job origin i
    pub buffers :
        s.vh_buff_and_flag
        ≡ (if ltb i 2 then io.vh_buff_and_flag else mark_second e.second_flag io.vh_buff_and_flag)
    pub sized : i < rounds job.count → s.transfer_size ≡ paras_size

  abbrev pub Follows : ℕ → Outcome (St K D T) → Progress K T → Type 0
  Follows i (stop t) p = (left : ℕ) → Settled e fill io job t (behind i (suc left) p)
  Follows i (go t) p =
      (p' : Progress K T) × Sim (suc i) t p'
      × ((left : ℕ) → behind i (suc left) p ≡ behind (suc i) left p')

  prepare-fields :
      (i : ℕ) (s : St K D T)
      → let t = prepare e fill io job i s in
        (t.vh_buff_and_flag
          ≡ (if i == 1 then mark_second e.second_flag s.vh_buff_and_flag else s.vh_buff_and_flag))
        × (t.transfer_size ≡ (
            if i == last e fill io job then job.count - s.transfer_size * i else s.transfer_size))
  unfolding prepare
  prepare-fields i s = (refl, refl)

  -- The flag is set before the second round's call, and all chunks but the last are whole.
  pub next_buffers :
      (i : ℕ) (s : St K D T) (p : Progress K T)
      → Sim i s p
      → (prepare e fill io job i s).vh_buff_and_flag ≡ (
          if ltb (suc i) 2
          then io.vh_buff_and_flag
          else mark_second e.second_flag io.vh_buff_and_flag)
  next_buffers i s p sim = ground (arith, prepare-fields i s, sim.buffers)

  pub round_size :
      (i : ℕ) (s : St K D T) (p : Progress K T)
      → i < rounds job.count
      → Sim i s p
      → (prepare e fill io job i s).transfer_size ≡ size_of e fill io job i
  round_size i s p lt sim = ground (arith, prepare-fields i s, sim.sized)

  next_sized :
      (i : ℕ) (s : St K D T) (p : Progress K T)
      → Sim i s p
      → suc i < rounds job.count
      → (prepare e fill io job i s).transfer_size ≡ paras_size
  next_sized i s p sim lt = ground (arith, prepare-fields i s, sim.sized)

  pub early_size : (m : ℕ) → suc (suc m) < rounds job.count → paras_size ≡ size_of e fill io job m
  early_size m lt = ground arith

  -- The second half of the body, from a state whose slot is free.
  pub issue-Follows :
      (i : ℕ) (s t : St K D T) (p p' : Progress K T)
      → i < rounds job.count
      → Sim i s p
      → Ready e fill io job ok marked origin i t p'
      → t.vh_buff_and_flag ≡ (prepare e fill io job i s).vh_buff_and_flag
      → t.transfer_size ≡ (prepare e fill io job i s).transfer_size
      → lag (suc i) ≡ done e fill io job ok marked origin i
      → ((left : ℕ) → behind i (suc left) p ≡ behind (suc i) left p')
      → Follows i (issue e fill io job i (i % 2) t) p
  issue-Follows i s t p p' lt sim ready b z at steps =
      from_issued (issue e fill io job i (i % 2) t)
        (issue-Issued e fill io job ok marked origin i t p' ready (whole i lt))
    where
      from_issued :
          (out : Outcome (St K D T))
          → Issued e fill io job ok marked origin i out t p'
          → Follows i out p
      from_issued (stop u) settled = λ left. settled _
      from_issued (go u) (slots, held, synced, source, same_buffers, same_size) = (
        p',
        record {
          slots = slots;
          held = held;
          synced = rw at synced;
          source = source;
          buffers = same_buffers ∙ b ∙ next_buffers i s p sim;
          sized = λ more. same_size ∙ z ∙ next_sized i s p sim more;
        },
        steps,
      )
