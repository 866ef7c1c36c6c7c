-- ===== src/Acc/Read/Rounds.antt =====
-- The second half of the loop's body against one step of the plain read.
use libsysve.Prelude.{
  ℕ, suc, ◌-◌, ◌%◌, ◌<◌, ◌≡◌, ◌≤◌, inl, inr, refl, false, ◌==◌, ltb, if◌then◌else◌, Bytes, copy,
  update, arith, Bool-cases, ap, ◌∙◌, sym,
}
use libsysve.Acc.Vh.{get_dma_size, PostReply, accepted, refused, AccIoInfo, mark_second, paras_size}
use libsysve.Acc.Slots.{Slots, before, max_posted}
use libsysve.Acc.Read.Types.{ReadReply, got, Result, Job}
use libsysve.Acc.Read.Plain.{Progress, taken, chunk_size, after}
use libsysve.Acc.Control.{Outcome, go, stop, rounds}
use libsysve.Acc.Read.{Env, St, post_chunk, drain, result}
use libsysve.Acc.Read.Step.{Sound, LandsAll, delivered, Agrees, Good, Faulty, drain-failed}
use libsysve.Acc.Read.Drain.{drain-before}
use libsysve.Acc.Read.Issue.{
  Free, posted_state, posted-Slots, posted-Agrees, posted-Lands, post_chunk-accepted,
}
use libsysve.Acc.Windows.{fetch}

module _ {K D T : Type 0} (e : Env K D) (put : T → Bytes → ℕ → T) (io : AccIoInfo) (job : Job)
    (ok : Sound e put io job) where
  abbrev pub last : ℕ
  last = rounds job.count - 1

  abbrev pub size_of : ℕ → ℕ
  size_of = chunk_size e.read put e.second_flag io.vh_buff_and_flag job last

  abbrev pub answered : ℕ → Progress K T → ReadReply × K → (Progress K T → Result K T) → Result K T
  answered = after e.read put e.second_flag io.vh_buff_and_flag job last

  -- What holds at the start of round `i`.
  pub record Sim (i : ℕ) (s : St K D T) (p : Progress K T) : Type 0 where
    pub slots : Slots (before i) s.posted
    pub agrees : Agrees (delivered e put io job (before i) s) p
    pub clean : s.data_err ≡ false
    pub bak : s.errno_bak ≡ 0
    pub lands : LandsAll io (before i) s
    pub buffers :
        s.vh_buff_and_flag
        ≡ (if ltb i 2 then io.vh_buff_and_flag else mark_second e.second_flag io.vh_buff_and_flag)
    pub sized : i < rounds job.count → s.transfer_size ≡ paras_size

  -- A part of round `i` that left the loop, or not, against what is left of the plain read.
  abbrev pub Follows : ℕ → Outcome (St K D T) → ((Progress K T → Result K T) → Result K T) → Type 0
  Follows i (stop s) plain =
      (next : Progress K T → Result K T)
      → Good e put io job (result e put io job (drain e put io job s)) (plain next)
  Follows i (go s) plain =
      (p : Progress K T) × Sim (suc i) s p
      × ((next : Progress K T → Result K T) → plain next ≡ next p)

  -- The state once the body's first half is done.
  pub record Ready (i : ℕ) (s : St K D T) (p : Progress K T) : Type 0 where
    pub free : Free e put io job ok i s p
    pub small : i < rounds job.count
    pub bound : rounds job.count < max_posted
    pub buffer_set :
        s.vh_buff_and_flag
        ≡ (if i == 0 then io.vh_buff_and_flag else mark_second e.second_flag io.vh_buff_and_flag)
    pub size_set : s.transfer_size ≡ size_of i

  -- The flag is set before the second call, and the size is a whole chunk but for the last.
  next_buffers :
      (i : ℕ) (s : St K D T) (p : Progress K T)
      → Ready i s p
      → s.vh_buff_and_flag ≡ (
          if ltb (suc i) 2
          then io.vh_buff_and_flag
          else mark_second e.second_flag io.vh_buff_and_flag)
  next_buffers i s p ready = ground arith

  next_sized :
      (i : ℕ) (s : St K D T) (p : Progress K T)
      → Ready i s p
      → suc i < rounds job.count
      → s.transfer_size ≡ paras_size
  next_sized i s p ready lt = ground arith

  pub post-Follows :
      (i n : ℕ) (bytes : Bytes) (k : K) (r : PostReply × D) (s : St K D T) (p : Progress K T)
      → (n == 0) ≡ false
      → n ≤ paras_size
      → Ready i s p
      → (r.0 ≡ refused → Faulty e)
      → Follows i
          (post_chunk e put io job i
            (i % 2)
            n
            (fetch io (i % 2) (get_dma_size n))
            (record s {
              kernel = k;
              vh = update s.vh (i % 2) (copy (s.vh (i % 2)) 0 bytes n);
              read_out_size = update s.read_out_size (i % 2) n;
            })
            r)
          (answered i p (got n bytes, k))
  unfolding post_chunk
  post-Follows i n bytes k (refused, d) s p some_bytes le ready fault =
      λ next. drain-failed e put io job _ refl refl refl (fault refl) _
  post-Follows i n bytes k (accepted h now, d) s p some_bytes le ready fault =
      rw (post_chunk-accepted e put io job ok i n bytes k h now d s le)
        (elim (Bool-cases (ltb n s.transfer_size)) [
          | inl short ↦ rw short (λ next.
              rw (some_bytes, ap (ltb n) (sym ready.size_set) ∙ short)
                (drain-before e put io job (suc i) s' p' (omega arith) free.clean free.bak slots
                  lands agrees))
          | inr full ↦ rw full (
            p',
            record {
              slots = slots;
              agrees = agrees;
              clean = free.clean;
              bak = free.bak;
              lands = lands;
              buffers = next_buffers i s p ready;
              sized = next_sized i s p ready;
            },
            λ next. rw (some_bytes, ap (ltb n) (sym ready.size_set) ∙ full),
          )
        ])
    where
      free : Free e put io job ok i s p
      free = ready.free

      small : i < rounds job.count
      small = ready.small

      bound : rounds job.count < max_posted
      bound = ready.bound

      s' : St K D T
      s' = posted_state e put io job ok i n bytes k h now d s

      p' : Progress K T
      p' = taken e.read put e.second_flag io.vh_buff_and_flag job last n bytes k p

      slots : Slots (before (suc i)) s'.posted
      slots = posted-Slots e put io job ok i n bytes k h now d s free.other

      lands : LandsAll io (before (suc i)) s'
      lands = posted-Lands e put io job ok i n bytes k h now d s le free.lands

      agrees : Agrees (delivered e put io job (before (suc i)) s') p'
      agrees = posted-Agrees e put io job ok i n bytes k h now d s p free.agrees
