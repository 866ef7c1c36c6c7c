-- ===== src/Acc/Write/Release.antt =====
-- A chunk of the write of src/accelerated_io.c that is under way: the loop's body writes it once its slot
-- is needed again, and so does the final loop.
use libsysve.Prelude.{
  ℕ, suc, ◌%◌, ◌<◌, ◌≡◌, inl, inr, refl, Bool, true, false, none, some, ◌==◌, ltb, leb, update,
  arith, Bool-cases, ap, ◌∙◌, sym,
}
use libsysve.Prelude.Int.{minus_one, pos-+ℤ}
use libsysve.Acc.Vh.{AccIoInfo, eio, paras_size}
use libsysve.Acc.Control.{Outcome, go, stop}
use libsysve.Acc.Read.Types.{Result, Job}
use libsysve.Acc.Write.Types.{WriteReply, failed, wrote, Chunk}
use libsysve.Acc.Write.Plain.{Progress, after, request}
use libsysve.Acc.Write.{Env, St, dma_failed, call, finished, finish_posted, retired, retire, result}
use libsysve.Acc.Write.Step.{
  Sound, Lands, wait_dma-Lands, exception, last, source_at, Settled, waited,
}
use libsysve.Acc.Write.Call.{
  size_at, chunk_at, Holds, Buffers, Synced, plain_step, answered, next_progress, sent_state,
  Advanced, same_call, finished-Advanced,
}

module _ {K D T : Type 0} (e : Env K D) (fill : T → ℕ → Chunk T) (io : AccIoInfo) (job : Job)
    (ok : Sound e io job) (marked : Bool) (origin : T) where
  -- What the loop's body does with its chunk.
  abbrev pub Released :
      ℕ
      → Outcome (St K D T)
      → St K D T
      → Progress K T
      → ((Progress K T → Result K (Unit {0})) → Result K (Unit {0}))
      → Type 0
  Released m (stop t) s p plain =
      (next : Progress K T → Result K (Unit {0})) → Settled e fill io job t (plain next)
  Released m (go t) s p plain =
      (k : K) × (n : ℕ) × (t ≡ sent_state e fill io job ok marked origin k n (m % 2) s)
      × ((next : Progress K T → Result K (Unit {0}))
          → plain next ≡ next (next_progress e fill io job ok marked origin m n k p))

  retired-Released :
      (m : ℕ) (r : WriteReply × K) (s : St K D T) (p : Progress K T)
      → Synced e fill io job ok marked origin m s p
      → s.posted (m % 2) ≡ some m
      → paras_size ≡ size_at e fill io job ok marked origin m
      → Released m
          (retired e fill io job (m % 2) (waited e fill io job (m % 2) s) r)
          s
          p
          (answered e fill io job ok marked origin m p r)
  unfolding retired
  retired-Released m (failed err, k) s p y at q =
      λ next. (refl, inl (unfold result in ground (arith, y.total, y.bak, at)))
  retired-Released m (wrote n, k) s p y at q = elim (Bool-cases (n == 0)) [
    | inl nothing ↦
        rw nothing (λ next. (refl, inl (unfold result in ground (arith, y.total, y.bak))))
    | inr some_bytes ↦ rw some_bytes (elim (Bool-cases (ltb n paras_size)) [
      | inl short ↦ rw short (λ next. (
        refl,
        inl (
            rw (ap (ltb n) (sym q) ∙ short)
              (unfold result in ground (arith, y.total, y.bak, pos-+ℤ p.total n))),
      ))
      | inr full ↦ rw full (k, n, refl, λ next. rw (some_bytes, ap (ltb n) (sym q) ∙ full))
    ])
  ]

  -- The plain write's step, over what the slot of round `m` holds.
  plain_step-answered :
      (m : ℕ) (p : Progress K T)
      → p.source ≡ source_at e fill io job origin m
      → plain_step e fill io job ok marked origin m p
        ≡ answered e fill io job ok marked origin m p (
            e.write p.kernel
              (request e.write fill e.second_flag io.vh_buff_and_flag job
                (last e fill io job)
                marked
                m
                p)
              (chunk_at e fill io job ok marked origin m).bytes)
  unfolding source_at
  plain_step-answered m p same =
      ap
        (λ (t : T).
          after e.write fill e.second_flag io.vh_buff_and_flag job (last e fill io job) m
            (fill t (size_at e fill io job ok marked origin m)).rest p
            (e.write p.kernel
              (request e.write fill e.second_flag io.vh_buff_and_flag job (last e fill io job)
                marked m p)
              (fill t (size_at e fill io job ok marked origin m)).bytes))
        same

  retire-waited :
      (i j : ℕ) (s : St K D T)
      → 2 < suc i
      → j < 2
      → Lands io s j
      → leb 1 (e.wait s.dma (s.handle j)).0 ≡ false
      → retire e fill io job i j s
        ≡ retired e fill io job j
            (waited e fill io job j s)
            (call e fill io job j paras_size (waited e fill io job j s))
  unfolding retire
  retire-waited i j s late lt l fine =
      rw (wait_dma-Lands e fill io job j s lt l) (ground (arith, late, fine))

  retire-failed :
      (i j : ℕ) (s : St K D T)
      → 2 < suc i
      → j < 2
      → Lands io s j
      → leb 1 (e.wait s.dma (s.handle j)).0 ≡ true
      → retire e fill io job i j s
        ≡ stop (record (waited e fill io job j s) {
          exit_result = minus_one;
          errno_bak = eio;
          data_err = true;
          posted = update s.posted j none;
        })
  unfolding retire dma_failed
  retire-failed i j s late lt l bad =
      rw (wait_dma-Lands e fill io job j s lt l) (ground (arith, late, bad))

  finish-waited :
      (m : ℕ) (s : St K D T)
      → Lands io s (m % 2)
      → s.data_err ≡ false
      → leb 1 (e.wait s.dma (s.handle (m % 2))).0 ≡ false
      → let w = waited e fill io job (m % 2) s in
        finish_posted e fill io job (some m) s
        ≡ finished e fill io job m
            (s.need_write_in_size (m % 2))
            w
            (call e fill io job (m % 2) (s.need_write_in_size (m % 2)) w)
  unfolding finish_posted
  finish-waited m s l clean fine =
      rw (wait_dma-Lands e fill io job (m % 2) s (omega arith) l) (ground (arith, clean, fine))

  finish-failed :
      (m : ℕ) (s : St K D T)
      → Lands io s (m % 2)
      → leb 1 (e.wait s.dma (s.handle (m % 2))).0 ≡ true
      → finish_posted e fill io job (some m) s ≡ record (waited e fill io job (m % 2) s) {
        exit_result = minus_one;
        errno_bak = eio;
        data_err = true;
      }
  unfolding finish_posted dma_failed
  finish-failed m s l bad =
      rw (wait_dma-Lands e fill io job (m % 2) s (omega arith) l) (ground (arith, bad))

  -- The loop's body writes the chunk of two rounds ago as the plain write does.
  pub retire-Released :
      (i m : ℕ) (s : St K D T) (p : Progress K T)
      → 2 < suc i
      → Buffers e fill io job ok marked origin s
      → Synced e fill io job ok marked origin m s p
      → Holds e fill io job ok marked origin m s
      → s.posted (m % 2) ≡ some m
      → paras_size ≡ size_at e fill io job ok marked origin m
      → Released m
          (retire e fill io job i (m % 2) s)
          s
          p
          (plain_step e fill io job ok marked origin m p)
  retire-Released i m s p late b y h at q =
      elim (Bool-cases (leb 1 (e.wait s.dma (s.handle (m % 2))).0)) [
        | inl bad ↦
            rw (retire-failed i (m % 2) s late (omega arith) h.lands bad)
              (λ next. (refl, inr (refl, refl, exception s.dma (s.handle (m % 2)) bad)))
        | inr fine ↦
            rw
              (
                retire-waited i (m % 2) s late (omega arith) h.lands fine,
                same_call e fill io job ok marked origin m paras_size s p b y h q,
                plain_step-answered m p y.source,
              )
              (retired-Released m _ s p y at q)
      ]

  -- So does the final loop with the chunks that are left.
  pub finish_posted-Advanced :
      (m : ℕ) (s : St K D T) (p : Progress K T)
      → Buffers e fill io job ok marked origin s
      → Synced e fill io job ok marked origin m s p
      → Holds e fill io job ok marked origin m s
      → Advanced e fill io job ok marked origin m s p
          (finish_posted e fill io job (some m) s)
          (plain_step e fill io job ok marked origin m p)
  finish_posted-Advanced m s p b y h =
      elim (Bool-cases (leb 1 (e.wait s.dma (s.handle (m % 2))).0)) [
        | inl bad ↦
            rw (finish-failed m s h.lands bad)
              (inl (λ next. (refl, inr (refl, refl, exception s.dma (s.handle (m % 2)) bad))))
        | inr fine ↦
            rw
              (
                finish-waited m s h.lands y.clean fine,
                same_call e fill io job ok marked origin m (s.need_write_in_size (m % 2)) s p b y h
                    h.need,
                plain_step-answered m p y.source,
              )
              (finished-Advanced e fill io job ok marked origin m _ _ s p y h.need)
      ]
