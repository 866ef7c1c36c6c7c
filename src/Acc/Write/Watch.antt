-- ===== src/Acc/Write/Watch.antt =====
-- The write of src/accelerated_io.c waits for each transfer that it has posted, once, and for no other.
use libsysve.Prelude.{
  ℕ, zero, suc, ◌+◌, ◌%◌, ◌<◌, ◌≡◌, refl, Bool, false, ◌==◌, ltb, leb, Option, none, some, Bytes,
  update, arith, Bool-cases, inl, inr, fun_ext,
}
use mathlib.Core.Path.{subst}
use libsysve.Acc.Vh.{
  AccIoInfo, Transfer, paras_size, PostReply, accepted, refused, buff_nparas, ve_find_min_posted,
}
use libsysve.Acc.Control.{Outcome, go, stop, ◌>>=◌, proceed, rounds}
use libsysve.Acc.Watch.{
  Watched, watch, noted, watch_post, over, watch_wait, is_some, Watching, over-Watching,
}
use libsysve.Acc.Watch.Tidy.{
  Tidy, Free, Full, posted-Full, Free-cleared, Free-refused, Free-posted, Tidy-Free, Tidy-waited,
  watch-Tidy,
}
use libsysve.Acc.Read.Types.{Job}
use libsysve.Acc.Write.Types.{WriteReply, failed, wrote, Chunk}
use libsysve.Acc.Write.{
  Env, St, wait_dma, dma_failed, call, prepare, retire, retired, finished, post_chunk, issue, round,
  write_loop, finish_posted, finish_slot, drain, start,
}

module _ {K D T : Type 0} where
  abbrev TidySt : St K (Watched D) T → Type 0
  TidySt s = Tidy s.dma s.posted s.handle

  abbrev FreeSt : ℕ → St K (Watched D) T → Type 0
  FreeSt i s = Free (i % 2) s.dma s.posted s.handle × Full i s.posted

  abbrev Freed : ℕ → Outcome (St K (Watched D) T) → Type 0
  Freed i (go s) = FreeSt i s
  Freed i (stop s) = TidySt s

  abbrev Kept : ℕ → Outcome (St K (Watched D) T) → Type 0
  Kept i (go s) = TidySt s × Full (suc i) s.posted
  Kept i (stop s) = TidySt s

module _ {K D T : Type 0} (e : Env K D) (fill : T → ℕ → Chunk T) (io : AccIoInfo) (job : Job) where
  abbrev pub watched : Env K (Watched D)
  watched = record {
    second_flag = e.second_flag;
    write = e.write;
    post = watch_post e.post;
    wait = watch_wait e.wait;
  }

  retired-Freed :
      (i : ℕ) (s : St K (Watched D) T) (r : WriteReply × K)
      → FreeSt i s
      → Freed i (retired watched fill io job (i % 2) s r)
  unfolding retired
  retired-Freed i s (failed err, k) (f, full) = Free-cleared s.dma s.posted s.handle (i % 2) f
  retired-Freed i s (wrote n, k) (f, full) = elim (Bool-cases (n == 0)) [
    | inl nothing ↦ rw nothing (Free-cleared s.dma s.posted s.handle (i % 2) f)
    | inr some_bytes ↦ elim (Bool-cases (ltb n paras_size)) [
      | inl short ↦ rw (some_bytes, short) (Free-cleared s.dma s.posted s.handle (i % 2) f)
      | inr whole ↦ rw (some_bytes, whole) (f, full)
    ]
  ]

  retire-Freed :
      (i : ℕ) (s : St K (Watched D) T)
      → Full i s.posted
      → TidySt s
      → Freed i (retire watched fill io job i (i % 2) s)
  unfolding retire wait_dma dma_failed
  retire-Freed i s full y = elim (Bool-cases (ltb i buff_nparas)) [
    | inl early ↦
        rw early (Tidy-Free s.dma s.posted s.handle i (ground (arith, early)) full y, full)
    | inr late ↦
        let (ret, d) = e.wait s.dma.engine (s.dma.handle_of (s.handle (i % 2))) in
        let freed = Tidy-waited s.dma s.posted s.handle i d (ground (arith, late)) full y in
        elim (Bool-cases (leb 1 ret)) [
          | inl bad ↦ rw (late, bad) (Free-cleared _ s.posted s.handle (i % 2) freed)
          | inr ok ↦ rw (late, ok) (retired-Freed i _ _ (freed, full))
        ]
  ]

  post_chunk-Kept :
      (i : ℕ) (c : Chunk T) (t : Transfer) (s : St K (Watched D) T) (r : PostReply × D)
      → FreeSt i s
      → Kept i (post_chunk watched fill io job i (i % 2) c t s (noted s.dma r))
  unfolding post_chunk
  post_chunk-Kept i c t s (refused, d) (f, full) =
      Free-cleared _ s.posted s.handle (i % 2) (Free-refused s.dma s.posted s.handle (i % 2) d f)
  post_chunk-Kept i c t s (accepted h now, d) (f, full) =
      (Free-posted s.dma s.posted s.handle i h now d f, posted-Full i i s.posted full)

  issue-Kept :
      (i : ℕ) (out : Outcome (St K (Watched D) T))
      → Freed i out
      → Kept i (out >>= issue watched fill io job i (i % 2))
  unfolding issue
  issue-Kept i (go s) f = post_chunk-Kept i _ _ _ _ f
  issue-Kept i (stop s) y = y

  round-Kept :
      (i : ℕ) (s : St K (Watched D) T)
      → Full i s.posted
      → TidySt s
      → Kept i (round watched fill io job i s)
  unfolding round prepare
  round-Kept i s full y = issue-Kept i _ (retire-Freed i (prepare watched fill io job i s) full y)

  proceed-Tidy :
      (i : ℕ) (out : Outcome (St K (Watched D) T)) (f : St K (Watched D) T → St K (Watched D) T)
      → Kept i out
      → ((s : St K (Watched D) T) → Full (suc i) s.posted → TidySt s → TidySt (f s))
      → TidySt (proceed out f)
  proceed-Tidy i (go s) f (y, full) later = later s full y
  proceed-Tidy i (stop s) f y later = y

  write_loop-Tidy :
      (left i : ℕ) (s : St K (Watched D) T)
      → Full i s.posted
      → TidySt s
      → TidySt (write_loop watched fill io job left i s)
  unfolding write_loop
  write_loop-Tidy zero i s full y = y
  write_loop-Tidy (suc left) i s full y =
      proceed-Tidy i _ _ (round-Kept i s full y) (λ t. write_loop-Tidy left (suc i) t)

  -- The transfers of the slots in `c` are left, in the final loop.
  record Left (c : ℕ → Bool) (p : ℕ → Option ℕ) (s : St K (Watched D) T) : Type 0 where
    watching : Watching s.dma c s.handle
    same : s.posted ≡ p

  finished-Left :
      (c : ℕ → Bool) (i size : ℕ) (p : ℕ → Option ℕ) (s : St K (Watched D) T) (r : WriteReply × K)
      → Left c p s
      → Left c p (finished watched fill io job i size s r)
  unfolding finished
  finished-Left c i size p s (failed err, k) f = record { watching = f.watching; same = f.same }
  finished-Left c i size p s (wrote n, k) f = elim (Bool-cases (n == 0)) [
    | inl nothing ↦ rw nothing (record { watching = f.watching; same = f.same })
    | inr some_bytes ↦ rw some_bytes (record { watching = f.watching; same = f.same })
  ]

  finish_posted-Left :
      (o : Option ℕ) (c : ℕ → Bool) (j : ℕ) (p : ℕ → Option ℕ) (s : St K (Watched D) T)
      → j < 2
      → c j ≡ is_some o
      → ((i : ℕ) → o ≡ some i → i % 2 ≡ j)
      → Left c p s
      → Left (update c j false) p (finish_posted watched fill io job o s)
  unfolding finish_posted wait_dma dma_failed call
  finish_posted-Left none c j p s lt is at f = record {
    watching = subst (λ c. Watching s.dma c s.handle) (fun_ext λ k. ground (arith, is)) f.watching;
    same = f.same;
  }
  finish_posted-Left (some i) c j p s lt is at f =
      rw (at i refl)
        (elim (Bool-cases (leb 1 (e.wait s.dma.engine (s.dma.handle_of (s.handle j))).0)) [
          | inl bad ↦ rw bad (left _ refl refl refl)
          | inr fine ↦ elim (Bool-cases s.data_err) [
            | inl err ↦ rw (fine, err) (left _ refl refl refl)
            | inr ok ↦ rw (fine, ok) (finished-Left _ i _ p _ _ (left _ refl refl refl))
          ]
        ])
    where
      left :
          (s' : St K (Watched D) T)
          → s'.dma ≡ over (s.handle j) (e.wait s.dma.engine (s.dma.handle_of (s.handle j))).1 s.dma
          → s'.handle ≡ s.handle
          → s'.posted ≡ s.posted
          → Left (update c j false) p s'
      left s' w h q = record {
        watching = rw (w, h) (over-Watching s.dma c s.handle j _ lt is f.watching);
        same = rw q f.same;
      }

  finish_slot-Left :
      (c : ℕ → Bool) (j : ℕ) (p : ℕ → Option ℕ) (s : St K (Watched D) T)
      → j < 2
      → c j ≡ is_some (p j)
      → ((i : ℕ) → p j ≡ some i → i % 2 ≡ j)
      → Left c p s
      → Left (update c j false) p (finish_slot watched fill io job j s)
  unfolding finish_slot
  finish_slot-Left c j p s lt is at f =
      finish_posted-Left (s.posted j) c j p s lt (rw f.same is) (rw f.same at) f

  drain-Left :
      (s : St K (Watched D) T)
      → TidySt s
      → (n : ℕ)
      → ((drain watched fill io job s).dma.misused ≡ false)
        × ((drain watched fill io job s).dma.under_way n ≡ false)
  unfolding drain
  drain-Left s y n = (last.watching.fine, ground (arith, last.watching.held n))
    where
      m : ℕ
      m = ve_find_min_posted s.posted

      first :
          Left
            (update (λ k. is_some (s.posted k)) ((m + 0) % 2) false)
            s.posted
            (finish_slot watched fill io job ((m + 0) % 2) s)
      first =
          finish_slot-Left _ ((m + 0) % 2) s.posted s (omega arith) refl
            (λ i. y.placed ((m + 0) % 2) i (omega arith))
            (record { watching = y.watching; same = refl })

      last :
          Left
            (update (update (λ k. is_some (s.posted k)) ((m + 0) % 2) false) ((m + 1) % 2) false)
            s.posted
            (finish_slot watched fill io job
              ((m + 1) % 2)
              (finish_slot watched fill io job ((m + 0) % 2) s))
      last =
          finish_slot-Left _ ((m + 1) % 2) s.posted _ (omega arith) (ground arith)
            (λ i. y.placed ((m + 1) % 2) i (omega arith)) first

  -- A write, on every path through its loops and with any engine, waits for every transfer that
  -- the engine has accepted: none is under way at the end, and no wait was for a transfer that was
  -- not under way, so none is waited for twice.
  pub write_loop-waits :
      (k : K) (d : D) (t : T) (errno : ℕ) (vh ve : ℕ → Bytes) (n : ℕ)
      → let s = start watched fill io job k (watch d) t errno vh ve in
        let out =
          drain watched fill io job (write_loop watched fill io job (rounds job.count) 0 s) in
        (out.dma.misused ≡ false) × (out.dma.under_way n ≡ false)
  write_loop-waits k d t errno vh ve =
      let s = start watched fill io job k (watch d) t errno vh ve in
      drain-Left _
        (write_loop-Tidy (rounds job.count) 0 s (λ j lt. ground arith) (watch-Tidy d s.handle))
