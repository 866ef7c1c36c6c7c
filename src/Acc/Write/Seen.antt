-- ===== src/Acc/Write/Seen.antt =====
-- The overlapped write meets the engine in the states that its own posts and waits lead to, and in no other.
use libsysve.Prelude.{
  ℕ, zero, suc, ◌+◌, ◌-◌, ◌%◌, ◌<◌, ◌≡◌, ◌⊎◌, refl, inl, inr, Bool-cases, ltb, leb, ◌==◌, Option,
  none, some, Bytes, ap, ◌∙◌,
}
use libsysve.Prelude.Int.{minus_one}
use libsysve.Acc.Vh.{
  Transfer, paras_size, AccIoInfo, ve_find_min_posted, PostReply, accepted, refused, buff_nparas,
  eio,
}
use libsysve.Acc.Control.{Outcome, go, stop, ◌>>=◌, proceed, rounds}
use libsysve.Acc.Engine.{started, SeenState, seen_post, seen_wait, FaultyFrom, refuses, fails}
use libsysve.Acc.Read.Types.{Job}
use libsysve.Acc.Write.Types.{WriteReply, failed, wrote, Chunk}
use libsysve.Acc.Write.Plain.{plain_write}
use libsysve.Acc.Write.{
  Env, St, retired, finished, arrived, wait_dma, dma_failed, call, prepare, retire, post_chunk,
  issue, round, write_loop, finish_posted, finish_slot, drain, result, transfer, start,
}
use libsysve.Acc.Write.Step.{Sound, source_at, size_of, Faulty, refusal, exception}
use libsysve.Acc.Write.Refine.{transfer-plain_write}

module _ {K D T : Type 0} (e : Env K D) (fill : T → ℕ → Chunk T) (io : AccIoInfo) (job : Job)
    (d₀ : D) where
  abbrev confined : Env K (SeenState e.post e.wait d₀)
  confined = record {
    second_flag = e.second_flag;
    write = e.write;
    post = seen_post e.post e.wait d₀;
    wait = seen_wait e.post e.wait d₀;
  }

  abbrev forget : St K (SeenState e.post e.wait d₀) T → St K D T
  forget s = record {
    kernel = s.kernel;
    dma = s.dma.0;
    source = s.source;
    errno = s.errno;
    vh = s.vh;
    ve = s.ve;
    moved = s.moved;
    handle = s.handle;
    order = s.order;
    vh_buff_and_flag = s.vh_buff_and_flag;
    posted = s.posted;
    need_write_in_size = s.need_write_in_size;
    dma_size = s.dma_size;
    ofs = s.ofs;
    transfer_size = s.transfer_size;
    exit_result = s.exit_result;
    errno_bak = s.errno_bak;
    data_err = s.data_err;
  }

  abbrev forget_in : Outcome (St K (SeenState e.post e.wait d₀) T) → Outcome (St K D T)
  forget_in (go s) = go (forget s)
  forget_in (stop s) = stop (forget s)

  retired-forget :
      (j : ℕ) (s : St K (SeenState e.post e.wait d₀) T) (r : WriteReply × K)
      → retired e fill io job j (forget s) r ≡ forget_in (retired confined fill io job j s r)
  unfolding retired
  retired-forget j s (failed err, k) = refl
  retired-forget j s (wrote n, k) = elim (Bool-cases (n == 0)) [
    | inl nothing ↦ rw nothing refl
    | inr some_bytes ↦ elim (Bool-cases (ltb n paras_size)) [
      | inl short ↦ rw (some_bytes, short) refl
      | inr full ↦ rw (some_bytes, full) refl
    ]
  ]

  retire-forget :
      (i j : ℕ) (s : St K (SeenState e.post e.wait d₀) T)
      → retire e fill io job i j (forget s) ≡ forget_in (retire confined fill io job i j s)
  unfolding retire wait_dma dma_failed call arrived
  retire-forget i j s = elim (Bool-cases (ltb i buff_nparas)) [
    | inl early ↦ rw early refl
    | inr late ↦ elim (Bool-cases (leb 1 (e.wait s.dma.0 (s.handle j)).0)) [
      | inl bad ↦ rw (late, bad) refl
      | inr fine ↦ rw (late, fine) (retired-forget j _ _)
    ]
  ]

  post_chunk-forget :
      (i j : ℕ) (c : Chunk T) (t : Transfer) (s : St K (SeenState e.post e.wait d₀) T)
      (r : PostReply × SeenState e.post e.wait d₀)
      → post_chunk e fill io job i j c t (forget s) (r.0, r.1.0)
        ≡ forget_in (post_chunk confined fill io job i j c t s r)
  unfolding post_chunk
  post_chunk-forget i j c t s (refused, d) = refl
  post_chunk-forget i j c t s (accepted h now, d) = refl

  issue-forget :
      (i j : ℕ) (out : Outcome (St K (SeenState e.post e.wait d₀) T))
      → (forget_in out >>= issue e fill io job i j)
        ≡ forget_in (out >>= issue confined fill io job i j)
  unfolding issue
  issue-forget i j (go s) = post_chunk-forget i j (fill s.source s.transfer_size) _ _ _
  issue-forget i j (stop s) = refl

  round-forget :
      (i : ℕ) (s : St K (SeenState e.post e.wait d₀) T)
      → round e fill io job i (forget s) ≡ forget_in (round confined fill io job i s)
  unfolding round prepare
  round-forget i s =
      rw (retire-forget i (i % buff_nparas) (prepare confined fill io job i s))
        (issue-forget i (i % buff_nparas) _)

  proceed-forget :
      (out : Outcome (St K (SeenState e.post e.wait d₀) T)) (f : St K D T → St K D T)
      (g : St K (SeenState e.post e.wait d₀) T → St K (SeenState e.post e.wait d₀) T)
      → ((s : St K (SeenState e.post e.wait d₀) T) → f (forget s) ≡ forget (g s))
      → proceed (forget_in out) f ≡ forget (proceed out g)
  proceed-forget (go s) f g same = same s
  proceed-forget (stop s) f g same = refl

  write_loop-forget :
      (left i : ℕ) (s : St K (SeenState e.post e.wait d₀) T)
      → write_loop e fill io job left i (forget s)
        ≡ forget (write_loop confined fill io job left i s)
  unfolding write_loop
  write_loop-forget zero i s = refl
  write_loop-forget (suc left) i s = rw (round-forget i s) (
      proceed-forget (round confined fill io job i s) _ _ (λ s'. write_loop-forget left (suc i) s'))

  finished-forget :
      (i size : ℕ) (s : St K (SeenState e.post e.wait d₀) T) (r : WriteReply × K)
      → finished e fill io job i size (forget s) r
        ≡ forget (finished confined fill io job i size s r)
  unfolding finished
  finished-forget i size s (failed err, k) = refl
  finished-forget i size s (wrote n, k) = elim (Bool-cases (n == 0)) [
    | inl nothing ↦ rw nothing refl
    | inr some_bytes ↦ rw some_bytes refl
  ]

  finish_posted-forget :
      (o : Option ℕ) (s : St K (SeenState e.post e.wait d₀) T)
      → finish_posted e fill io job o (forget s) ≡ forget (finish_posted confined fill io job o s)
  unfolding finish_posted wait_dma dma_failed call arrived
  finish_posted-forget none s = refl
  finish_posted-forget (some i) s =
      elim (Bool-cases (leb 1 (e.wait s.dma.0 (s.handle (i % buff_nparas))).0)) [
        | inl bad ↦ rw bad refl
        | inr fine ↦ elim (Bool-cases s.data_err) [
          | inl err ↦ rw (fine, err) refl
          | inr ok ↦ rw (fine, ok) (finished-forget i _ _ _)
        ]
      ]

  finish_slot-forget :
      (j : ℕ) (s : St K (SeenState e.post e.wait d₀) T)
      → finish_slot e fill io job j (forget s) ≡ forget (finish_slot confined fill io job j s)
  unfolding finish_slot
  finish_slot-forget j s = finish_posted-forget (s.posted j) s

  drain-forget :
      (s : St K (SeenState e.post e.wait d₀) T)
      → drain e fill io job (forget s) ≡ forget (drain confined fill io job s)
  unfolding drain
  drain-forget s =
      let j = (ve_find_min_posted s.posted + 0) % buff_nparas in
      let k = (ve_find_min_posted s.posted + 1) % buff_nparas in
      ap (finish_slot e fill io job k) (finish_slot-forget j s)
      ∙ finish_slot-forget k (finish_slot confined fill io job j s)

  result-forget :
      (s : St K (SeenState e.post e.wait d₀) T)
      → result e fill io job (forget s) ≡ result confined fill io job s
  unfolding result
  result-forget s = refl

  transfer-forget :
      (s : St K (SeenState e.post e.wait d₀) T)
      → transfer e fill io job (forget s) ≡ transfer confined fill io job s
  unfolding transfer
  transfer-forget s =
      ap (λ x. result e fill io job (drain e fill io job x))
        (write_loop-forget (rounds job.count) 0 s)
      ∙ ap (result e fill io job)
          (drain-forget (write_loop confined fill io job (rounds job.count) 0 s))
      ∙ result-forget _

  Faulty-From : Faulty confined → FaultyFrom e.post e.wait d₀
  Faulty-From (refusal d t is) = refuses d.0 t d.1 is
  Faulty-From (exception d h is) = fails d.0 h d.1 is

  source-confined :
      (origin : T) (i : ℕ)
      → source_at confined fill io job origin i ≡ source_at e fill io job origin i
  unfolding source_at
  source-confined origin zero = refl
  source-confined origin (suc i) =
      ap (λ t. (fill t (size_of e fill io job i)).rest) (source-confined origin i)

  -- The overlapped write ends as a plain loop of writes does, with the same result, errno and
  -- state of the VH; or it returns -1 with errno EIO, which needs a DMA transfer that is refused
  -- or fails in a state that posts and waits lead to from where the engine was. The engine copies
  -- between the addresses it is given, at which the four buffers lie apart; the VH looks at the
  -- bytes of the request alone; every chunk is filled entirely; and the count is below 2^52.
  pub transfer-plain_write_seen :
      Sound e io job
      → (origin : T)
        (whole : (i : ℕ)
          → i < rounds job.count
          → (fill (source_at e fill io job origin i) (size_of e fill io job i)).less ≡ 0)
        (k : K) (errno : ℕ) (vh ve : ℕ → Bytes)
      → let out = transfer e fill io job (start e fill io job k d₀ origin errno vh ve) in
        (out
          ≡ plain_write e.write fill e.second_flag io.vh_buff_and_flag job
              (rounds job.count - 1)
              (leb 2 (rounds job.count))
              (rounds job.count)
              0
              (record { kernel = k; source = origin; total = 0; ofs = job.ofs; errno = errno }))
        ⊎ ((out.ret ≡ minus_one) × (out.errno ≡ eio) × FaultyFrom e.post e.wait d₀)
  transfer-plain_write_seen ok origin whole k errno vh ve =
      rw (transfer-forget (start confined fill io job k (d₀, started) origin errno vh ve))
        (elim (transfer-plain_write confined fill io job
          (record { congr = ok.congr; apart = ok.apart; small = ok.small }) origin
          (λ i lt.
            ap (λ t. (fill t (size_of e fill io job i)).less) (source-confined origin i)
            ∙ whole i lt)
          k (d₀, started) errno vh ve) [
            | inl same ↦ inl same
            | inr (a, b, fault) ↦ inr (a, b, Faulty-From fault)
          ])
