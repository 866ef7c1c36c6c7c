-- ===== src/Acc/Read/Seen.antt =====
-- The overlapped read meets the engine in the states that its own posts and waits lead to, and in no other.
use libsysve.Prelude.{
  ℕ, zero, suc, ◌+◌, ◌-◌, ◌%◌, ◌≡◌, ◌⊎◌, refl, inl, inr, Bool-cases, ltb, leb, ◌==◌, Option, none,
  some, Bytes, ap, ◌∙◌,
}
use libsysve.Prelude.Int.{minus_one}
use libsysve.Acc.Vh.{
  AccIoInfo, Transfer, ve_find_min_posted, PostReply, accepted, refused, buff_nparas, eio,
}
use libsysve.Acc.Control.{Outcome, go, stop, ◌>>=◌, proceed, rounds}
use libsysve.Acc.Engine.{started, SeenState, seen_post, seen_wait, FaultyFrom, refuses, fails}
use libsysve.Acc.Read.Types.{ReadReply, failed, got, Job}
use libsysve.Acc.Read.Plain.{plain_read}
use libsysve.Acc.Read.{
  Env, St, arrived, wait_dma, dma_failed, copy_out, prepare, retire, post_chunk, receive, issue,
  round, read_loop, finish_posted, finish_slot, drain, result, transfer, start,
}
use libsysve.Acc.Read.Step.{Sound, Faulty, refusal, exception}
use libsysve.Acc.Read.Refine.{transfer-plain_read}

module _ {K D T : Type 0} (e : Env K D) (put : T → Bytes → ℕ → T) (io : AccIoInfo) (job : Job)
    (d₀ : D) where
  abbrev confined : Env K (SeenState e.post e.wait d₀)
  confined = record {
    second_flag = e.second_flag;
    read = e.read;
    post = seen_post e.post e.wait d₀;
    wait = seen_wait e.post e.wait d₀;
  }

  abbrev forget : St K (SeenState e.post e.wait d₀) T → St K D T
  forget s = record {
    kernel = s.kernel;
    dma = s.dma.0;
    sink = s.sink;
    errno = s.errno;
    vh = s.vh;
    ve = s.ve;
    moved = s.moved;
    handle = s.handle;
    order = s.order;
    vh_buff_and_flag = s.vh_buff_and_flag;
    posted = s.posted;
    read_out_size = s.read_out_size;
    ofs = s.ofs;
    transfer_size = s.transfer_size;
    exit_result = s.exit_result;
    errno_bak = s.errno_bak;
    data_err = s.data_err;
  }

  abbrev forget_in : Outcome (St K (SeenState e.post e.wait d₀) T) → Outcome (St K D T)
  forget_in (go s) = go (forget s)
  forget_in (stop s) = stop (forget s)

  retire-forget :
      (i j : ℕ) (s : St K (SeenState e.post e.wait d₀) T)
      → retire e put io job i j (forget s) ≡ forget_in (retire confined put io job i j s)
  unfolding retire wait_dma dma_failed copy_out arrived
  retire-forget i j s = elim (Bool-cases (ltb i buff_nparas)) [
    | inl early ↦ rw early refl
    | inr late ↦ elim (Bool-cases (leb 1 (e.wait s.dma.0 (s.handle j)).0)) [
      | inl bad ↦ rw (late, bad) refl
      | inr fine ↦ rw (late, fine) refl
    ]
  ]

  post_chunk-forget :
      (i j n : ℕ) (t : Transfer) (s : St K (SeenState e.post e.wait d₀) T)
      (r : PostReply × SeenState e.post e.wait d₀)
      → post_chunk e put io job i j n t (forget s) (r.0, r.1.0)
        ≡ forget_in (post_chunk confined put io job i j n t s r)
  unfolding post_chunk
  post_chunk-forget i j n t s (refused, d) = refl
  post_chunk-forget i j n t s (accepted h now, d) = elim (Bool-cases (ltb n s.transfer_size)) [
    | inl short ↦ rw short refl
    | inr full ↦ rw full refl
  ]

  receive-forget :
      (i j : ℕ) (s : St K (SeenState e.post e.wait d₀) T) (r : ReadReply × K)
      → receive e put io job i j (forget s) r ≡ forget_in (receive confined put io job i j s r)
  unfolding receive
  receive-forget i j s (failed err, k) = refl
  receive-forget i j s (got n bytes, k) = elim (Bool-cases (n == 0)) [
    | inl nothing ↦ rw nothing refl
    | inr some_bytes ↦ rw some_bytes (post_chunk-forget i j n _ _ _)
  ]

  issue-forget :
      (i j : ℕ) (out : Outcome (St K (SeenState e.post e.wait d₀) T))
      → (forget_in out >>= issue e put io job i j)
        ≡ forget_in (out >>= issue confined put io job i j)
  unfolding issue
  issue-forget i j (go s) = receive-forget i j s _
  issue-forget i j (stop s) = refl

  round-forget :
      (i : ℕ) (s : St K (SeenState e.post e.wait d₀) T)
      → round e put io job i (forget s) ≡ forget_in (round confined put io job i s)
  unfolding round prepare
  round-forget i s =
      rw (retire-forget i (i % buff_nparas) (prepare confined put io job i s))
        (issue-forget i (i % buff_nparas) _)

  proceed-forget :
      (out : Outcome (St K (SeenState e.post e.wait d₀) T)) (f : St K D T → St K D T)
      (g : St K (SeenState e.post e.wait d₀) T → St K (SeenState e.post e.wait d₀) T)
      → ((s : St K (SeenState e.post e.wait d₀) T) → f (forget s) ≡ forget (g s))
      → proceed (forget_in out) f ≡ forget (proceed out g)
  proceed-forget (go s) f g same = same s
  proceed-forget (stop s) f g same = refl

  read_loop-forget :
      (left i : ℕ) (s : St K (SeenState e.post e.wait d₀) T)
      → read_loop e put io job left i (forget s) ≡ forget (read_loop confined put io job left i s)
  unfolding read_loop
  read_loop-forget zero i s = refl
  read_loop-forget (suc left) i s =
      rw (round-forget i s) (
        proceed-forget (round confined put io job i s) _ _ (λ s'. read_loop-forget left (suc i) s'))

  finish_posted-forget :
      (o : Option ℕ) (s : St K (SeenState e.post e.wait d₀) T)
      → finish_posted e put io job o (forget s) ≡ forget (finish_posted confined put io job o s)
  unfolding finish_posted wait_dma dma_failed copy_out arrived
  finish_posted-forget none s = refl
  finish_posted-forget (some i) s =
      elim (Bool-cases (leb 1 (e.wait s.dma.0 (s.handle (i % buff_nparas))).0)) [
        | inl bad ↦ rw bad refl
        | inr fine ↦ elim (Bool-cases s.data_err) [
          | inl err ↦ rw (fine, err) refl
          | inr ok ↦ rw (fine, ok) refl
        ]
      ]

  finish_slot-forget :
      (j : ℕ) (s : St K (SeenState e.post e.wait d₀) T)
      → finish_slot e put io job j (forget s) ≡ forget (finish_slot confined put io job j s)
  unfolding finish_slot
  finish_slot-forget j s = finish_posted-forget (s.posted j) s

  drain-forget :
      (s : St K (SeenState e.post e.wait d₀) T)
      → drain e put io job (forget s) ≡ forget (drain confined put io job s)
  unfolding drain
  drain-forget s =
      let j = (ve_find_min_posted s.posted + 0) % buff_nparas in
      let k = (ve_find_min_posted s.posted + 1) % buff_nparas in
      ap (finish_slot e put io job k) (finish_slot-forget j s)
      ∙ finish_slot-forget k (finish_slot confined put io job j s)

  result-forget :
      (s : St K (SeenState e.post e.wait d₀) T)
      → result e put io job (forget s) ≡ result confined put io job s
  unfolding result
  result-forget s = refl

  transfer-forget :
      (s : St K (SeenState e.post e.wait d₀) T)
      → transfer e put io job (forget s) ≡ transfer confined put io job s
  unfolding transfer
  transfer-forget s =
      ap (λ x. result e put io job (drain e put io job x)) (read_loop-forget (rounds job.count) 0 s)
      ∙ ap (result e put io job)
          (drain-forget (read_loop confined put io job (rounds job.count) 0 s))
      ∙ result-forget _

  Faulty-From : Faulty confined → FaultyFrom e.post e.wait d₀
  Faulty-From (refusal d t is) = refuses d.0 t d.1 is
  Faulty-From (exception d h is) = fails d.0 h d.1 is

  -- The overlapped read ends as a plain loop of reads does, with the same result, errno, delivered
  -- data and state of the VH; or it returns -1 with errno EIO, which needs a DMA transfer that is
  -- refused or fails in a state that posts and waits lead to from where the engine was. The engine
  -- copies between the addresses it is given, at which the four buffers lie apart; the way data is
  -- handed over depends on the bytes it is given alone; the VH gives no more bytes than are asked
  -- for; and the count is below 2^52.
  pub transfer-plain_read_seen :
      Sound e put io job
      → (k : K) (t : T) (errno : ℕ) (vh ve : ℕ → Bytes)
      → let out = transfer e put io job (start e put io job k d₀ t errno vh ve) in
        (out
          ≡ plain_read e.read put e.second_flag io.vh_buff_and_flag job
              (rounds job.count - 1)
              (rounds job.count)
              0
              (record { kernel = k; sink = t; total = 0; ofs = job.ofs; errno = errno }))
        ⊎ ((out.ret ≡ minus_one) × (out.errno ≡ eio) × FaultyFrom e.post e.wait d₀)
  transfer-plain_read_seen ok k t errno vh ve =
      rw (transfer-forget (start confined put io job k (d₀, started) t errno vh ve))
        (elim (transfer-plain_read confined put io job still k (d₀, started) t errno vh ve) [
          | inl same ↦ inl same
          | inr (a, b, fault) ↦ inr (a, b, Faulty-From fault)
        ])
    where
      still : Sound confined put io job
      still = record { congr = ok.congr; apart = ok.apart; honest = ok.honest; small = ok.small }
