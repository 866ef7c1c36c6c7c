-- ===== src/Acc/Write/Issue.antt =====
-- The second half of the loop's body: the copy from the caller's data and the start of the transfer.
use libsysve.Prelude.{
  ℕ, zero, suc, ◌-◌, ◌%◌, ◌<◌, ◌≤◌, true, false, ◌≡◌, ◌≢◌, inr, refl, Bool, some, if◌then◌else◌,
  Bytes, copy, update, arith, ap, ◌∙◌, sym,
}
use libsysve.Acc.Vh.{AccIoInfo, PostReply, accepted, refused, get_dma_size, paras_size}
use libsysve.Acc.Windows.{send, send_lem, vh_after, ve_after}
use libsysve.Acc.Read.Step.{kept_slot}
use libsysve.Acc.Control.{Outcome, go, stop, rounds}
use libsysve.Acc.Slots.{Slots, before, beside, slots_differ, Other, get_dma_size-le}
use libsysve.Acc.Read.Types.{Result, Job}
use libsysve.Acc.Write.Types.{Chunk}
use libsysve.Acc.Write.Plain.{Progress}
use libsysve.Acc.Write.{Env, St, arrived, post_chunk, issue}
use libsysve.Acc.Write.Step.{Sound, Faulty, refusal, size_of, source_at, Settled}
use libsysve.Acc.Write.Call.{chunk_at, Holds, Synced}
use libsysve.Acc.Write.Drain.{Held}

module _ {K D T : Type 0} (e : Env K D) (fill : T → ℕ → Chunk T) (io : AccIoInfo) (job : Job)
    (ok : Sound e io job) (marked : Bool) (origin : T) where
  -- The number of chunks that are written once the slot of round `i` is free.
  abbrev pub done : ℕ → ℕ
  done zero = 0
  done (suc zero) = 0
  done (suc (suc m)) = suc m

  -- The state between the two halves of the body.
  pub record Ready (i : ℕ) (s : St K D T) (p : Progress K T) : Type 0 where
    pub running : i < rounds job.count
    pub other : Other i s.posted
    pub held : Held e fill io job ok marked origin (beside i) s
    pub synced : Synced e fill io job ok marked origin (done i) s p
    pub source : s.source ≡ source_at e fill io job origin i
    pub size_set : s.transfer_size ≡ size_of e fill io job i

  -- The state once the chunk of round `i` is posted.
  abbrev pub posted_state : ℕ → Chunk T → ℕ → Bool → D → St K D T → St K D T
  posted_state i chunk h now d s =
      let j = i % 2 in
      let filled = copy (s.ve j) 0 chunk.bytes (s.transfer_size - chunk.less) in
      let size = get_dma_size s.transfer_size in
      record s {
        ve = update s.ve j filled;
        dma = d;
        source = chunk.rest;
        handle = update s.handle j h;
        order = update s.order j (send io j size);
        moved = update s.moved j now;
        dma_size = update s.dma_size j size;
        vh = update s.vh j (if now then copy (s.vh j) 0 (update s.ve j filled j) size else s.vh j);
        posted = update s.posted j (some i);
        need_write_in_size = update s.need_write_in_size j (s.transfer_size - chunk.less);
      }

  -- The caller's bytes reach the VH buffer.
  filled_bytes :
      (vh ve bytes : Bytes) (size less x : ℕ)
      → less ≡ 0
      → x < size
      → copy vh 0 (copy ve 0 bytes (size - less)) (get_dma_size size) x ≡ bytes x
  filled_bytes vh ve bytes size less x whole lt = ground (arith, get_dma_size-le size)

  fresh_chunk :
      (i : ℕ) (chunk : Chunk T) (h : ℕ) (now : Bool) (d : D) (s : St K D T) (x : ℕ)
      → chunk.less ≡ 0
      → x < s.transfer_size
      → arrived e fill io job (posted_state i chunk h now d s) (i % 2) x ≡ chunk.bytes x
  unfolding arrived
  fresh_chunk i chunk h now d s x whole lt =
      ground
        (arith, filled_bytes (s.vh (i % 2)) (s.ve (i % 2)) chunk.bytes s.transfer_size chunk.less x)

  other_Holds :
      (i m : ℕ) (chunk : Chunk T) (h : ℕ) (now : Bool) (d : D) (s : St K D T)
      → m % 2 ≢ i % 2
      → Holds e fill io job ok marked origin m s
      → Holds e fill io job ok marked origin m (posted_state i chunk h now d s)
  unfolding arrived
  other_Holds i m chunk h now d s ne held = record {
    bytes = λ x lt. ground (arith, held.bytes x lt);
    lands = record {
      apart = ok.apart;
      order = ground (arith, held.lands.order);
      fits = ground (arith, held.lands.fits);
    };
    need = ground (arith, held.need);
  }

  -- The transfer of a whole chunk does not leave the windows.
  chunk_fits :
      (i : ℕ) (s : St K D T) (p : Progress K T)
      → Ready i s p
      → get_dma_size s.transfer_size ≤ paras_size
  unfolding rounds get_dma_size
  chunk_fits i s p ready = ground (arith, ok.small, ready.running, ready.size_set)

  engine_moves :
      (j size : ℕ) (now : Bool) (vh ve : ℕ → Bytes)
      → j < 2
      → size ≤ paras_size
      → ((if now then vh_after io (send io j size) vh ve else vh)
          ≡ update vh j (if now then copy (vh j) 0 (ve j) size else vh j))
        × ((if now then ve_after io (send io j size) vh ve else ve) ≡ ve)
  engine_moves j size true vh ve lt le = send_lem io ok.apart vh ve j size lt le
  engine_moves j size false vh ve lt le = (kept_slot vh j, refl)

  -- The engine moves the bytes that were posted for the slot to the slot.
  post_chunk-accepted :
      (i : ℕ) (chunk : Chunk T) (h : ℕ) (now : Bool) (d : D) (s : St K D T)
      → get_dma_size s.transfer_size ≤ paras_size
      → post_chunk e fill io job i
          (i % 2)
          chunk
          (send io (i % 2) (get_dma_size s.transfer_size))
          (record s {
            ve =
                update s.ve
                  (i % 2)
                  (copy (s.ve (i % 2)) 0 chunk.bytes (s.transfer_size - chunk.less));
          })
          (accepted h now, d)
        ≡ go (posted_state i chunk h now d s)
  unfolding post_chunk
  post_chunk-accepted i chunk h now d s le =
      let moves =
        engine_moves (i % 2) (get_dma_size s.transfer_size) now s.vh
          (update s.ve (i % 2) (copy (s.ve (i % 2)) 0 chunk.bytes (s.transfer_size - chunk.less)))
          (omega arith) le in
      λ x. go (record (posted_state i chunk h now d s) { vh = moves.0 x; ve = moves.1 x })

  fresh_Holds :
      (i : ℕ) (h : ℕ) (now : Bool) (d : D) (s : St K D T) (p : Progress K T)
      → Ready i s p
      → (fill s.source s.transfer_size).less ≡ 0
      → Holds e fill io job ok marked origin i
          (posted_state i (fill s.source s.transfer_size) h now d s)
  fresh_Holds i h now d s p ready whole = record {
    bytes = λ x lt.
        fresh_chunk i (fill s.source s.transfer_size) h now d s x whole (rw ready.size_set lt)
        ∙ ap (λ (c : Chunk T). c.bytes x) same;
    lands = record {
      apart = ok.apart;
      order = ground arith;
      fits = ground (arith, chunk_fits i s p ready);
    };
    need = ground (arith, ready.size_set, whole);
  }
    where
      same : fill s.source s.transfer_size ≡ chunk_at e fill io job ok marked origin i
      same = rw (ready.source, ready.size_set)

  posted-Slots :
      (i : ℕ) (chunk : Chunk T) (h : ℕ) (now : Bool) (d : D) (s : St K D T)
      → Other i s.posted
      → Slots (before (suc i)) (posted_state i chunk h now d s).posted
  posted-Slots zero chunk h now d s o = (refl, o)
  posted-Slots (suc m) chunk h now d s o = (ground (arith, slots_differ m), ground arith)

  posted-Held :
      (i : ℕ) (h : ℕ) (now : Bool) (d : D) (s : St K D T) (p : Progress K T)
      → Ready i s p
      → (fill s.source s.transfer_size).less ≡ 0
      → Held e fill io job ok marked origin
          (before (suc i))
          (posted_state i (fill s.source s.transfer_size) h now d s)
  posted-Held zero h now d s p ready whole = fresh_Holds zero h now d s p ready whole
  posted-Held (suc m) h now d s p ready whole = (
    other_Holds (suc m) m (fill s.source s.transfer_size) h now d s (λ q. slots_differ m (sym q))
        ready.held,
    fresh_Holds (suc m) h now d s p ready whole,
  )

  -- What holds when round `i` has posted its chunk.
  abbrev pub Issued : ℕ → Outcome (St K D T) → St K D T → Progress K T → Type 0
  Issued i (stop t) s p = (plain : Result K (Unit {0})) → Settled e fill io job t plain
  Issued i (go t) s p =
      Slots (before (suc i)) t.posted
      × Held e fill io job ok marked origin (before (suc i)) t
      × Synced e fill io job ok marked origin (done i) t p
      × (t.source ≡ source_at e fill io job origin (suc i))
      × (t.vh_buff_and_flag ≡ s.vh_buff_and_flag)
      × (t.transfer_size ≡ s.transfer_size)

  post-Issued :
      (i : ℕ) (r : PostReply × D) (s : St K D T) (p : Progress K T)
      → Ready i s p
      → (fill s.source s.transfer_size).less ≡ 0
      → (r.0 ≡ refused → Faulty e)
      → let chunk = fill s.source s.transfer_size in
        Issued i
          (post_chunk e fill io job i
            (i % 2)
            chunk
            (send io (i % 2) (get_dma_size s.transfer_size))
            (record s {
              ve =
                  update s.ve
                    (i % 2)
                    (copy (s.ve (i % 2)) 0 chunk.bytes (s.transfer_size - chunk.less));
            })
            r)
          s
          p
  unfolding source_at
  post-Issued i (refused, d) s p ready whole fault =
      unfold post_chunk in λ plain. (refl, inr (refl, refl, fault refl))
  post-Issued i (accepted h now, d) s p ready whole fault =
      rw (post_chunk-accepted i (fill s.source s.transfer_size) h now d s (chunk_fits i s p ready))
        (
          posted-Slots i (fill s.source s.transfer_size) h now d s ready.other,
          posted-Held i h now d s p ready whole,
          record {
            kernel = ready.synced.kernel;
            total = ready.synced.total;
            ofs = ready.synced.ofs;
            errno = ready.synced.errno;
            source = ready.synced.source;
            clean = ready.synced.clean;
            bak = ready.synced.bak;
          },
          rw (ready.source, ready.size_set),
          refl,
          refl,
        )

  pub issue-Issued :
      (i : ℕ) (s : St K D T) (p : Progress K T)
      → Ready i s p
      → (chunk_at e fill io job ok marked origin i).less ≡ 0
      → Issued i (issue e fill io job i (i % 2) s) s p
  unfolding issue
  issue-Issued i s p ready whole =
      post-Issued i _ s p ready (rw (ready.source, ready.size_set) whole) (refusal s.dma _)
