-- ===== src/Acc/Read/Issue.antt =====
-- The second half of the loop's body: the system call, the start of the transfer, and the bookkeeping.
use libsysve.Prelude.{
  ℕ, zero, suc, ◌≤◌, ◌+◌, ◌%◌, ◌<◌, ◌≡◌, ◌≢◌, refl, ltb, Bool, true, false, some, if◌then◌else◌,
  Bytes, copy, update, arith, ap, ◌∙◌, sym,
}
use libsysve.Prelude.Int.{pos, ◌+ℤ◌, pos-+ℤ}
use libsysve.Acc.Windows.{fetch, fetch_lem, vh_after, ve_after}
use libsysve.Acc.Vh.{accepted, paras_size, AccIoInfo, get_dma_size}
use libsysve.Acc.Slots.{Slots, before, beside, slots_differ, Other, moved_bytes}
use libsysve.Acc.Control.{go, stop}
use libsysve.Acc.Read.Types.{Job}
use libsysve.Acc.Read.Plain.{Progress, taken}
use libsysve.Acc.Read.{Env, St, arrived, post_chunk}
use libsysve.Acc.Read.Step.{kept_slot, Sound, LandsAll, deliver, delivered, Agrees}

module _ {K D T : Type 0} (e : Env K D) (put : T → Bytes → ℕ → T) (io : AccIoInfo) (job : Job)
    (ok : Sound e put io job) where
  -- The state between the two halves of the body.
  pub record Free (i : ℕ) (s : St K D T) (p : Progress K T) : Type 0 where
    pub other : Other i s.posted
    pub agrees : Agrees (delivered e put io job (beside i) s) p
    pub clean : s.data_err ≡ false
    pub bak : s.errno_bak ≡ 0
    pub lands : LandsAll io (beside i) s

  -- The state once a chunk of `n` bytes is posted.
  abbrev pub posted_state : ℕ → ℕ → Bytes → K → ℕ → Bool → D → St K D T → St K D T
  posted_state i n bytes k h now d s =
      let j = i % 2 in
      let vh' = copy (s.vh j) 0 bytes n in
      record s {
        kernel = k;
        vh = update s.vh j vh';
        read_out_size = update s.read_out_size j n;
        dma = d;
        handle = update s.handle j h;
        order = update s.order j (fetch io j (get_dma_size n));
        moved = update s.moved j now;
        ve =
            update s.ve j
              (if now then copy (s.ve j) 0 (update s.vh j vh' j) (get_dma_size n) else s.ve j);
        ofs = s.ofs + n;
        posted = update s.posted j (some i);
      }

  fresh_chunk :
      (i n : ℕ) (bytes : Bytes) (k : K) (h : ℕ) (now : Bool) (d : D) (s : St K D T) (x : ℕ)
      → x < n
      → arrived e put io job (posted_state i n bytes k h now d s) (i % 2) x ≡ bytes x
  unfolding arrived
  fresh_chunk i n bytes k h now d s x lt =
      ground (arith, moved_bytes (s.ve (i % 2)) (s.vh (i % 2)) bytes n x)

  pub posted-Slots :
      (i n : ℕ) (bytes : Bytes) (k : K) (h : ℕ) (now : Bool) (d : D) (s : St K D T)
      → Other i s.posted
      → Slots (before (suc i)) (posted_state i n bytes k h now d s).posted
  posted-Slots zero n bytes k h now d s o = (refl, o)
  posted-Slots (suc m) n bytes k h now d s o = (ground (arith, slots_differ m), ground arith)

  -- What stands in the other slot is not touched.
  pub other_arrived :
      (i n : ℕ) (bytes : Bytes) (k : K) (h : ℕ) (now : Bool) (d : D) (s : St K D T) (o : ℕ)
      → o ≢ i % 2
      → let s' = posted_state i n bytes k h now d s in
        (arrived e put io job s' o ≡ arrived e put io job s o)
        × (s'.read_out_size o ≡ s.read_out_size o)
  unfolding arrived
  other_arrived i n bytes k h now d s o ne = ground arith

  pub arrived-deliver :
      (s : St K D T) (o j : ℕ)
      → arrived e put io job (deliver e put io job o s) j ≡ arrived e put io job s j
  unfolding arrived
  arrived-deliver s o j = refl

  pub posted-Agrees :
      (i n : ℕ) (bytes : Bytes) (k : K) (h : ℕ) (now : Bool) (d : D) (s : St K D T)
      (p : Progress K T)
      → Agrees (delivered e put io job (beside i) s) p
      → Agrees
          (delivered e put io job (before (suc i)) (posted_state i n bytes k h now d s))
          (taken e.read put e.second_flag io.vh_buff_and_flag job 0 n bytes k p)
  posted-Agrees zero n bytes k h now d s p a = record {
    kernel = refl;
    sink =
        ok.congr s.sink n _ bytes (λ x lt. fresh_chunk 0 n bytes k h now d s x lt)
        ∙ ap (λ t. put t bytes n) a.sink;
    total = ap (λ z. z +ℤ pos n) a.total ∙ pos-+ℤ p.total n;
    ofs = ap (λ x. x + n) a.ofs;
    errno = a.errno;
  }
  posted-Agrees (suc m) n bytes k h now d s p a = record {
    kernel = refl;
    sink =
        rw (arrived-deliver s' (m % 2) (suc m % 2), own, old.0, old.1)
          (ok.congr _ n _ bytes (λ x lt. fresh_chunk (suc m) n bytes k h now d s x lt)
            ∙ ap (λ t. put t bytes n) a.sink);
    total = rw (own, old.1, a.total) (pos-+ℤ p.total n);
    ofs = ap (λ x. x + n) a.ofs;
    errno = a.errno;
  }
    where
      s' : St K D T
      s' = posted_state (suc m) n bytes k h now d s

      old :
          (arrived e put io job s' (m % 2) ≡ arrived e put io job s (m % 2))
          × (s'.read_out_size (m % 2) ≡ s.read_out_size (m % 2))
      old = other_arrived (suc m) n bytes k h now d s (m % 2) (λ q. slots_differ m (sym q))

      own : s'.read_out_size (suc m % 2) ≡ n
      own = ground arith

  pub posted-Lands :
      (i n : ℕ) (bytes : Bytes) (k : K) (h : ℕ) (now : Bool) (d : D) (s : St K D T)
      → n ≤ paras_size
      → LandsAll io (beside i) s
      → LandsAll io (before (suc i)) (posted_state i n bytes k h now d s)
  unfolding get_dma_size
  posted-Lands zero n bytes k h now d s le l = record {
    apart = ok.apart;
    order = refl;
    fits = omega arith;
  }
  posted-Lands (suc m) n bytes k h now d s le l = (
    record {
      apart = ok.apart;
      order = ground (arith, l.order, slots_differ m);
      fits = ground (arith, l.fits, slots_differ m);
    },
    record { apart = ok.apart; order = ground arith; fits = ground arith },
  )

  engine_moves :
      (j n : ℕ) (now : Bool) (vh ve : ℕ → Bytes)
      → j < 2
      → n ≤ paras_size
      → let t = fetch io j (get_dma_size n) in
        ((if now then vh_after io t vh ve else vh) ≡ vh)
        × ((if now then ve_after io t vh ve else ve)
            ≡ update ve j (if now then copy (ve j) 0 (vh j) (get_dma_size n) else ve j))
  unfolding get_dma_size
  engine_moves j n true vh ve lt le =
      let m = fetch_lem io ok.apart vh ve j (get_dma_size n) lt (omega arith) in (m.1, m.0)
  engine_moves j n false vh ve lt le = (refl, kept_slot ve j)

  -- The engine moves the bytes that were posted for the slot to the slot.
  pub post_chunk-accepted :
      (i n : ℕ) (bytes : Bytes) (k : K) (h : ℕ) (now : Bool) (d : D) (s : St K D T)
      → n ≤ paras_size
      → post_chunk e put io job i
          (i % 2)
          n
          (fetch io (i % 2) (get_dma_size n))
          (record s {
            kernel = k;
            vh = update s.vh (i % 2) (copy (s.vh (i % 2)) 0 bytes n);
            read_out_size = update s.read_out_size (i % 2) n;
          })
          (accepted h now, d)
        ≡ (if ltb n s.transfer_size
            then stop (posted_state i n bytes k h now d s)
            else go (posted_state i n bytes k h now d s))
  unfolding post_chunk
  post_chunk-accepted i n bytes k h now d s le =
      let moves =
        engine_moves (i % 2) n now (update s.vh (i % 2) (copy (s.vh (i % 2)) 0 bytes n)) s.ve
          (omega arith) le in
      λ x.
        let s' : St K D T = record (posted_state i n bytes k h now d s) {
          vh = moves.0 x;
          ve = moves.1 x;
        } in
        if ltb n s.transfer_size then stop s' else go s'
