-- ===== src/Acc/Write/Call.antt =====
-- A chunk that is under way is written: in the loop's body and in the final loop.
use libsysve.Prelude.{
  ℕ, suc, ◌+◌, ◌%◌, ◌<◌, ◌≡◌, ◌⊎◌, inl, inr, refl, Bool, true, false, ◌==◌, ltb, if◌then◌else◌,
  update, arith, Bool-cases, ap, ◌∙◌, sym,
}
use libsysve.Prelude.Int.{pos, ◌+ℤ◌, pos-+ℤ}
use libsysve.Acc.Vh.{AccIoInfo, mark_second}
use libsysve.Acc.Read.Types.{Result, Job}
use libsysve.Acc.Write.Types.{WriteReply, failed, wrote, Chunk}
use libsysve.Acc.Write.Plain.{Progress, sent, after, request, step}
use libsysve.Acc.Write.{Env, St, arrived, call, finished, result}
use libsysve.Acc.Write.Step.{Sound, Lands, last, size_of, source_at, Settled, waited}

module _ {K D T : Type 0} (e : Env K D) (fill : T → ℕ → Chunk T) (io : AccIoInfo) (job : Job)
    (ok : Sound e io job) (marked : Bool) (origin : T) where
  abbrev pub size_at : ℕ → ℕ
  size_at = size_of e fill io job

  abbrev pub chunk_at : ℕ → Chunk T
  chunk_at m = fill (source_at e fill io job origin m) (size_at m)

  -- The slot of round `m` holds, or will hold, that round's data.
  pub record Holds (m : ℕ) (s : St K D T) : Type 0 where
    pub bytes : (x : ℕ) → x < size_at m → arrived e fill io job s (m % 2) x ≡ (chunk_at m).bytes x
    pub lands : Lands io s (m % 2)
    pub need : s.need_write_in_size (m % 2) ≡ size_at m

  abbrev pub Buffers : St K D T → Type 0
  Buffers s =
      s.vh_buff_and_flag
      ≡ (if marked then mark_second e.second_flag io.vh_buff_and_flag else io.vh_buff_and_flag)

  -- All chunks before round `m` are written, as by the plain write.
  pub record Synced (m : ℕ) (s : St K D T) (p : Progress K T) : Type 0 where
    pub kernel : s.kernel ≡ p.kernel
    pub total : s.exit_result ≡ pos p.total
    pub ofs : s.ofs ≡ p.ofs
    pub errno : s.errno ≡ p.errno
    pub source : p.source ≡ source_at e fill io job origin m
    pub clean : s.data_err ≡ false
    pub bak : s.errno_bak ≡ 0

  abbrev pub plain_step :
      ℕ → Progress K T → (Progress K T → Result K (Unit {0})) → Result K (Unit {0})
  plain_step m p =
      step e.write fill e.second_flag io.vh_buff_and_flag job (last e fill io job) marked m p

  abbrev pub answered :
      ℕ → Progress K T → WriteReply × K → (Progress K T → Result K (Unit {0})) → Result K (Unit {0})
  answered m p =
      after e.write fill e.second_flag io.vh_buff_and_flag job (last e fill io job) m
        (source_at e fill io job origin (suc m)) p

  abbrev pub next_progress : ℕ → ℕ → K → Progress K T → Progress K T
  next_progress m n k p =
      sent e.write fill e.second_flag io.vh_buff_and_flag job (last e fill io job) n
        (source_at e fill io job origin (suc m)) k p

  -- The state once the chunk in slot `j` is written.
  abbrev pub sent_state : K → ℕ → ℕ → St K D T → St K D T
  sent_state k n j s = record s {
    dma = (e.wait s.dma (s.handle j)).1;
    vh = update s.vh j (arrived e fill io job s j);
    moved = update s.moved j true;
    kernel = k;
    exit_result = s.exit_result +ℤ pos n;
    ofs = s.ofs + n;
  }

  pub sent-Synced :
      (m n : ℕ) (k : K) (s : St K D T) (p : Progress K T)
      → Synced m s p
      → Synced (suc m) (sent_state k n (m % 2) s) (next_progress m n k p)
  sent-Synced m n k s p y = record {
    kernel = refl;
    total = ap (λ z. z +ℤ pos n) y.total ∙ pos-+ℤ p.total n;
    ofs = ap (λ x. x + n) y.ofs;
    errno = y.errno;
    source = refl;
    clean = y.clean;
    bak = y.bak;
  }

  -- Either the result is settled, or the chunk is written whole.
  abbrev pub Advanced :
      ℕ
      → St K D T
      → Progress K T
      → St K D T
      → ((Progress K T → Result K (Unit {0})) → Result K (Unit {0}))
      → Type 0
  Advanced m s p s' plain =
      ((next : Progress K T → Result K (Unit {0})) → Settled e fill io job s' (plain next))
      ⊎ ((k : K) × (n : ℕ) × (s' ≡ sent_state k n (m % 2) s)
          × ((next : Progress K T → Result K (Unit {0}))
              → plain next ≡ next (next_progress m n k p)))

  pub same_call :
      (m size : ℕ) (s : St K D T) (p : Progress K T)
      → Buffers s
      → Synced m s p
      → Holds m s
      → size ≡ size_at m
      → call e fill io job (m % 2) size (waited e fill io job (m % 2) s)
        ≡ e.write p.kernel
            (request e.write fill e.second_flag io.vh_buff_and_flag job
              (last e fill io job)
              marked
              m
              p)
            (chunk_at m).bytes
  unfolding call
  same_call m size s p b y h q =
      asked
      ∙ ok.congr p.kernel _ (update s.vh (m % 2) (arrived e fill io job s (m % 2)) (m % 2)) _
          (λ x lt. landed x ∙ h.bytes x lt)
    where
      asked :
          call e fill io job (m % 2) size (waited e fill io job (m % 2) s)
          ≡ e.write p.kernel
              (request e.write fill e.second_flag io.vh_buff_and_flag job
                (last e fill io job)
                marked
                m
                p)
              (update s.vh (m % 2) (arrived e fill io job s (m % 2)) (m % 2))
      asked = ground (arith, y.kernel, y.ofs)

      landed :
          (x : ℕ)
          → update s.vh (m % 2) (arrived e fill io job s (m % 2)) (m % 2) x
            ≡ arrived e fill io job s (m % 2) x
      landed x = ground arith

  pub finished-Advanced :
      (m size : ℕ) (r : WriteReply × K) (s : St K D T) (p : Progress K T)
      → Synced m s p
      → size ≡ size_at m
      → Advanced m s p
          (finished e fill io job m size (waited e fill io job (m % 2) s) r)
          (answered m p r)
  unfolding finished
  finished-Advanced m size (failed err, k) s p y q =
      inl (λ next. (refl, inl (unfold result in ground (arith, y.total, y.bak))))
  finished-Advanced m size (wrote n, k) s p y q = elim (Bool-cases (n == 0)) [
    | inl nothing ↦
        rw nothing (inl (λ next. (refl, inl (unfold result in ground (arith, y.total, y.bak)))))
    | inr some_bytes ↦ rw some_bytes (elim (Bool-cases (ltb n size)) [
      | inl short ↦ rw short (
          inl (λ next. (
            refl,
            inl (
                rw (ap (ltb n) (sym q) ∙ short)
                  (unfold result in ground (arith, y.total, y.bak, pos-+ℤ p.total n))),
          )))
      | inr full ↦ rw full (inr (k, n, refl, λ next. rw (ap (ltb n) (sym q) ∙ full)))
    ])
  ]
