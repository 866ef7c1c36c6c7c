-- ===== src/Acc/Write/Step.antt =====
-- The invariant that ties the overlapped write to the plain one, and what holds once an error is
-- noted.
use libsysve.Prelude.{
  ℕ, zero, suc, ◌-◌, ◌%◌, ◌≤◌, ◌<◌, ◌^◌, ◌≡◌, Bytes, ◌⊎◌, inl, inr, true, false, Option, none, some,
  leb, update, arith, Bool-cases,
}
use libsysve.Prelude.Int.{minus_one}
use libsysve.Acc.Windows.{Apart, send, send_lem}
use libsysve.Acc.Vh.{Request, paras_size, Transfer, refused, AccIoInfo, eio}
use libsysve.Acc.Control.{rounds}
use libsysve.Acc.Read.Step.{kept_slot}
use libsysve.Acc.Read.Types.{Result, Job}
use libsysve.Acc.Write.Types.{Chunk}
use libsysve.Acc.Write.Plain.{chunk_size}
use libsysve.Acc.Write.{
  Env, St, arrived, wait_dma, dma_failed, finish_posted, finish_slot, drain, result,
}

-- What a write relies on: the VH looks at the bytes of the request alone, the windows of the buffers are
-- apart, and the rounds fit an int.
pub record Sound {K D : Type 0} (e : Env K D) (io : AccIoInfo) (job : Job) : Type 0 where
  pub congr :
      (k : K) (r : Request) (f g : Bytes)
      → ((x : ℕ) → x < r.size → f x ≡ g x)
      → e.write k r f ≡ e.write k r g
  pub apart : Apart io
  pub small : job.count < 2 ^ 52

-- The transfer of slot `j` is the one that fills its VH buffer.
pub record Lands {K D T : Type 0} (io : AccIoInfo) (s : St K D T) (j : ℕ) : Type 0 where
  pub apart : Apart io
  pub order : s.order j ≡ send io j (s.dma_size j)
  pub fits : s.dma_size j ≤ paras_size

-- The DMA engine refused a transfer or reported an exception.
pub data Faulty {K D : Type 0} (e : Env K D) : Type 0 where
  refusal : (d : D) (t : Transfer) → (e.post d t).0 ≡ refused → Faulty e
  exception : (d : D) (h : ℕ) → leb 1 (e.wait d h).0 ≡ true → Faulty e

module _ {K D T : Type 0} (e : Env K D) (fill : T → ℕ → Chunk T) (io : AccIoInfo) (job : Job) where
  abbrev pub last : ℕ
  last = rounds job.count - 1

  abbrev pub size_of : ℕ → ℕ
  size_of = chunk_size e.write fill e.second_flag io.vh_buff_and_flag job last

  -- Where the data of round `i` starts.
  unfoldable pub source_at : T → ℕ → T
  source_at t zero = t
  source_at t (suc i) = (fill (source_at t i) (size_of i)).rest

  -- A result is the plain write's, or the failure of a DMA transfer.
  abbrev pub Good : Result K (Unit {0}) → Result K (Unit {0}) → Type 0
  Good out plain = (out ≡ plain) ⊎ ((out.ret ≡ minus_one) × (out.errno ≡ eio) × Faulty e)

  abbrev pub DmaFailed : St K D T → Type 0
  DmaFailed s = (s.exit_result ≡ minus_one) × (s.errno_bak ≡ eio) × Faulty e

  -- An error is noted, and the result is settled.
  abbrev pub Settled : St K D T → Result K (Unit {0}) → Type 0
  Settled s plain = (s.data_err ≡ true) × ((result e fill io job s ≡ plain) ⊎ DmaFailed s)

  -- The state after a wait that succeeded.
  abbrev pub waited : ℕ → St K D T → St K D T
  waited j s = record s {
    dma = (e.wait s.dma (s.handle j)).1;
    vh = update s.vh j (arrived e fill io job s j);
    moved = update s.moved j true;
  }

  -- Where the slot's own transfer was posted, the wait leaves its bytes there, and nothing else.
  pub wait_dma-Lands :
      (j : ℕ) (s : St K D T)
      → j < 2
      → Lands io s j
      → wait_dma e fill io job j s ≡ ((e.wait s.dma (s.handle j)).0, waited j s)
  unfolding wait_dma arrived
  wait_dma-Lands j s lt l = elim (Bool-cases (s.moved j)) [
    | inl now ↦ rw now (λ i. (
      (e.wait s.dma (s.handle j)).0,
      record s {
        dma = (e.wait s.dma (s.handle j)).1;
        vh = kept_slot s.vh j i;
        moved = update s.moved j true;
      },
    ))
    | inr late ↦
        let moves = send_lem io l.apart s.vh s.ve j (s.dma_size j) lt l.fits in
        rw (late, l.order)
          (λ i. (
            (e.wait s.dma (s.handle j)).0,
            record s {
              dma = (e.wait s.dma (s.handle j)).1;
              vh = moves.0 i;
              ve = moves.1 i;
              moved = update s.moved j true;
            },
          ))
  ]

  pub only_waits :
      (i : ℕ) (s : St K D T)
      → leb 1 (e.wait s.dma (s.handle (i % 2))).0 ≡ false
      → s.data_err ≡ true
      → finish_posted e fill io job (some i) s ≡ (wait_dma e fill io job (i % 2) s).1
  unfolding finish_posted wait_dma
  only_waits i s fine err = ground arith

  -- Once an error is noted, the final loop only waits.
  pub finish_posted-Settled :
      (o : Option ℕ) (s : St K D T) (plain : Result K (Unit {0}))
      → Settled s plain
      → Settled (finish_posted e fill io job o s) plain
  unfolding finish_posted wait_dma dma_failed result
  finish_posted-Settled none s plain f = f
  finish_posted-Settled (some i) s plain (err, f) =
      elim (Bool-cases (leb 1 (e.wait s.dma (s.handle (i % 2))).0)) [
        | inl bad ↦
            (ground arith, inr (ground arith, ground arith, exception s.dma (s.handle (i % 2)) bad))
        | inr fine ↦ rw (only_waits i s fine err) (err, f)
      ]

  pub Settled-Good :
      (s : St K D T) (plain : Result K (Unit {0}))
      → Settled s plain
      → Good (result e fill io job s) plain
  unfolding result
  Settled-Good s plain (err, inl same) = inl same
  Settled-Good s plain (err, inr (a, b, fault)) = inr (a, ground arith, fault)

  pub drain-Settled :
      (s : St K D T) (plain : Result K (Unit {0}))
      → Settled s plain
      → Good (result e fill io job (drain e fill io job s)) plain
  unfolding drain finish_slot
  drain-Settled s plain f =
      Settled-Good _ plain (finish_posted-Settled _ _ plain (finish_posted-Settled _ s plain f))
