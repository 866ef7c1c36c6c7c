-- ===== src/Acc/Read/Step.antt =====
-- The invariant that ties the overlapped read to the plain one, and what one part of the loop's body
-- does to it.
use libsysve.Prelude.{
  ℕ, suc, ◌+◌, ◌%◌, ◌≡◌, ◌⊎◌, inl, inr, ◌≤◌, ◌<◌, ◌^◌, update, fun_ext, Bool-cases, true, Option,
  none, some, leb, Bytes, arith,
}
use libsysve.Prelude.Int.{pos, ◌+ℤ◌, minus_one}
use libsysve.Acc.Windows.{Apart, fetch, fetch_lem}
use libsysve.Acc.Vh.{
  Request, Transfer, refused, AccIoInfo, eio, ve_find_min_posted, get_dma_size, paras_size,
}
use libsysve.Acc.Slots.{Pending, idle, one, two}
use libsysve.Acc.Read.Types.{ReadReply, got, Result, Job}
use libsysve.Acc.Read.Plain.{Progress}
use libsysve.Acc.Read.{
  Env, St, arrived, wait_dma, dma_failed, finish_posted, finish_slot, drain, result,
}

module _ {K D T : Type 0} (e : Env K D) (put : T → Bytes → ℕ → T) (io : AccIoInfo) (job : Job) where
  -- The state once the chunk in slot `j` is handed over.
  abbrev pub deliver : ℕ → St K D T → St K D T
  deliver j s = record s {
    sink = put s.sink (arrived e put io job s j) (s.read_out_size j);
    exit_result = s.exit_result +ℤ pos (s.read_out_size j);
  }

  abbrev pub delivered : Pending → St K D T → St K D T
  delivered idle s = s
  delivered (one m) s = deliver (m % 2) s
  delivered (two m) s = deliver (suc m % 2) (deliver (m % 2) s)

-- The VH gives no more bytes than are asked for.
abbrev pub Honest : {K : Type 0} → (K → Request → ReadReply × K) → Type 0
Honest {K} read =
    (k : K) (r : Request) (n : ℕ) (bytes : Bytes) → (read k r).0 ≡ got n bytes → n ≤ r.size

-- What a read relies on: the way data is handed over depends on the bytes alone, the windows of the
-- buffers are apart, the VH gives no more bytes than are asked for, and the rounds fit an int.
pub record Sound {K D T : Type 0} (e : Env K D) (put : T → Bytes → ℕ → T) (io : AccIoInfo)
    (job : Job) : Type 0 where
  pub congr : (t : T) (n : ℕ) (f g : Bytes) → ((k : ℕ) → k < n → f k ≡ g k) → put t f n ≡ put t g n
  pub apart : Apart io
  pub honest : Honest e.read
  pub small : job.count < 2 ^ 52

-- The transfer of slot `j` is the one that fills it from its VH buffer.
pub record Lands {K D T : Type 0} (io : AccIoInfo) (s : St K D T) (j : ℕ) : Type 0 where
  pub apart : Apart io
  pub order : s.order j ≡ fetch io j (get_dma_size (s.read_out_size j))
  pub fits : get_dma_size (s.read_out_size j) ≤ paras_size

abbrev pub LandsAll : {K D T : Type 0} → AccIoInfo → Pending → St K D T → Type 0
LandsAll io idle s = Unit {0}
LandsAll io (one m) s = Lands io s (m % 2)
LandsAll io (two m) s = Lands io s (m % 2) × Lands io s (suc m % 2)

pub kept_slot : (f : ℕ → Bytes) (j : ℕ) → f ≡ update f j (f j)
kept_slot f j = fun_ext λ k. fun_ext λ x. ground arith

module _ {K D T : Type 0} (e : Env K D) (put : T → Bytes → ℕ → T) (io : AccIoInfo) (job : Job) where
  -- Then the wait leaves the slot's bytes there, and nothing else.
  pub wait_dma-Lands :
      (j : ℕ) (s : St K D T)
      → j < 2
      → Lands io s j
      → wait_dma e put io job j s ≡ (
        (e.wait s.dma (s.handle j)).0,
        record s {
          dma = (e.wait s.dma (s.handle j)).1;
          ve = update s.ve j (arrived e put io job s j);
          moved = update s.moved j true;
        },
      )
  unfolding wait_dma arrived
  wait_dma-Lands j s lt l = elim (Bool-cases (s.moved j)) [
    | inl now ↦ rw now (λ i. (
      (e.wait s.dma (s.handle j)).0,
      record s {
        dma = (e.wait s.dma (s.handle j)).1;
        ve = kept_slot s.ve j i;
        moved = update s.moved j true;
      },
    ))
    | inr late ↦
        let moves = fetch_lem io l.apart s.vh s.ve j (get_dma_size (s.read_out_size j)) lt l.fits in
        rw (late, l.order)
          (λ i. (
            (e.wait s.dma (s.handle j)).0,
            record s {
              dma = (e.wait s.dma (s.handle j)).1;
              vh = moves.1 i;
              ve = moves.0 i;
              moved = update s.moved j true;
            },
          ))
  ]

-- The fields in which a state with nothing under way must agree with the plain read.
pub record Agrees {K D T : Type 0} (s : St K D T) (p : Progress K T) : Type 0 where
  pub kernel : s.kernel ≡ p.kernel
  pub sink : s.sink ≡ p.sink
  pub total : s.exit_result ≡ pos p.total
  pub ofs : s.ofs ≡ p.ofs
  pub errno : s.errno ≡ p.errno

-- The DMA engine refused a transfer or reported an exception.
pub data Faulty {K D : Type 0} (e : Env K D) : Type 0 where
  refusal : (d : D) (t : Transfer) → (e.post d t).0 ≡ refused → Faulty e
  exception : (d : D) (h : ℕ) → leb 1 (e.wait d h).0 ≡ true → Faulty e

module _ {K D T : Type 0} (e : Env K D) (put : T → Bytes → ℕ → T) (io : AccIoInfo) (job : Job) where
  -- A result is the plain read's, or the failure of a DMA transfer.
  abbrev pub Good : Result K T → Result K T → Type 0
  Good out plain = (out ≡ plain) ⊎ ((out.ret ≡ minus_one) × (out.errno ≡ eio) × Faulty e)

  -- Once an error is noted, nothing clears it.
  pub finish_posted-failed :
      (o : Option ℕ) (s : St K D T)
      → s.data_err ≡ true
      → s.exit_result ≡ minus_one
      → s.errno_bak ≡ eio
      → let s' = finish_posted e put io job o s in
        (s'.data_err ≡ true) × (s'.exit_result ≡ minus_one) × (s'.errno_bak ≡ eio)
  unfolding finish_posted wait_dma dma_failed
  finish_posted-failed none s a b c = (a, b, c)
  finish_posted-failed (some i) s a b c = ground arith

  pub drain-failed :
      (s : St K D T)
      → s.data_err ≡ true
      → s.exit_result ≡ minus_one
      → s.errno_bak ≡ eio
      → Faulty e
      → (plain : Result K T) → Good (result e put io job (drain e put io job s)) plain
  unfolding drain finish_slot result
  drain-failed s a b c fault plain = inr (ground (arith, second), ground (arith, second), fault)
    where
      min_k : ℕ
      min_k = ve_find_min_posted s.posted

      s' : St K D T
      s' = finish_posted e put io job (s.posted ((min_k + 0) % 2)) s

      first : (s'.data_err ≡ true) × (s'.exit_result ≡ minus_one) × (s'.errno_bak ≡ eio)
      first = finish_posted-failed (s.posted ((min_k + 0) % 2)) s a b c

      o : Option ℕ
      o = s'.posted ((min_k + 1) % 2)

      s'' : St K D T
      s'' = finish_posted e put io job o s'

      second : (s''.data_err ≡ true) × (s''.exit_result ≡ minus_one) × (s''.errno_bak ≡ eio)
      second = finish_posted-failed o s' first.0 first.1 first.2
