-- ===== src/Acc/Read/Drain.antt =====
-- The final loop of the read: the chunks under way are handed over, oldest first.
use libsysve.Prelude.{
  ℕ, zero, suc, ◌%◌, ◌<◌, ◌≡◌, ◌≢◌, ◌⊎◌, inl, inr, refl, true, false, Option, none, some, Bytes,
  update, arith, ap, Bool-cases, leb, ltb,
}
use libsysve.Prelude.Int.{pos, ◌+ℤ◌, minus_one}
use libsysve.Acc.Vh.{buff_nparas, AccIoInfo, eio, ve_find_min_posted}
use libsysve.Acc.Slots.{
  idle, one, two, Slots, before, beside, max_posted, find_min_one, find_min_two, same_slot,
  next_slot, slots_differ, find_min_idle,
}
use libsysve.Acc.Read.Types.{Job}
use libsysve.Acc.Read.Plain.{Progress, ended}
use libsysve.Acc.Control.{go, stop}
use libsysve.Acc.Read.{
  Env, St, arrived, wait_dma, dma_failed, copy_out, finish_posted, finish_slot, drain, result,
  retire,
}
use libsysve.Acc.Read.Step.{
  Lands, LandsAll, wait_dma-Lands, deliver, delivered, Agrees, Good, Faulty, exception,
  finish_posted-failed,
}

is_late : (i : ℕ) → 2 < suc i → ltb i buff_nparas ≡ false
is_late i late = ground arith

module _ {K D T : Type 0} (e : Env K D) (put : T → Bytes → ℕ → T) (io : AccIoInfo) (job : Job) where
  -- The state after a wait that succeeded and the copy.
  abbrev pub handed : ℕ → D → St K D T → St K D T
  handed j d s = record s {
    dma = d;
    ve = update s.ve j (arrived e put io job s j);
    moved = update s.moved j true;
    sink = put s.sink (arrived e put io job s j) (s.read_out_size j);
    exit_result = s.exit_result +ℤ pos (s.read_out_size j);
  }

  finish_posted-posted :
      (o : Option ℕ) (s : St K D T) → (finish_posted e put io job o s).posted ≡ s.posted
  unfolding finish_posted wait_dma dma_failed copy_out
  finish_posted-posted none s = refl
  finish_posted-posted (some m) s = ground arith

  failing :
      (m : ℕ) (s : St K D T)
      → leb 1 (e.wait s.dma (s.handle (m % 2))).0 ≡ true
      → Lands io s (m % 2)
      → let s' = finish_posted e put io job (some m) s in
        (s'.data_err ≡ true) × (s'.exit_result ≡ minus_one) × (s'.errno_bak ≡ eio)
  unfolding finish_posted dma_failed copy_out
  failing m s bad l =
      rw (wait_dma-Lands e put io job (m % 2) s (omega arith) l, bad) (refl, refl, refl)

  finish_posted-cases :
      (m : ℕ) (s : St K D T)
      → s.data_err ≡ false
      → Lands io s (m % 2)
      → let s' = finish_posted e put io job (some m) s in
        (s' ≡ handed (m % 2) (e.wait s.dma (s.handle (m % 2))).1 s)
        ⊎ (((s'.data_err ≡ true) × (s'.exit_result ≡ minus_one) × (s'.errno_bak ≡ eio)) × Faulty e)
  unfolding finish_posted dma_failed copy_out
  finish_posted-cases m s clean l = elim (Bool-cases (leb 1 (e.wait s.dma (s.handle (m % 2))).0)) [
    | inl bad ↦ inr (failing m s bad l, exception s.dma (s.handle (m % 2)) bad)
    | inr fine ↦
        inl
          (rw (wait_dma-Lands e put io job (m % 2) s (omega arith) l) (ground (arith, fine, clean)))
  ]

  -- In the loop the same wait and copy free the slot for the next chunk.
  pub retire-cases :
      (i j : ℕ) (s : St K D T)
      → 2 < suc i
      → j < 2
      → Lands io s j
      → (retire e put io job i j s ≡ go (handed j (e.wait s.dma (s.handle j)).1 s))
        ⊎ ((t : St K D T) × (retire e put io job i j s ≡ stop t)
            × (t.data_err ≡ true)
            × (t.exit_result ≡ minus_one)
            × (t.errno_bak ≡ eio)
            × Faulty e)
  unfolding retire dma_failed copy_out
  retire-cases i j s late lt l = elim (Bool-cases (leb 1 (e.wait s.dma (s.handle j)).0)) [
    | inl bad ↦ inr (
      record s {
        dma = (e.wait s.dma (s.handle j)).1;
        ve = update s.ve j (arrived e put io job s j);
        moved = update s.moved j true;
        exit_result = minus_one;
        errno_bak = eio;
        data_err = true;
        posted = update s.posted j none;
      },
      rw (wait_dma-Lands e put io job j s lt l, is_late i late, bad) refl,
      refl,
      refl,
      refl,
      exception s.dma (s.handle j) bad,
    )
    | inr fine ↦ inl (rw (wait_dma-Lands e put io job j s lt l) (ground (arith, fine, late)))
  ]

  -- The fields that the result is made of, once nothing is under way.
  result-ended :
      {s : St K D T} {p : Progress K T}
      → Agrees s p
      → s.errno_bak ≡ 0
      → result e put io job s ≡ ended e.read put e.second_flag io.vh_buff_and_flag job 0 p
  unfolding result
  result-ended a clean = ground arith

  abbrev pub Ends : St K D T → Progress K T → Type 0
  Ends s p =
      Good e put io job (result e put io job s)
        (ended e.read put e.second_flag io.vh_buff_and_flag job 0 p)

  failed-Ends :
      (s : St K D T) (p : Progress K T)
      → (s.exit_result ≡ minus_one) × (s.errno_bak ≡ eio)
      → Faulty e
      → Ends s p
  unfolding result
  failed-Ends s p f fault = inr (ground arith, ground arith, fault)

  -- What a copy needs of a state is in its `deliver`.
  after-handed :
      (j : ℕ) (d : D) (s : St K D T) (p : Progress K T)
      → Agrees (deliver e put io job j s) p
      → Agrees (handed j d s) p
  after-handed j d s p a = record {
    kernel = a.kernel;
    sink = a.sink;
    total = a.total;
    ofs = a.ofs;
    errno = a.errno;
  }

  pub beside-handed :
      (i j : ℕ) (d : D) (s : St K D T) (p : Progress K T)
      → i ≢ j
      → Agrees (deliver e put io job i (deliver e put io job j s)) p
      → Agrees (deliver e put io job i (handed j d s)) p
  unfolding arrived
  beside-handed i j d s p ne a = record {
    kernel = a.kernel;
    sink = ground (arith, a.sink);
    total = a.total;
    ofs = a.ofs;
    errno = a.errno;
  }

  one-Ends :
      (m : ℕ) (s : St K D T) (p : Progress K T)
      → s.data_err ≡ false
      → s.errno_bak ≡ 0
      → Lands io s (m % 2)
      → Agrees (deliver e put io job (m % 2) s) p
      → Ends (finish_posted e put io job (some m) s) p
  one-Ends m s p ok bak l a = elim (finish_posted-cases m s ok l) [
    | inr (f, fault) ↦ failed-Ends _ p (f.1, f.2) fault
    | inl e' ↦ rw e' (inl (result-ended (after-handed (m % 2) _ s p a) bak))
  ]

  drain-slots :
      (m : ℕ) (s : St K D T)
      → ve_find_min_posted s.posted ≡ m % 2
      → drain e put io job s
        ≡ finish_posted e put io job
            (s.posted (suc m % 2))
            (finish_posted e put io job (s.posted (m % 2)) s)
  unfolding drain finish_slot
  drain-slots m s h =
      let s' = finish_posted e put io job (s.posted (m % 2)) s in
      rw (h, same_slot m, next_slot m)
        (ap (λ (q : ℕ → Option ℕ). finish_posted e put io job (q (suc m % 2)) s')
          (finish_posted-posted (s.posted (m % 2)) s))

  pub drain-idle_self : (s : St K D T) → Slots idle s.posted → drain e put io job s ≡ s
  unfolding finish_posted
  drain-idle_self s slots = rw (drain-slots 0 s (find_min_idle s.posted slots), slots.0, slots.1)

  pub drain-idle :
      (s : St K D T) (p : Progress K T)
      → s.errno_bak ≡ 0
      → Slots idle s.posted
      → Agrees s p
      → Ends (drain e put io job s) p
  drain-idle s p bak slots a = rw (drain-idle_self s slots) (inl (result-ended a bak))

  pub drain-one :
      (m : ℕ) (s : St K D T) (p : Progress K T)
      → m < max_posted
      → s.data_err ≡ false
      → s.errno_bak ≡ 0
      → Slots (one m) s.posted
      → LandsAll io (one m) s
      → Agrees (deliver e put io job (m % 2) s) p
      → Ends (drain e put io job s) p
  drain-one m s p small ok bak slots l a =
      rw (drain-slots m s (find_min_one m s.posted small slots), slots.0, slots.1)
        (unfold finish_posted in one-Ends m s p ok bak l a)

  pub drain-two :
      (m : ℕ) (s : St K D T) (p : Progress K T)
      → m < max_posted
      → s.data_err ≡ false
      → s.errno_bak ≡ 0
      → Slots (two m) s.posted
      → LandsAll io (two m) s
      → Agrees (delivered e put io job (two m) s) p
      → Ends (drain e put io job s) p
  drain-two m s p small ok bak slots l a =
      rw (drain-slots m s (find_min_two m s.posted small slots), slots.0, slots.1)
        (elim (finish_posted-cases m s ok l.0) [
          | inr (x, fault) ↦
              (let f = finish_posted-failed e put io job (some (suc m)) _ x.0 x.1 x.2 in
                failed-Ends _ p (f.1, f.2) fault)
          | inl e' ↦
              let d = (e.wait s.dma (s.handle (m % 2))).1 in
              rw e' (
                one-Ends (suc m) (handed (m % 2) d s) p ok bak
                  (record { apart = l.1.apart; order = l.1.order; fits = l.1.fits })
                  (beside-handed (suc m % 2) (m % 2) d s p (slots_differ m) a))
        ])

  -- The same, by the round at which the loop was left.
  pub drain-beside :
      (i : ℕ) (s : St K D T) (p : Progress K T)
      → i < max_posted
      → s.data_err ≡ false
      → s.errno_bak ≡ 0
      → Slots (beside i) s.posted
      → LandsAll io (beside i) s
      → Agrees (delivered e put io job (beside i) s) p
      → Ends (drain e put io job s) p
  drain-beside zero s p small ok bak slots l a = drain-idle s p bak slots a
  drain-beside (suc m) s p small ok bak slots l a = drain-one m s p (omega arith) ok bak slots l a

  pub drain-before :
      (i : ℕ) (s : St K D T) (p : Progress K T)
      → i < max_posted
      → s.data_err ≡ false
      → s.errno_bak ≡ 0
      → Slots (before i) s.posted
      → LandsAll io (before i) s
      → Agrees (delivered e put io job (before i) s) p
      → Ends (drain e put io job s) p
  drain-before zero s p small ok bak slots l a = drain-idle s p bak slots a
  drain-before (suc zero) s p small ok bak slots l a =
      drain-one 0 s p (omega arith) ok bak slots l a
  drain-before (suc (suc m)) s p small ok bak slots l a =
      drain-two m s p (omega arith) ok bak slots l a
