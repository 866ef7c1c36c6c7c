-- ===== src/Acc/Write/Drain.antt =====
-- The final loop of the write: the chunks under way are written, oldest first.
use libsysve.Prelude.{
  ℕ, zero, suc, ◌%◌, ◌<◌, ◌≡◌, inl, inr, refl, Bool, Option, none, some, leb, arith, Bool-cases, ap,
}
use libsysve.Acc.Vh.{AccIoInfo, ve_find_min_posted}
use libsysve.Acc.Slots.{
  Pending, idle, one, two, Slots, max_posted, find_min_one, find_min_two, same_slot, next_slot,
  slots_differ, find_min_idle,
}
use libsysve.Acc.Read.Types.{Result, Job}
use libsysve.Acc.Write.Types.{WriteReply, failed, wrote, Chunk}
use libsysve.Acc.Write.Plain.{Progress, plain_write}
use libsysve.Acc.Write.{
  Env, St, arrived, wait_dma, dma_failed, finished, finish_posted, finish_slot, drain, result,
}
use libsysve.Acc.Write.Step.{Sound, last, Good, Settled-Good, finish_posted-Settled}
use libsysve.Acc.Write.Call.{Holds, Buffers, Synced, sent_state, sent-Synced, plain_step}
use libsysve.Acc.Write.Release.{finish_posted-Advanced}

module _ {K D T : Type 0} (e : Env K D) (fill : T → ℕ → Chunk T) (io : AccIoInfo) (job : Job)
    (ok : Sound e io job) (marked : Bool) (origin : T) where
  abbrev pub Held : Pending → St K D T → Type 0
  Held idle s = Unit {0}
  Held (one m) s = Holds e fill io job ok marked origin m s
  Held (two m) s =
      Holds e fill io job ok marked origin m s × Holds e fill io job ok marked origin (suc m) s

  finished-posted :
      (i size : ℕ) (s : St K D T) (r : WriteReply × K)
      → (finished e fill io job i size s r).posted ≡ s.posted
  unfolding finished
  finished-posted i size s (failed err, k) = refl
  finished-posted i size s (wrote n, k) = ground arith

  finish_posted-posted :
      (o : Option ℕ) (s : St K D T) → (finish_posted e fill io job o s).posted ≡ s.posted
  unfolding finish_posted wait_dma dma_failed
  finish_posted-posted none s = refl
  finish_posted-posted (some m) s = elim (Bool-cases (leb 1 (e.wait s.dma (s.handle (m % 2))).0)) [
    | inl bad ↦ rw bad refl
    | inr fine ↦ elim (Bool-cases s.data_err) [
      | inl err ↦ rw (fine, err) refl
      | inr clean ↦ rw (fine, clean) (finished-posted m _ _ _)
    ]
  ]

  drain-slots :
      (m : ℕ) (s : St K D T)
      → ve_find_min_posted s.posted ≡ m % 2
      → drain e fill io job s
        ≡ finish_posted e fill io job
            (s.posted (suc m % 2))
            (finish_posted e fill io job (s.posted (m % 2)) s)
  unfolding drain finish_slot
  drain-slots m s h =
      let s' = finish_posted e fill io job (s.posted (m % 2)) s in
      rw (h, same_slot m, next_slot m)
        (ap (λ (q : ℕ → Option ℕ). finish_posted e fill io job (q (suc m % 2)) s')
          (finish_posted-posted (s.posted (m % 2)) s))

  abbrev pub plain : (left i : ℕ) → Progress K T → Result K (Unit {0})
  plain = plain_write e.write fill e.second_flag io.vh_buff_and_flag job (last e fill io job) marked

  abbrev pub Ends : St K D T → Result K (Unit {0}) → Type 0
  Ends s out = Good e fill io job (result e fill io job s) out

  Synced-Ends :
      (m : ℕ) (s : St K D T) (p : Progress K T)
      → Synced e fill io job ok marked origin m s p
      → Ends s (plain zero m p)
  unfolding result plain_write
  Synced-Ends m s p y = inl (ground (arith, y.kernel, y.total, y.errno, y.bak))

  pub plain-suc :
      (left m : ℕ) (p : Progress K T)
      → plain (suc left) m p ≡ plain_step e fill io job ok marked origin m p (plain left (suc m))
  unfolding plain_write
  plain-suc left m p = refl

  -- The last chunk, and the end of the write.
  one-Ends :
      (m : ℕ) (s : St K D T) (p : Progress K T)
      → Buffers e fill io job ok marked origin s
      → Synced e fill io job ok marked origin m s p
      → Holds e fill io job ok marked origin m s
      → Ends (finish_posted e fill io job (some m) s) (plain 1 m p)
  one-Ends m s p b y h = elim (finish_posted-Advanced e fill io job ok marked origin m s p b y h) [
    | inl f ↦ rw (plain-suc 0 m p) (Settled-Good e fill io job _ _ (f _))
    | inr (k, n, eq, steps) ↦
        rw (eq, plain-suc 0 m p, steps (plain 0 (suc m)))
          (Synced-Ends (suc m) _ _ (sent-Synced e fill io job ok marked origin m n k s p y))
  ]

  -- What stands in the other slot is not touched.
  pub beside-Holds :
      (m n : ℕ) (k : K) (s : St K D T)
      → Holds e fill io job ok marked origin (suc m) s
      → Holds e fill io job ok marked origin
          (suc m)
          (sent_state e fill io job ok marked origin k n (m % 2) s)
  unfolding arrived
  beside-Holds m n k s h = record {
    bytes = λ x lt. ground (arith, h.bytes x lt, slots_differ m);
    lands = record { apart = h.lands.apart; order = h.lands.order; fits = h.lands.fits };
    need = h.need;
  }

  pub drain-idle :
      (m : ℕ) (s : St K D T) (p : Progress K T)
      → Slots idle s.posted
      → Synced e fill io job ok marked origin m s p
      → Ends (drain e fill io job s) (plain zero m p)
  unfolding finish_posted
  drain-idle m s p slots y =
      rw (drain-slots 0 s (find_min_idle s.posted slots), slots.0, slots.1) (Synced-Ends m s p y)

  pub drain-one :
      (m : ℕ) (s : St K D T) (p : Progress K T)
      → m < max_posted
      → Slots (one m) s.posted
      → Buffers e fill io job ok marked origin s
      → Synced e fill io job ok marked origin m s p
      → Held (one m) s
      → Ends (drain e fill io job s) (plain 1 m p)
  drain-one m s p small slots b y h =
      rw (drain-slots m s (find_min_one m s.posted small slots), slots.0, slots.1)
        (unfold finish_posted in one-Ends m s p b y h)

  pub drain-two :
      (m : ℕ) (s : St K D T) (p : Progress K T)
      → m < max_posted
      → Slots (two m) s.posted
      → Buffers e fill io job ok marked origin s
      → Synced e fill io job ok marked origin m s p
      → Held (two m) s
      → Ends (drain e fill io job s) (plain 2 m p)
  drain-two m s p small slots b y h =
      rw (drain-slots m s (find_min_two m s.posted small slots), slots.0, slots.1)
        (elim (finish_posted-Advanced e fill io job ok marked origin m s p b y h.0) [
          | inl f ↦
              rw (plain-suc 1 m p)
                (Settled-Good e fill io job _ _ (finish_posted-Settled e fill io job _ _ _ (f _)))
          | inr (k, n, eq, steps) ↦
              rw (eq, plain-suc 1 m p, steps (plain 1 (suc m)))
                (one-Ends (suc m) _ _ b (sent-Synced e fill io job ok marked origin m n k s p y)
                  (beside-Holds m n k s h.1))
        ])
