-- ===== src/Dma/Ring/Ends.antt =====
-- The end of a transfer in the ring of src/vedma_main.S keeps the ring in agreement with its history.
use libsysve.Prelude.{
  ℕ, Bool-cases, sym, some, ◌≤◌, ◌≡◌, ◌≢◌, inl, inr, true, false, arith, update, ◌==◌, refl, ◌⊎◌,
}
use mathlib.Core.Path.{subst}
use libsysve.Prelude.Int.{pos, minus_one, ◌==ℤ◌}
use libsysve.Dma.{minus_eagain}
use libsysve.Acc.Vh.{Transfer}
use libsysve.Dma.Ring.{Ring, is_done, exception_of, ve_dma_poll, post_wait_leave}
use libsysve.Dma.Ring.Life.{Outcome, idle, running, finished, History, polled}
use libsysve.Dma.Ring.Agree.{HandleAgrees, WaiterAgrees, Agrees, Absent, InRing}

abbrev pub cleared : Ring → ℕ → Ring
cleared s i = record s { vedma_status = update s.vedma_status i 0 }

-- "clear vedma_status[index]" of descriptor `i`, whose entry is `v`.
module _ (s : Ring) (i v : ℕ) (held : s.vedma_status i ≡ v) where
  clear-Handle :
      (k : ℕ) → 2 ≤ k → k ≢ v → (t : Outcome) → HandleAgrees s k t → HandleAgrees (cleared s i) k t
  clear-Handle k le other idle a = λ j. ground (arith, a j)
  clear-Handle k le other (running t) a = ground (arith, a)
  clear-Handle k le other (finished e) (inl a) = inl ((λ j. ground (arith, a.0 j)), a.1, a.2)
  clear-Handle k le other (finished e) (inr a) = inr (ground (arith, a))

  clear-Waiter :
      (j : ℕ) (t : Outcome)
      → (j ≢ i) ⊎ (2 ≤ v)
      → WaiterAgrees s j t
      → WaiterAgrees (cleared s i) j t
  clear-Waiter j idle other a = ground (arith, a)
  clear-Waiter j (running t) other a = ground (arith, a, other)
  clear-Waiter j (finished e) other a = ground (arith, a, other)

  clear-entries :
      (j : ℕ)
      → (2 ≤ s.vedma_status j → (s.handle (s.vedma_status j)).index ≡ j)
      → 2 ≤ (cleared s i).vedma_status j
      → ((cleared s i).handle ((cleared s i).vedma_status j)).index ≡ j
  clear-entries j entries two = ground (arith, entries)

  clear-holders :
      (g : History) (j : ℕ)
      → (s.vedma_status j ≢ 0 → g.holder j ≡ s.vedma_status j)
      → (cleared s i).vedma_status j ≢ 0
      → g.holder j ≡ (cleared s i).vedma_status j
  clear-holders g j was used = ground (arith, was)

  clear-Absent :
      ((j : ℕ) → 2 ≤ s.vedma_status j → (s.handle (s.vedma_status j)).index ≡ j)
      → 2 ≤ v
      → Absent (cleared s i) v
  clear-Absent entries le j = ground (arith, entries i, entries j)

  clear-waiters :
      (f : ℕ → Outcome) (j : ℕ)
      → WaiterAgrees s j (f j)
      → WaiterAgrees (cleared s i) j (update f i idle j)
  clear-waiters f j a = elim (Bool-cases (j == i)) [
    | inl e ↦ rw e (ground (arith, e))
    | inr e ↦ rw e (clear-Waiter j (f j) (inl (ground (arith, e))) a)
  ]

  clear-handles :
      (f : ℕ → Outcome) (k : ℕ)
      → ((j : ℕ) → 2 ≤ s.vedma_status j → (s.handle (s.vedma_status j)).index ≡ j)
      → 2 ≤ k
      → 2 ≤ v
      → HandleAgrees s k (f k)
      → HandleAgrees (cleared s i) k (update f v idle k)
  clear-handles f k entries le two a = elim (Bool-cases (k == v)) [
    | inl e ↦
        let same : v ≡ k = ground (arith, e) in
        rw e (subst (Absent (cleared s i)) same (clear-Absent entries two))
    | inr e ↦ rw e (clear-Handle k le (ground (arith, e)) (f k) a)
  ]

pos≢minus_one : (e : ℕ) → (pos e ==ℤ minus_one) ≡ false
pos≢minus_one e = ground arith

polled-pos :
    (h e : ℕ) (g : History)
    → record g { of_handle = update g.of_handle h idle } ≡ polled h (pos e) g
polled-pos h e g = ground arith

-- What a poll of handle `h` does, by what became of its transfer.
module _ (s : Ring) (h : ℕ) where
  pub poll-running :
      (t : Transfer) → HandleAgrees s h (running t) → ve_dma_poll h s ≡ (minus_eagain, s)
  unfolding ve_dma_poll
  poll-running t a = rw (a.0.0, a.1) refl

  pub poll-kept : (e : ℕ) → (s.handle h).status ≡ pos e → ve_dma_poll h s ≡ (pos e, s)
  unfolding ve_dma_poll
  poll-kept e is = rw (is, pos≢minus_one e) refl

  pub poll-ended :
      (e : ℕ)
      → InRing s h
      → is_done (s.word (s.handle h).index) ≡ true
      → exception_of (s.word (s.handle h).index) ≡ e
      → ve_dma_poll h s ≡ (pos e, cleared s (s.handle h).index)
  unfolding ve_dma_poll
  poll-ended e ring over is = rw (ring.0, over, is) refl

forget-handles :
    (s : Ring) (f : ℕ → Outcome) (h k : ℕ)
    → Absent s h
    → HandleAgrees s k (f k)
    → HandleAgrees s k (update f h idle k)
forget-handles s f h k absent a = elim (Bool-cases (k == h)) [
  | inl e ↦ let same : h ≡ k = ground (arith, e) in rw e (subst (Absent s) same absent)
  | inr e ↦ rw e a
]

module _ (s : Ring) (g : History) (a : Agrees s g) where
  forget-Agrees : (h : ℕ) → Absent s h → (e : ℕ) → Agrees s (polled h (pos e) g)
  forget-Agrees h absent e = subst (Agrees s) (polled-pos h e g) record {
    handles = λ k two. forget-handles s g.of_handle h k absent (a.handles k two);
    waiters = a.waiters;
    entries = a.entries;
    holders = a.holders;
  }

  clear-Agrees :
      (h : ℕ)
      → 2 ≤ h
      → InRing s h
      → (e : ℕ) → Agrees (cleared s (s.handle h).index) (polled h (pos e) g)
  clear-Agrees h le ring e =
      subst (Agrees (cleared s (s.handle h).index)) (polled-pos h e g) record {
        handles = λ k two.
            clear-handles s (s.handle h).index h ring.1 g.of_handle k a.entries two le
              (a.handles k two);
        waiters = λ j.
            clear-Waiter s (s.handle h).index h ring.1 j (g.of_waiter j) (inr le) (a.waiters j);
        entries = λ j. clear-entries s (s.handle h).index h ring.1 j (a.entries j);
        holders = λ j. clear-holders s (s.handle h).index h ring.1 g j (a.holders j);
      }

  poll-Agrees :
      (h : ℕ)
      → 2 ≤ h
      → (t : Outcome) → t ≢ idle
      → HandleAgrees s h t
      → Agrees (ve_dma_poll h s).1 (polled h (ve_dma_poll h s).0 g)
  poll-Agrees h le idle used b = absurd (used refl)
  poll-Agrees h le (running t) used b = rw (poll-running s h t b) a
  poll-Agrees h le (finished e) used (inl b) = rw (poll-kept s h e b.1) (forget-Agrees h b.0 e)
  poll-Agrees h le (finished e) used (inr b) =
      rw (poll-ended s h e b.0 b.1 b.2) (clear-Agrees h le b.0 e)

  pub ve_dma_poll-Agrees :
      (h : ℕ)
      → 2 ≤ h
      → g.of_handle h ≢ idle
      → Agrees (ve_dma_poll h s).1 (polled h (ve_dma_poll h s).0 g)
  ve_dma_poll-Agrees h le used = poll-Agrees h le (g.of_handle h) used (a.handles h le)

  left :
      (s' : Ring) (i e : ℕ)
      → post_wait_leave i s ≡ some (e, s')
      → (is_done (s.word i) ≡ true) × (exception_of (s.word i) ≡ e) × (cleared s i ≡ s')
  unfolding post_wait_leave
  left s' i e is = ground (arith, is)

  pub post_wait_leave-Agrees :
      (s' : Ring) (i e : ℕ)
      → g.of_waiter i ≢ idle
      → post_wait_leave i s ≡ some (e, s')
      → Agrees s' (record g { of_waiter = update g.of_waiter i idle })
  post_wait_leave-Agrees s' i e used is = rw (sym (left s' i e is).2) record {
    handles =
        λ k two. clear-Handle s i 1 held k two (omega arith) (g.of_handle k) (a.handles k two);
    waiters = λ j. clear-waiters s i 1 held g.of_waiter j (a.waiters j);
    entries = λ j. clear-entries s i 1 held j (a.entries j);
    holders = λ j. clear-holders s i 1 held g j (a.holders j);
  }
    where
      waits : (t : Outcome) → t ≢ idle → WaiterAgrees s i t → s.vedma_status i ≡ 1
      waits idle u b = absurd (u refl)
      waits (running t) u b = b.0
      waits (finished e) u b = b.0

      held : s.vedma_status i ≡ 1
      held = waits (g.of_waiter i) used (a.waiters i)
