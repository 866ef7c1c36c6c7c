-- ===== src/Dma/Ring/Completes.antt =====
-- The engine's end of a transfer keeps the ring of src/vedma_main.S in agreement with its history.
use libsysve.Prelude.{
  ℕ, Bool-cases, ◌≤◌, ◌≡◌, ◌≢◌, inl, inr, true, false, arith, update, ◌==◌, ◌<◌, ◌^◌, ◌⊎◌,
}
use mathlib.Core.Path.{subst}
use libsysve.Dma.Ring.{Ring, is_done, exception_of}
use libsysve.Dma.Ring.Life.{Outcome, idle, running, finished, History, completed}
use libsysve.Dma.Ring.Agree.{HandleAgrees, WaiterAgrees, Agrees}

-- The engine ends the transfer of descriptor `i` with the word `w`.
module _ (s : Ring) (i w : ℕ) (busy : is_done (s.word i) ≡ false) (over : is_done w ≡ true) where
  ended : Ring
  ended = record s { word = update s.word i w }

  end-Handle :
      (k : ℕ)
      → 2 ≤ k
      → s.vedma_status i ≢ k
      → (t : Outcome) → HandleAgrees s k t
      → HandleAgrees ended k t
  unfolding ended
  end-Handle k le other idle a = a
  end-Handle k le other (running t) a = ground (arith, a)
  end-Handle k le other (finished e) (inl a) = inl a
  end-Handle k le other (finished e) (inr a) = inr (ground (arith, a))

  end-Holder :
      (k : ℕ)
      → s.vedma_status i ≡ k
      → 2 ≤ k
      → w < 2 ^ 64
      → (s.handle k).index ≡ i
      → (t : Outcome) → HandleAgrees s k t
      → HandleAgrees ended k (finished (exception_of w))
  unfolding ended
  end-Holder k at le bound ix idle a = absurd (a i at)
  end-Holder k at le bound ix (running t) a = inr (ground (arith, a))
  end-Holder k at le bound ix (finished e) (inl a) = absurd (a.0 i at)
  end-Holder k at le bound ix (finished e) (inr a) = ground (arith, a)

  end-Waiter :
      (j : ℕ) (t : Outcome)
      → (j ≢ i) ⊎ (s.vedma_status i ≢ 1)
      → WaiterAgrees s j t
      → WaiterAgrees ended j t
  unfolding ended
  end-Waiter j idle other a = a
  end-Waiter j (running t) other a = ground (arith, a, other)
  end-Waiter j (finished e) other a = ground (arith, a, other)

  end-Waiting :
      (t : Outcome)
      → s.vedma_status i ≡ 1
      → WaiterAgrees s i t
      → WaiterAgrees ended i (finished (exception_of w))
  unfolding ended
  end-Waiting idle at a = ground (arith, a)
  end-Waiting (running t) at a = ground (arith, a)
  end-Waiting (finished e) at a = ground (arith, a)

module _ (s : Ring) (g : History) (i w : ℕ) (busy : is_done (s.word i) ≡ false)
    (over : is_done w ≡ true) (bound : w < 2 ^ 64) (a : Agrees s g) where
  end-waiting :
      (j : ℕ)
      → s.vedma_status i ≡ 1
      → WaiterAgrees (ended s i w busy over) j (update g.of_waiter i (finished (exception_of w)) j)
  end-waiting j at = elim (Bool-cases (j == i)) [
    | inl e ↦
        let same : i ≡ j = ground (arith, e) in
        rw e (
          subst (λ k. WaiterAgrees (ended s i w busy over) k (finished (exception_of w))) same
            (end-Waiting s i w busy over (g.of_waiter i) at (a.waiters i)))
    | inr e ↦
        rw e (end-Waiter s i w busy over j (g.of_waiter j) (inl (ground (arith, e))) (a.waiters j))
  ]

  end-handles :
      (k : ℕ)
      → 2 ≤ k
      → 2 ≤ s.vedma_status i
      → HandleAgrees
          (ended s i w busy over)
          k
          (update g.of_handle (s.vedma_status i) (finished (exception_of w)) k)
  end-handles k le two = elim (Bool-cases (k == s.vedma_status i)) [
    | inl e ↦
        let same : s.vedma_status i ≡ k = ground (arith, e) in
        let ix : (s.handle k).index ≡ i =
          subst (λ h. (s.handle h).index ≡ i) same (a.entries i two) in
        rw e (end-Holder s i w busy over k same le bound ix (g.of_handle k) (a.handles k le))
    | inr e ↦
        rw e (end-Handle s i w busy over k le (ground (arith, e)) (g.of_handle k) (a.handles k le))
  ]

  pub complete-Agrees :
      s.vedma_status i ≢ 0 → Agrees (record s { word = update s.word i w }) (completed i w g)
  unfolding ended
  complete-Agrees used = elim (Bool-cases (s.vedma_status i == 1)) [
    | inl e ↦
        let at : s.vedma_status i ≡ 1 = ground (arith, e) in
        rw (a.holders i used, e)
          record {
            handles = λ k le.
                end-Handle s i w busy over k le (omega (arith, at)) (g.of_handle k)
                  (a.handles k le);
            waiters = λ j. end-waiting j at;
            entries = a.entries;
            holders = a.holders;
          }
    | inr e ↦
        let two : 2 ≤ s.vedma_status i = ground (arith, e, used) in
        rw (a.holders i used, e)
          record {
            handles = λ k le. end-handles k le two;
            waiters = λ j.
                end-Waiter s i w busy over j (g.of_waiter j) (inr (omega (arith, two)))
                  (a.waiters j);
            entries = a.entries;
            holders = a.holders;
          }
  ]
