-- ===== src/Dma/Ring/Saves.antt =====
-- Saving the result of the transfer that is over in a descriptor of src/vedma_main.S, before the
-- descriptor is used again, keeps the ring in agreement with its history.
use libsysve.Prelude.{ℕ, ◌≤◌, ◌≡◌, ◌≢◌, inl, inr, true, arith}
use native.Mathlib.Decide.{ℕ_discrete}
use libsysve.Dma.Ring.{Ring, is_done, save_status}
use libsysve.Dma.Ring.Life.{Outcome, idle, running, finished, History}
use libsysve.Dma.Ring.Agree.{HandleAgrees, WaiterAgrees, Agrees, Absent}

module _ (s : Ring) (i : ℕ) (live : 2 ≤ s.vedma_status i)
    (entries : (j : ℕ) → 2 ≤ s.vedma_status j → (s.handle (s.vedma_status j)).index ≡ j)
    (over : is_done (s.word i) ≡ true) where
  save-Absent : (h : ℕ) → 2 ≤ h → Absent s h → Absent (save_status i s) h
  unfolding save_status
  save-Absent h le absent j = ground (arith, absent j)

  save-Handle :
      (h : ℕ) → 2 ≤ h → (t : Outcome) → HandleAgrees s h t → HandleAgrees (save_status i s) h t
  unfolding save_status
  save-Handle h le idle a = save-Absent h le a
  save-Handle h le (running t) a = ground (arith, a, entries i)
  save-Handle h le (finished e) (inl a) = inl (save-Absent h le a.0, ground (arith, a, a.0 i), a.2)
  save-Handle h le (finished e) (inr a) = elim (ℕ_discrete h (s.vedma_status i)) [
    | yes same ↦ inl (
      (λ j. ground (arith, a, entries i, entries j, same, le)),
      ground (arith, a, entries i, same),
      a.3,
    )
    | no other ↦ inr (ground (arith, a, entries i, other))
  ]

  save-Waiter : (j : ℕ) (t : Outcome) → WaiterAgrees s j t → WaiterAgrees (save_status i s) j t
  unfolding save_status
  save-Waiter j idle a = ground (arith, a)
  save-Waiter j (running t) a = ground (arith, a)
  save-Waiter j (finished e) a = ground (arith, a)

  save-entries :
      (j : ℕ)
      → 2 ≤ (save_status i s).vedma_status j
      → ((save_status i s).handle ((save_status i s).vedma_status j)).index ≡ j
  unfolding save_status
  save-entries j two = ground (arith, entries j)

  save-holders :
      (g : History) (j : ℕ)
      → (s.vedma_status j ≢ 0 → g.holder j ≡ s.vedma_status j)
      → (save_status i s).vedma_status j ≢ 0
      → g.holder j ≡ (save_status i s).vedma_status j
  unfolding save_status
  save-holders g j held used = ground (arith, held)

pub save_status-Agrees :
    (s : Ring) (g : History) (i : ℕ)
    → 2 ≤ s.vedma_status i
    → is_done (s.word i) ≡ true
    → Agrees s g
    → Agrees (save_status i s) g
save_status-Agrees s g i live over a = record {
  handles = λ h le. save-Handle s i live a.entries over h le (g.of_handle h) (a.handles h le);
  waiters = λ j. save-Waiter s i live a.entries over j (g.of_waiter j) (a.waiters j);
  entries = λ j. save-entries s i live a.entries over j;
  holders = λ j. save-holders s i live a.entries over g j (a.holders j);
}

pub saved-free : (s : Ring) (i : ℕ) → (save_status i s).vedma_status i ≡ 0
unfolding save_status
saved-free s i = ground arith
