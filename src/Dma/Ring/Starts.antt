-- ===== src/Dma/Ring/Starts.antt =====
-- Starting a transfer in the ring of src/vedma_main.S keeps the ring in agreement with its history.
use libsysve.Prelude.{
  ℕ, Bool-cases, sym, some, ◌≤◌, ◌≡◌, ◌≢◌, inl, inr, true, arith, update, ◌==◌, ◌⊎◌,
}
use libsysve.Prelude.Int.{pos}
use libsysve.Dma.Ring.{
  Ring, is_done, save_status, start_dma, init_handle, post_next, ve_dma_post, post_wait_enter,
}
use libsysve.Dma.Ring.Life.{Outcome, idle, running, finished, History, posted}
use libsysve.Dma.Ring.Agree.{HandleAgrees, WaiterAgrees, Agrees, Absent}
use libsysve.Dma.Ring.Saves.{save_status-Agrees, saved-free}

-- Starting a transfer in the next descriptor when it is free.
module _ (s : Ring) (dst src size h : ℕ) (free : s.vedma_status s.vedma_index ≡ 0) where
  started : Ring
  started = init_handle h s.vedma_index (start_dma dst src size h s)

  post-Handle :
      (k : ℕ)
      → 2 ≤ h
      → 2 ≤ k
      → h ≢ k
      → (t : Outcome) → HandleAgrees s k t
      → HandleAgrees started k t
  unfolding started start_dma init_handle
  post-Handle k two le other idle a = λ j. ground (arith, a j)
  post-Handle k two le other (running t) a = ground (arith, a)
  post-Handle k two le other (finished e) (inl a) =
      inl ((λ j. ground (arith, a.0 j)), ground (arith, a), a.2)
  post-Handle k two le other (finished e) (inr a) = inr (ground (arith, a))

  post-Waiter : (j : ℕ) (t : Outcome) → 2 ≤ h → WaiterAgrees s j t → WaiterAgrees started j t
  unfolding started start_dma init_handle
  post-Waiter j idle two a = ground (arith, a)
  post-Waiter j (running t) two a = ground (arith, a)
  post-Waiter j (finished e) two a = ground (arith, a)

  post-entries :
      (j : ℕ)
      → Absent s h
      → (2 ≤ s.vedma_status j → (s.handle (s.vedma_status j)).index ≡ j)
      → 2 ≤ started.vedma_status j
      → (started.handle (started.vedma_status j)).index ≡ j
  unfolding started start_dma init_handle
  post-entries j absent entries two = ground (arith, entries, absent j)

  post-handles :
      (f : ℕ → Outcome) (k : ℕ)
      → 2 ≤ h
      → 2 ≤ k
      → HandleAgrees s k (f k)
      → HandleAgrees started k
          (update f h (running (record { dst = dst; src = src; size = size })) k)
  unfolding started start_dma init_handle
  post-handles f k two le a = elim (Bool-cases (k == h)) [
    | inl e ↦ rw e (ground (arith, e))
    | inr e ↦ rw e (post-Handle k two le (ground (arith, e)) (f k) a)
  ]

  post-holders :
      (f : ℕ → ℕ) (j : ℕ)
      → (s.vedma_status j ≢ 0 → f j ≡ s.vedma_status j)
      → started.vedma_status j ≢ 0
      → update f s.vedma_index h j ≡ started.vedma_status j
  unfolding started start_dma init_handle
  post-holders f j held used = ground (arith, held)

  waiting : Ring
  waiting = start_dma dst src size 1 s

  enter-Handle : (k : ℕ) → 2 ≤ k → (t : Outcome) → HandleAgrees s k t → HandleAgrees waiting k t
  unfolding waiting start_dma
  enter-Handle k le idle a = λ j. ground (arith, a j)
  enter-Handle k le (running t) a = ground (arith, a)
  enter-Handle k le (finished e) (inl a) =
      inl ((λ j. ground (arith, a.0 j)), ground (arith, a), a.2)
  enter-Handle k le (finished e) (inr a) = inr (ground (arith, a))

  enter-Waiter :
      (j : ℕ) (t : Outcome) → j ≢ s.vedma_index → WaiterAgrees s j t → WaiterAgrees waiting j t
  unfolding waiting start_dma
  enter-Waiter j idle other a = ground (arith, a)
  enter-Waiter j (running t) other a = ground (arith, a)
  enter-Waiter j (finished e) other a = ground (arith, a)

  enter-waiters :
      (f : ℕ → Outcome) (j : ℕ)
      → WaiterAgrees s j (f j)
      → WaiterAgrees waiting j
          (update f s.vedma_index (running (record { dst = dst; src = src; size = size })) j)
  unfolding waiting start_dma
  enter-waiters f j a = elim (Bool-cases (j == s.vedma_index)) [
    | inl e ↦ rw e (ground (arith, e))
    | inr e ↦ rw e (enter-Waiter j (f j) (ground (arith, e)) a)
  ]

  enter-entries :
      (j : ℕ)
      → (2 ≤ s.vedma_status j → (s.handle (s.vedma_status j)).index ≡ j)
      → 2 ≤ waiting.vedma_status j
      → (waiting.handle (waiting.vedma_status j)).index ≡ j
  unfolding waiting start_dma
  enter-entries j entries two = ground (arith, entries)

  enter-holders :
      (f : ℕ → ℕ) (j : ℕ)
      → (s.vedma_status j ≢ 0 → f j ≡ s.vedma_status j)
      → waiting.vedma_status j ≢ 0
      → update f s.vedma_index 1 j ≡ waiting.vedma_status j
  unfolding waiting start_dma
  enter-holders f j held used = ground (arith, held)

module _ (s : Ring) (g : History) (dst src size : ℕ) (free : s.vedma_status s.vedma_index ≡ 0)
    (a : Agrees s g) where
  pub post_next-Agrees :
      (h : ℕ)
      → 2 ≤ h
      → g.of_handle h ≡ idle
      → Agrees
          (post_next dst src size h s).1
          (posted (record { dst = dst; src = src; size = size }) h s.vedma_index (pos 0) g)
  unfolding post_next started
  post_next-Agrees h le e = record {
    handles = λ k two. post-handles s dst src size h free g.of_handle k le two (a.handles k two);
    waiters = λ j. post-Waiter s dst src size h free j (g.of_waiter j) le (a.waiters j);
    entries = λ j. post-entries s dst src size h free j absent (a.entries j);
    holders = λ j. post-holders s dst src size h free g.holder j (a.holders j);
  }
    where
      absent : Absent s h
      absent = rw e at (a.handles h le)

  pub enter-Agrees : Agrees (start_dma dst src size 1 s) (record g {
    of_waiter =
        update g.of_waiter s.vedma_index (running (record { dst = dst; src = src; size = size }));
    holder = update g.holder s.vedma_index 1;
  })
  unfolding waiting
  enter-Agrees = record {
    handles = λ k two. enter-Handle s dst src size 1 free k two (g.of_handle k) (a.handles k two);
    waiters = λ j. enter-waiters s dst src size 1 free g.of_waiter j (a.waiters j);
    entries = λ j. enter-entries s dst src size 1 free j (a.entries j);
    holders = λ j. enter-holders s dst src size 1 free g.holder j (a.holders j);
  }

-- A call of ve_dma_post keeps the agreement, whatever it returns.
pub ve_dma_post-Agrees :
    (s : Ring) (g : History) (dst src size h : ℕ)
    → 2 ≤ h
    → g.of_handle h ≡ idle
    → Agrees s g
    → Agrees (ve_dma_post dst src size h s).1 (
        posted
          (record { dst = dst; src = src; size = size })
          h
          s.vedma_index
          (ve_dma_post dst src size h s).0
          g)
unfolding ve_dma_post post_next save_status
ve_dma_post-Agrees s g dst src size h le e a =
    elim (Bool-cases (s.vedma_status s.vedma_index == 1)) [
      | inl one ↦ rw one a
      | inr other ↦ elim (Bool-cases (s.vedma_status s.vedma_index == 0)) [
        | inl free ↦
            rw (other, free) (post_next-Agrees s g dst src size (ground (arith, free)) a h le e)
        | inr used ↦ elim (Bool-cases (is_done (s.word s.vedma_index))) [
          | inl over ↦
              rw (other, used, over)
                (post_next-Agrees (save_status s.vedma_index s) g dst src size
                  (saved-free s s.vedma_index)
                  (save_status-Agrees s g s.vedma_index (ground (arith, other, used)) over a) h le
                  e)
          | inr busy ↦ rw (other, used, busy) a
        ]
      ]
    ]

entered :
    (s s' : Ring) (dst src size : ℕ)
    → post_wait_enter dst src size s ≡ some s'
    → ((s.vedma_status s.vedma_index ≡ 0) × (start_dma dst src size 1 s ≡ s'))
      ⊎ ((2 ≤ s.vedma_status s.vedma_index)
          × (is_done (s.word s.vedma_index) ≡ true)
          × (start_dma dst src size 1 (save_status s.vedma_index s) ≡ s'))
unfolding post_wait_enter
entered s s' dst src size is = ground (arith, is)

-- So does a call of ve_dma_post_wait, until it waits for its transfer.
pub post_wait_enter-Agrees :
    (s s' : Ring) (g : History) (dst src size : ℕ)
    → Agrees s g
    → post_wait_enter dst src size s ≡ some s'
    → Agrees s' (record g {
      of_waiter =
          update g.of_waiter s.vedma_index (running (record { dst = dst; src = src; size = size }));
      holder = update g.holder s.vedma_index 1;
    })
unfolding save_status
post_wait_enter-Agrees s s' g dst src size a is = elim (entered s s' dst src size is) [
  | inl (free, e) ↦ rw (sym e) (enter-Agrees s g dst src size free a)
  | inr (live, over, e) ↦ rw (sym e) (
      enter-Agrees (save_status s.vedma_index s) g dst src size (saved-free s s.vedma_index)
        (save_status-Agrees s g s.vedma_index live over a))
]
