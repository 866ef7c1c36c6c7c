-- ===== src/Dma/Ring/Life.antt =====
-- What becomes of transfers in the ring of src/vedma_main.S, as steps of the callers and of the engine.
-- The second part of a state is its history: what became of each transfer that was posted.
use libsysve.Prelude.{ℕ, ◌≤◌, ◌<◌, ◌≡◌, ◌≢◌, true, false, ◌==◌, if◌then◌else◌, some, update, ◌^◌}
use libsysve.Prelude.Int.{ℤ, ◌==ℤ◌, pos}
use libsysve.Acc.Vh.{Transfer}
use libsysve.Dma.{minus_eagain}
use libsysve.Dma.Ring.{
  Ring, is_done, exception_of, ve_dma_post, ve_dma_poll, post_wait_enter, post_wait_leave,
}

pub data Outcome : Type 0 where
  idle : Outcome
  running : Transfer → Outcome
  finished : (exception : ℕ) → Outcome

-- The transfers of handles by their addresses, those of `ve_dma_post_wait` by their descriptors, and for each
-- descriptor whose transfer it got last: a handle's address, or 1.
pub record History : Type 0 where
  pub of_handle : ℕ → Outcome
  pub of_waiter : ℕ → Outcome
  pub holder : ℕ → ℕ

abbrev pub posted : Transfer → (h i : ℕ) → ℤ → History → History
posted t h i ret g =
    if ret ==ℤ pos 0
    then record g { of_handle = update g.of_handle h (running t); holder = update g.holder i h }
    else g

-- The result was given to the caller.
abbrev pub polled : (h : ℕ) → ℤ → History → History
polled h ret g =
    if ret ==ℤ minus_eagain then g else record g { of_handle = update g.of_handle h idle }

abbrev pub completed : (i w : ℕ) → History → History
completed i w g =
    if g.holder i == 1
    then record g { of_waiter = update g.of_waiter i (finished (exception_of w)) }
    else record g { of_handle = update g.of_handle (g.holder i) (finished (exception_of w)) }

pub data Step : Ring → History → Ring → History → Type 0 where
  -- A handle is posted when its last result was taken. Its address is neither NULL nor 1.
  post :
      (dst src size h : ℕ) (s : Ring) (g : History)
      → 2 ≤ h
      → g.of_handle h ≡ idle
      → Step s g (ve_dma_post dst src size h s).1 (
          posted
            (record { dst = dst; src = src; size = size })
            h
            s.vedma_index
            (ve_dma_post dst src size h s).0
            g)
  poll :
      (h : ℕ) (s : Ring) (g : History)
      → 2 ≤ h
      → g.of_handle h ≢ idle
      → Step s g (ve_dma_poll h s).1 (polled h (ve_dma_poll h s).0 g)
  enter :
      (dst src size : ℕ) (s s' : Ring) (g : History)
      → post_wait_enter dst src size s ≡ some s'
      → Step s g s' (record g {
        of_waiter =
            update g.of_waiter s.vedma_index
              (running (record { dst = dst; src = src; size = size }));
        holder = update g.holder s.vedma_index 1;
      })
  leave :
      (i e : ℕ) (s s' : Ring) (g : History)
      → g.of_waiter i ≢ idle
      → post_wait_leave i s ≡ some (e, s')
      → Step s g s' (record g { of_waiter = update g.of_waiter i idle })
  -- The engine ends the transfer of a descriptor in use.
  complete :
      (i w : ℕ) (s : Ring) (g : History)
      → s.vedma_status i ≢ 0
      → is_done (s.word i) ≡ false
      → is_done w ≡ true
      → w < 2 ^ 64
      → Step s g (record s { word = update s.word i w }) (completed i w g)

-- No transfer was posted yet.
abbrev pub unused : History
unused = record { of_handle = λ _. idle; of_waiter = λ _. idle; holder = λ _. 0 }

-- From the state that `ve_dma_init` leaves.
pub data Reachable : Ring → History → Type 0 where
  initial :
      (s : Ring) (g : History)
      → s.vedma_index ≡ 0
      → ((i : ℕ) → s.vedma_status i ≡ 0)
      → g ≡ unused
      → Reachable s g
  next : {s s' : Ring} {g g' : History} → Reachable s g → Step s g s' g' → Reachable s' g'
