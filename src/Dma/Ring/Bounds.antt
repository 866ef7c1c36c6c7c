-- ===== src/Dma/Ring/Bounds.antt =====
-- The descriptors that the callers of src/vedma_main.S reach: the table has 128.
use libsysve.Prelude.{ℕ, ◌<◌, ◌≡◌, ◌≢◌, arith, some, update, refl, Bool-cases, inl, inr, ◌==◌}
use libsysve.Dma.Ring.{
  Ring, save_status, start_dma, init_handle, post_next, ve_dma_post, ve_dma_poll, post_wait_enter,
  post_wait_leave,
}
use libsysve.Dma.Ring.Agree.{Agrees}
use libsysve.Dma.Ring.Results.{Reachable-Agrees}
use libsysve.Dma.Ring.Life.{
  idle, running, History, Step, post, poll, enter, leave, complete, Reachable, posted, polled,
  completed, initial, next,
}

-- The index, the entries that are in use, and the descriptors of the transfers that callers still ask for.
pub record Within (s : Ring) (g : History) : Type 0 where
  pub index : s.vedma_index < 128
  pub entries : (i : ℕ) → s.vedma_status i ≢ 0 → i < 128
  pub handles : (h : ℕ) → g.of_handle h ≢ idle → (s.handle h).index < 128
  pub waiters : (i : ℕ) → g.of_waiter i ≢ idle → i < 128

post_wait_leave-Within :
    (i e : ℕ) (s s' : Ring) (g : History)
    → post_wait_leave i s ≡ some (e, s')
    → Within s g
    → Within s' (record g { of_waiter = update g.of_waiter i idle })
unfolding post_wait_leave
post_wait_leave-Within i e s s' g is w = record {
  index = ground (arith, is, w.index);
  entries = λ k. ground (arith, is, w.entries k);
  handles = λ h. ground (arith, is, w.handles h);
  waiters = λ k. ground (arith, w.waiters k);
}

poll-Within :
    (h : ℕ) (s : Ring) (g : History)
    → Within s g
    → Within (ve_dma_poll h s).1 (polled h (ve_dma_poll h s).0 g)
unfolding ve_dma_poll
poll-Within h s g w = record {
  index = ground (arith, w.index);
  entries = λ k. ground (arith, w.entries k);
  handles = λ j. ground (arith, w.handles j);
  waiters = λ k. ground (arith, w.waiters k);
}

post-Within :
    (dst src size h : ℕ) (s : Ring) (g : History)
    → Within s g
    → Within (ve_dma_post dst src size h s).1 (
        posted
          (record { dst = dst; src = src; size = size })
          h
          s.vedma_index
          (ve_dma_post dst src size h s).0
          g)
unfolding ve_dma_post post_next init_handle start_dma save_status
post-Within dst src size h s g w = record {
  index = ground (arith, w.index);
  entries = λ k. ground (arith, w.entries k, w.index);
  handles = λ j. ground (arith, w.handles j, w.index);
  waiters = λ k. ground (arith, w.waiters k);
}

post_wait_enter-Within :
    (dst src size : ℕ) (s s' : Ring) (g : History)
    → post_wait_enter dst src size s ≡ some s'
    → Within s g
    → Within s' (record g {
      of_waiter =
          update g.of_waiter s.vedma_index (running (record { dst = dst; src = src; size = size }));
      holder = update g.holder s.vedma_index 1;
    })
unfolding post_wait_enter start_dma save_status
post_wait_enter-Within dst src size s s' g is w = record {
  index = ground (arith, is, w.index);
  entries = λ k. ground (arith, is, w.entries k, w.index);
  handles = λ j. ground (arith, is, w.handles j, w.index);
  waiters = λ k. ground (arith, w.waiters k, w.index);
}

complete-Within :
    (i w : ℕ) (s : Ring) (g : History)
    → s.vedma_status i ≢ 0
    → Agrees s g
    → Within s g
    → Within (record s { word = update s.word i w }) (completed i w g)
complete-Within i w s g busy a within = elim (Bool-cases (g.holder i == 1)) [
  | inl waiter ↦ rw waiter record {
    index = within.index;
    entries = within.entries;
    handles = within.handles;
    waiters = λ k. ground (arith, within.waiters k, within.entries i busy);
  }
  | inr handle ↦ rw handle record {
    index = within.index;
    entries = within.entries;
    handles =
        λ h. ground (arith, within.handles h, within.entries i busy, a.holders i busy, a.entries i);
    waiters = within.waiters;
  }
]

Step-Within :
    {s s' : Ring} {g g' : History} → Step s g s' g' → Agrees s g → Within s g → Within s' g'
Step-Within (post dst src size h s g le e) a w = post-Within dst src size h s g w
Step-Within (poll h s g le used) a w = poll-Within h s g w
Step-Within (enter dst src size s s' g is) a w = post_wait_enter-Within dst src size s s' g is w
Step-Within (leave i e s s' g used is) a w = post_wait_leave-Within i e s s' g is w
Step-Within (complete i w s g busy over bound used) a within = complete-Within i w s g busy a within

-- Whatever the threads of a process and the engine do, the ring stays within its table of 128
-- descriptors: the index of the next one, every entry that is in use, the descriptor of every
-- handle whose result is still to be taken, and that of every transfer that is waited for are
-- below 128. The handle's address is neither NULL nor 1. Handles are posted again only when their
-- last result was taken, and polled only till then.
pub Reachable-Within : {s : Ring} {g : History} → Reachable s g → Within s g
Reachable-Within (initial s g start free new) = rw new record {
  index = omega (arith, start);
  entries = λ i used. absurd (used (free i));
  handles = λ h used. absurd (used refl);
  waiters = λ i used. absurd (used refl);
}
Reachable-Within (next r step) = Step-Within step (Reachable-Agrees r) (Reachable-Within r)
