-- ===== src/Dma/Ring/Results.antt =====
-- What the callers of src/vedma_main.S are given, in every state that steps of theirs and of the engine reach.
use libsysve.Prelude.{
  ℕ, zero, ◌∙◌, sym, suc, Bool, not, ◌||◌, ◌&&◌, leb, if◌then◌else◌, ap, ◌+◌, ◌≤◌, ◌<◌, ◌≡◌, ◌≢◌,
  refl, arith, Option, none, some, true, false, inl, inr, ◌==◌,
}
use mathlib.Core.Path.{subst}
use libsysve.Prelude.Int.{ℤ, pos, ◌==ℤ◌}
use libsysve.Dma.{minus_eagain, ve_dma_wait}
use libsysve.Dma.Setup.{polled, ve_dma_wait-first}
use libsysve.Acc.Vh.{Transfer}
use libsysve.Dma.Ring.{Ring, is_done, ve_dma_post, ve_dma_poll, post_wait_leave, post_next}
use libsysve.Dma.Ring.Life.{
  Outcome, idle, running, finished, History, Step, post, poll, enter, leave, complete, Reachable,
  initial, next,
}
use libsysve.Dma.Ring.Agree.{Agrees, HandleAgrees, WaiterAgrees, Describes}
use libsysve.Dma.Ring.Starts.{ve_dma_post-Agrees, post_wait_enter-Agrees}
use libsysve.Dma.Ring.Completes.{complete-Agrees}
use libsysve.Dma.Ring.Ends.{
  ve_dma_poll-Agrees, post_wait_leave-Agrees, poll-running, poll-kept, poll-ended,
}

Step-Agrees : {s s' : Ring} {g g' : History} → Step s g s' g' → Agrees s g → Agrees s' g'
Step-Agrees (post dst src size h s g le e) a = ve_dma_post-Agrees s g dst src size h le e a
Step-Agrees (poll h s g le used) a = ve_dma_poll-Agrees s g a h le used
Step-Agrees (enter dst src size s s' g is) a = post_wait_enter-Agrees s s' g dst src size a is
Step-Agrees (leave i e s s' g used is) a = post_wait_leave-Agrees s g a s' i e used is
Step-Agrees (complete i w s g used busy over bound) a =
    complete-Agrees s g i w busy over bound a used

pub Reachable-Agrees : {s : Ring} {g : History} → Reachable s g → Agrees s g
Reachable-Agrees (initial s g _ free new) = rw new record {
  handles = λ h le i at. omega (arith, free i, at, le);
  waiters = λ i at. omega (arith, free i, at);
  entries = λ i two. absurd (omega (arith, free i, two));
  holders = λ i used. absurd (used (free i));
}
Reachable-Agrees (next r step) = Step-Agrees step (Reachable-Agrees r)

-- What a poll says of a transfer: -EAGAIN while it runs, then what the engine put into its descriptor.
abbrev pub answer : Outcome → ℤ
answer idle = pos 0
answer (running t) = minus_eagain
answer (finished e) = pos e

-- What `ve_dma_post_wait` has to return for its transfer, if anything.
abbrev pub waited : Outcome → Option ℕ
waited idle = none
waited (running t) = none
waited (finished e) = some e

abbrev pub given : Option (ℕ × Ring) → Option ℕ
given none = none
given (some (e, s)) = some e

poll-answer :
    (s : Ring) (h : ℕ) (t : Outcome)
    → t ≢ idle
    → HandleAgrees s h t
    → (ve_dma_poll h s).0 ≡ answer t
poll-answer s h idle used a = absurd (used refl)
poll-answer s h (running t) used a = ap (λ (r : ℤ × Ring). r.0) (poll-running s h t a)
poll-answer s h (finished e) used (inl a) = ap (λ (r : ℤ × Ring). r.0) (poll-kept s h e a.1)
poll-answer s h (finished e) used (inr a) =
    ap (λ (r : ℤ × Ring). r.0) (poll-ended s h e a.0 a.1 a.2)

leave-waited :
    (s : Ring) (i : ℕ) (t : Outcome)
    → t ≢ idle
    → WaiterAgrees s i t
    → given (post_wait_leave i s) ≡ waited t
unfolding post_wait_leave
leave-waited s i idle used a = absurd (used refl)
leave-waited s i (running t) used a = rw a.1 refl
leave-waited s i (finished e) used a = rw (a.1, a.2) refl

-- The next descriptor holds a transfer that is waited for, or one of a handle that runs.
abbrev is_running : Outcome → Bool
is_running idle = false
is_running (running t) = true
is_running (finished e) = false

abbrev is_idle : Outcome → Bool
is_idle idle = true
is_idle (running t) = false
is_idle (finished e) = false

abbrev pub is_full : Ring → History → Bool
is_full s g =
    not (is_idle (g.of_waiter s.vedma_index))
    || (leb 2 (s.vedma_status s.vedma_index)
        && is_running (g.of_handle (s.vedma_status s.vedma_index)))

waiter-one :
    (s : Ring) (i : ℕ) (t : Outcome)
    → WaiterAgrees s i t
    → (s.vedma_status i == 1) ≡ not (is_idle t)
waiter-one s i idle a = ground (arith, a)
waiter-one s i (running t) a = ground (arith, a)
waiter-one s i (finished e) a = ground (arith, a)

entry-over :
    (s : Ring) (i h : ℕ) (t : Outcome)
    → s.vedma_status i ≡ h
    → (s.handle h).index ≡ i
    → HandleAgrees s h t
    → is_done (s.word i) ≡ not (is_running t)
entry-over s i h idle at ix a = absurd (a i at)
entry-over s i h (running t) at ix a = ground (arith, a, ix)
entry-over s i h (finished e) at ix (inl a) = absurd (a.0 i at)
entry-over s i h (finished e) at ix (inr a) = ground (arith, a, ix)

post-full :
    (s : Ring) (dst src size h : ℕ) (waits runs : Bool)
    → (s.vedma_status s.vedma_index == 1) ≡ waits
    → (2 ≤ s.vedma_status s.vedma_index → is_done (s.word s.vedma_index) ≡ not runs)
    → (ve_dma_post dst src size h s).0
      ≡ (if waits || (leb 2 (s.vedma_status s.vedma_index) && runs) then minus_eagain else pos 0)
unfolding ve_dma_post post_next
post-full s dst src size h waits runs one over = ground (arith, one, over)

running-Describes :
    (s : Ring) (h : ℕ) (x : Outcome) (t : Transfer)
    → x ≡ running t
    → HandleAgrees s h x
    → (s.vedma_status (s.handle h).index ≡ h)
      × (is_done (s.word (s.handle h).index) ≡ false)
      × Describes s (s.handle h).index t
running-Describes s h x t is a = let b = subst (HandleAgrees s h) is a in (b.0.1, b.1, b.2)

module _ {s : Ring} {g : History} (r : Reachable s g) where
  -- Whatever the threads of a process and the engine do, while the transfer of a handle runs its
  -- descriptor is marked with that handle alone, is not marked as over, and has the addresses and
  -- the size, with the SYNC flag, that the transfer was posted with. The handle's address is
  -- neither NULL nor 1. Handles are posted again only when their last result was taken, and polled
  -- only till then.
  pub Reachable-Describes :
      (h : ℕ) (t : Transfer)
      → 2 ≤ h
      → g.of_handle h ≡ running t
      → (s.vedma_status (s.handle h).index ≡ h)
        × (is_done (s.word (s.handle h).index) ≡ false)
        × Describes s (s.handle h).index t
  Reachable-Describes h t le is =
      running-Describes s h (g.of_handle h) t is ((Reachable-Agrees r).handles h le)

  -- Whatever the threads of a process and the engine do, a poll of a handle whose result was not
  -- yet taken says -EAGAIN while its transfer runs, and then exactly the exception that the engine
  -- gave that transfer, also when its descriptor has been used again in between. The handle's
  -- address is neither NULL nor 1. Handles are posted again only when their last result was taken,
  -- and polled only till then.
  pub ve_dma_poll-answer :
      (h : ℕ) → 2 ≤ h → g.of_handle h ≢ idle → (ve_dma_poll h s).0 ≡ answer (g.of_handle h)
  ve_dma_poll-answer h le used =
      poll-answer s h (g.of_handle h) used ((Reachable-Agrees r).handles h le)

  -- Whatever the threads and the engine do, ve_dma_post_wait waits while its own transfer runs,
  -- and then returns exactly the exception that the engine gave that transfer. It has posted one
  -- and has not returned. Handles are posted again only when their last result was taken, and
  -- polled only till then.
  pub post_wait_leave-waited :
      (i : ℕ) → g.of_waiter i ≢ idle → given (post_wait_leave i s) ≡ waited (g.of_waiter i)
  post_wait_leave-waited i used =
      leave-waited s i (g.of_waiter i) used ((Reachable-Agrees r).waiters i)

  -- In a state that the threads and the engine can reach, ve_dma_post returns -EAGAIN when a
  -- ve_dma_post_wait has not returned from the transfer in the next descriptor, or when that of a
  -- handle in there still runs, and 0 otherwise. Handles are posted again only when their last
  -- result was taken, and polled only till then.
  pub ve_dma_post-full :
      (dst src size h : ℕ)
      → (ve_dma_post dst src size h s).0 ≡ (if is_full s g then minus_eagain else pos 0)
  ve_dma_post-full dst src size h =
      let a : Agrees s g = Reachable-Agrees r in
      let i : ℕ = s.vedma_index in
      let k : ℕ = s.vedma_status i in
      post-full s dst src size h (not (is_idle (g.of_waiter i))) (is_running (g.of_handle k))
        (waiter-one s i (g.of_waiter i) (a.waiters i))
        (λ two. entry-over s i k (g.of_handle k) refl (a.entries i two) (a.handles k two))

pos≢minus_eagain : (e : ℕ) → (pos e ==ℤ minus_eagain) ≡ false
pos≢minus_eagain e = ground arith

-- The engine and the other callers between two polls are a sequence of states; a poll takes the next one.
abbrev pub sampled : (h : ℕ) → (ℕ → Ring) → ℕ → ℤ × ℕ
sampled h s t = ((ve_dma_poll h (s t)).0, suc t)

polled-sampled : (h : ℕ) (s : ℕ → Ring) (n t : ℕ) → polled (sampled h s) n t ≡ n + t
polled-sampled h s zero t = omega arith
polled-sampled h s (suc n) t = polled-sampled h s n (suc t) ∙ omega arith

module _ (s : ℕ → Ring) (g : ℕ → History) (reach : (t : ℕ) → Reachable (s t) (g t)) where
  -- Over the ring, ve_dma_wait returns the exception of the handle's transfer at the first poll
  -- after its end, the poll number n, in n + 1 rounds; more fuel than n is enough. At each poll
  -- the ring is in some state that the threads and the engine can reach, the transfer runs at the
  -- polls before, and the handle's address is neither NULL nor 1. Handles are posted again only
  -- when their last result was taken, and polled only till then.
  pub ve_dma_wait-finished :
      (h n e fuel : ℕ) (order : Transfer)
      → 2 ≤ h
      → ((t : ℕ) → t < n → (g t).of_handle h ≡ running order)
      → (g n).of_handle h ≡ finished e
      → n < fuel
      → ve_dma_wait (sampled h s) fuel 0 ≡ some (pos e, suc n)
  ve_dma_wait-finished h n e fuel order le busy over enough =
      ve_dma_wait-first (sampled h s) n fuel 0
        (λ t lt. rw (at t) (answered t (running order) (busy t lt) (λ p. cc)))
        (rw (at n, last) (pos≢minus_eagain e)) enough
      ∙ rw (at n, last) refl
    where
      at : (t : ℕ) → polled (sampled h s) t 0 ≡ t
      at t = polled-sampled h s t 0 ∙ omega arith

      answered :
          (t : ℕ) (x : Outcome)
          → (g t).of_handle h ≡ x
          → x ≢ idle
          → (ve_dma_poll h (s t)).0 ≡ answer x
      answered t x is used =
          subst (λ y. (ve_dma_poll h (s t)).0 ≡ answer y) is
            (ve_dma_poll-answer (reach t) h le (λ p. used (sym is ∙ p)))

      last : (ve_dma_poll h (s n)).0 ≡ pos e
      last = answered n (finished e) over (λ p. cc)
