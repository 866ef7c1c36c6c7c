-- ===== src/Tests/RingRuns.antt =====
-- A transfer of a handle and one that is waited for in the ring of src/vedma_main.S: posted, ended by the
-- engine with exceptions 5 and 7, and asked for.
use libsysve.Prelude.{ℕ, zero, suc, ◌+◌, ◌*◌, ◌^◌, ◌<◌, ◌≡◌, refl, false, update, some, arith}
use libsysve.Prelude.Int.{pos}
use libsysve.Dma.{ve_dma_wait}
use libsysve.Acc.Vh.{Transfer}
use libsysve.Dma.Ring.{
  Ring, is_done, start_dma, init_handle, post_next, ve_dma_post, ve_dma_poll, post_wait_enter,
  post_wait_leave,
}
use libsysve.Dma.Ring.Life.{
  running, finished, History, posted, completed, unused, Reachable, initial, next, post, enter,
  complete,
}
use libsysve.Dma.Ring.Bounds.{Within, Reachable-Within}
use libsysve.Dma.Ring.Results.{
  given, sampled, ve_dma_poll-answer, post_wait_leave-waited, ve_dma_post-full,
  ve_dma_wait-finished, Reachable-Describes,
}

abbrev ring0 : Ring
ring0 = record {
  vedma_index = 0;
  vedma_status = λ _. 0;
  word = λ _. 2;
  size = λ _. 0;
  src = λ _. 0;
  dst = λ _. 0;
  handle = λ _. record { status = pos 0; index = 0 };
}

abbrev order : Transfer
order = record { dst = 16; src = 32; size = 64 }

abbrev ring1 : Ring
ring1 = (ve_dma_post 16 32 64 1000 ring0).1

abbrev history1 : History
history1 = posted order 1000 ring0.vedma_index (ve_dma_post 16 32 64 1000 ring0).0 unused

ring1-Reachable : Reachable ring1 history1
ring1-Reachable =
    next (initial ring0 unused refl (λ _. refl) refl)
      (post 16 32 64 1000 ring0 unused (omega arith) refl)

Reachable-Within_example : Within ring1 history1
Reachable-Within_example = Reachable-Within ring1-Reachable

abbrev word5 : ℕ
word5 = 2 + 5 * 2 ^ 48

abbrev ring2 : Ring
ring2 = record ring1 { word = update ring1.word 0 word5 }

abbrev history2 : History
history2 = completed 0 word5 history1

ring2-Reachable : Reachable ring2 history2
unfolding ve_dma_post post_next start_dma init_handle
ring2-Reachable =
    next ring1-Reachable (complete 0 word5 ring1 history1 (omega arith) refl refl (omega arith))

history2-finished : history2.of_handle 1000 ≡ finished 5
unfolding ve_dma_post post_next start_dma init_handle
history2-finished = refl

history1-running : history1.of_handle 1000 ≡ running order
unfolding ve_dma_post post_next start_dma init_handle
history1-running = refl

ve_dma_poll-answer_example : (ve_dma_poll 1000 ring2).0 ≡ pos 5
unfolding ve_dma_post post_next start_dma init_handle
ve_dma_poll-answer_example = ve_dma_poll-answer ring2-Reachable 1000 (omega arith) (λ p. cc)

Reachable-Describes_example :
    (ring1.vedma_status 0 ≡ 1000)
    × (is_done (ring1.word 0) ≡ false)
    × ((ring1.dst 0 ≡ 16) × (ring1.src 0 ≡ 32) × (ring1.size 0 ≡ 64 + 8 * 2 ^ 32))
unfolding ve_dma_post post_next start_dma init_handle
Reachable-Describes_example =
    Reachable-Describes ring1-Reachable 1000 order (omega arith) history1-running

ve_dma_post-full_example : (ve_dma_post 48 80 64 2000 ring2).0 ≡ pos 0
unfolding ve_dma_post post_next start_dma init_handle
ve_dma_post-full_example = ve_dma_post-full ring2-Reachable 48 80 64 2000

abbrev ring3 : Ring
ring3 = start_dma 16 32 64 1 ring0

abbrev history3 : History
history3 = record unused {
  of_waiter = update unused.of_waiter 0 (running order);
  holder = update unused.holder 0 1;
}

ring3-Reachable : Reachable ring3 history3
unfolding post_wait_enter
ring3-Reachable =
    next (initial ring0 unused refl (λ _. refl) refl) (enter 16 32 64 ring0 ring3 unused refl)

abbrev word7 : ℕ
word7 = 2 + 7 * 2 ^ 48

ring4-Reachable :
    Reachable (record ring3 { word = update ring3.word 0 word7 }) (completed 0 word7 history3)
unfolding start_dma
ring4-Reachable =
    next ring3-Reachable (complete 0 word7 ring3 history3 (omega arith) refl refl (omega arith))

post_wait_leave-waited_example :
    given (post_wait_leave 0 (record ring3 { word = update ring3.word 0 word7 })) ≡ some 7
post_wait_leave-waited_example = post_wait_leave-waited ring4-Reachable 0 (λ p. cc)

-- The transfer runs at two polls and is over at the third.
abbrev rings : ℕ → Ring
rings zero = ring1
rings (suc zero) = ring1
rings (suc (suc t)) = ring2

abbrev histories : ℕ → History
histories zero = history1
histories (suc zero) = history1
histories (suc (suc t)) = history2

rings-Reachable : (t : ℕ) → Reachable (rings t) (histories t)
rings-Reachable zero = ring1-Reachable
rings-Reachable (suc zero) = ring1-Reachable
rings-Reachable (suc (suc t)) = ring2-Reachable

runs_before : (t : ℕ) → t < 2 → (histories t).of_handle 1000 ≡ running order
runs_before zero lt = history1-running
runs_before (suc zero) lt = history1-running
runs_before (suc (suc t)) lt = absurd (omega arith)

ve_dma_wait-finished_example : ve_dma_wait (sampled 1000 rings) 3 0 ≡ some (pos 5, 3)
ve_dma_wait-finished_example =
    ve_dma_wait-finished rings histories rings-Reachable 1000 2 5 3 order (omega arith) runs_before
      history2-finished (omega arith)
