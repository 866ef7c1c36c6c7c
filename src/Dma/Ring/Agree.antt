-- ===== src/Dma/Ring/Agree.antt =====
-- How the ring of src/vedma_main.S stands to what became of each transfer.
use libsysve.Prelude.{ℕ, ◌≤◌, ◌<◌, ◌≡◌, ◌≢◌, ◌⊎◌, true, false, ◌+◌, ◌*◌, ◌%◌, ◌^◌}
use libsysve.Prelude.Int.{pos, minus_one}
use libsysve.Acc.Vh.{Transfer}
use libsysve.Dma.Ring.{Ring, is_done, exception_of}
use libsysve.Dma.Ring.Life.{Outcome, idle, running, finished, History}

-- Descriptor `i` says what was asked for.
abbrev pub Describes : Ring → ℕ → Transfer → Type 0
Describes s i t = (s.dst i ≡ t.dst) × (s.src i ≡ t.src) × (s.size i ≡ t.size % 2 ^ 32 + 8 * 2 ^ 32)

-- The transfer of handle `h` is in its descriptor.
abbrev pub InRing : Ring → ℕ → Type 0
InRing s h = ((s.handle h).status ≡ minus_one) × (s.vedma_status (s.handle h).index ≡ h)

abbrev pub Absent : Ring → ℕ → Type 0
Absent s h = (i : ℕ) → s.vedma_status i ≢ h

abbrev pub HandleAgrees : Ring → ℕ → Outcome → Type 0
HandleAgrees s h idle = Absent s h
HandleAgrees s h (running t) =
    InRing s h × (is_done (s.word (s.handle h).index) ≡ false) × Describes s (s.handle h).index t
HandleAgrees s h (finished e) =
    (Absent s h × ((s.handle h).status ≡ pos e) × (e < 2 ^ 16))
    ⊎ (InRing s h
        × (is_done (s.word (s.handle h).index) ≡ true)
        × (exception_of (s.word (s.handle h).index) ≡ e)
        × (e < 2 ^ 16))

abbrev pub WaiterAgrees : Ring → ℕ → Outcome → Type 0
WaiterAgrees s i idle = s.vedma_status i ≢ 1
WaiterAgrees s i (running t) =
    (s.vedma_status i ≡ 1) × (is_done (s.word i) ≡ false) × Describes s i t
WaiterAgrees s i (finished e) =
    (s.vedma_status i ≡ 1) × (is_done (s.word i) ≡ true) × (exception_of (s.word i) ≡ e)

pub record Agrees (s : Ring) (g : History) : Type 0 where
  pub handles : (h : ℕ) → 2 ≤ h → HandleAgrees s h (g.of_handle h)
  pub waiters : (i : ℕ) → WaiterAgrees s i (g.of_waiter i)
  pub entries : (i : ℕ) → 2 ≤ s.vedma_status i → (s.handle (s.vedma_status i)).index ≡ i
  pub holders : (i : ℕ) → s.vedma_status i ≢ 0 → g.holder i ≡ s.vedma_status i
