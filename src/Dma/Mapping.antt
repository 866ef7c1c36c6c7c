-- ===== src/Dma/Mapping.antt =====
-- The setup of src/vedma_init.c on the mapping call of src/libuserdma.c, down to the operating system.
use libsysve.Prelude.{ℕ, ◌≡◌, refl, true, false, List}
use libsysve.Prelude.Int.{pos, ◌==ℤ◌}
use libsysve.Dma.{DmaState, Mapped, returned, mapped, locked, ve_dma_init}
use libsysve.Dma.Ring.{Ring}
use libsysve.Dma.Ring.Life.{Reachable, initial, unused}
use libsysve.Sysve.{Arg, Numbers}
use libsysve.Sysve.Words.{int_of}
use libsysve.Sysve.Cr.{ve_map_dmades}
use libsysve.Sysve.Served.{LibCall, Tells, map}
use libsysve.Sysve.Perform.{perform}
use libsysve.Sysve.Requests.{serve, perform-serve}

-- `ve_map_dmades(&vedma_vars.vedma_desc, &vedma_ctrl)`: the call, and what the two variables at `desc` and
-- `ctrl` hold after it.
unfoldable pub map_at :
    {S : Type 0} (n : Numbers) (syscall : ℕ → List Arg → S → ℕ × S)
    → (fetch : S → ℕ → ℕ) → (desc ctrl : ℕ) → S
    → Mapped × S
map_at n syscall fetch desc ctrl s =
    let (ret, s') = ve_map_dmades n syscall desc ctrl s in
    (record { ret = ret; vehva_dmades = fetch s' desc; vehva_dmactl = fetch s' ctrl }, s')

-- The ring of descriptors with the variables of `s`; `r` is the rest of the memory.
abbrev pub ring_in : {S : Type 0} → Ring → DmaState S → Ring
ring_in r s = record r { vedma_index = s.vedma_index; vedma_status = s.vedma_status }

module _ {S : Type 0} (n : Numbers) (t : Tells n) (h : LibCall → S → ℕ × S) (fetch : S → ℕ → ℕ)
    (desc ctrl : ℕ) where
  -- After a setup: the addresses that the operating system stored, and a free lock.
  abbrev pub set_up_by : S → DmaState S → DmaState S
  set_up_by k s = record s {
    kernel = k;
    vedma_desc = fetch k desc;
    vedma_ctrl = fetch k ctrl;
    vedma_index = 0;
    vedma_lock = 0;
    vedma_status = λ _. 0;
    ve_dma_initialized = true;
    init_lock = false;
  }

  mapping :
      (k : S)
      → ve_map_dmades n (serve n t h) desc ctrl k
        ≡ (int_of (h (map desc ctrl) k).0, (h (map desc ctrl) k).1)
  unfolding perform
  mapping k = perform-serve n t h (map desc ctrl) tt k

  -- A first ve_dma_init, with the lock free, makes the operating system map the descriptors once,
  -- by ve_map_dmades and at its two variables, and returns 0 with the addresses stored there, the
  -- index and the lock reset and the mutex free; the next call returns 0 and asks the operating
  -- system for nothing. Whatever the rest of the memory holds, the ring of descriptors is in the
  -- state that transfers start from. The mapping's result is 0 as an int, and the constants of
  -- system calls differ from each other.
  pub ve_dma_init-mapping :
      (s : DmaState S) (r : Ring)
      → s.init_lock ≡ false
      → s.ve_dma_initialized ≡ false
      → (int_of (h (map desc ctrl) s.kernel).0 ==ℤ pos 0) ≡ true
      → let init = ve_dma_init (map_at n (serve n t h) fetch desc ctrl) in
        let done = set_up_by (h (map desc ctrl) s.kernel).1 s in
        (init s ≡ returned (pos 0) done)
        × (init done ≡ returned (pos 0) done)
        × Reachable (ring_in r done) unused
  unfolding ve_dma_init locked mapped map_at
  ve_dma_init-mapping s r free first works = (
    rw (free, first, mapping s.kernel, works) refl,
    refl,
    initial (ring_in r (set_up_by (h (map desc ctrl) s.kernel).1 s)) unused refl (λ _. refl) refl,
  )
