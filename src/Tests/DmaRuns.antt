-- ===== src/Tests/DmaRuns.antt =====
-- The setup of src/vedma_init.c with a mapping that works and with one that fails.
use libsysve.Prelude.{ℕ, ◌+◌, ◌≡◌, refl, false}
use libsysve.Prelude.Int.{pos, negsuc}
use libsysve.Dma.{returned, DmaState, Mapped, ve_dma_init}
use libsysve.Dma.Setup.{Ready, Stuck, ve_dma_init-Ready, ve_dma_init-Stuck}
use libsysve.Dma.Ring.{Ring}
use libsysve.Dma.Ring.Life.{Reachable, unused}
use libsysve.Dma.Mapping.{map_at, ring_in, set_up_by, ve_dma_init-mapping}
use libsysve.Sysve.Words.{int_of}
use libsysve.Sysve.Served.{LibCall}
use libsysve.Sysve.Requests.{serve}
use libsysve.Tests.SysveRuns.{numbers, tells}

abbrev unset : DmaState ℕ
unset = record {
  kernel = 0;
  init_lock = false;
  ve_dma_initialized = false;
  vedma_desc = 0;
  vedma_ctrl = 0;
  vedma_index = 5;
  vedma_lock = 0;
  vedma_status = λ _. 0;
}

abbrev works : ℕ → Mapped × ℕ
works k = (record { ret = pos 0; vehva_dmades = 16384; vehva_dmactl = 12304 }, k + 1)

abbrev fails : ℕ → Mapped × ℕ
fails k = (record { ret = negsuc 0; vehva_dmades = 0; vehva_dmactl = 0 }, k + 1)

ve_dma_init-Ready_example : Ready works unset (ve_dma_init works unset)
ve_dma_init-Ready_example = ve_dma_init-Ready works unset refl refl

ve_dma_init-Stuck_example : Stuck fails unset (negsuc 0) (ve_dma_init fails unset)
ve_dma_init-Stuck_example = ve_dma_init-Stuck fails unset refl refl refl

-- An operating system that maps the descriptors: its state is the word stored at either variable.
abbrev maps : LibCall → ℕ → ℕ × ℕ
maps c k = (0, k + 16384)

abbrev memory : Ring
memory = record {
  vedma_index = 9;
  vedma_status = λ _. 3;
  word = λ _. 2;
  size = λ _. 0;
  src = λ _. 0;
  dst = λ _. 0;
  handle = λ _. record { status = pos 0; index = 0 };
}

ve_dma_init-mapping_example :
    let init = ve_dma_init (map_at numbers (serve numbers tells maps) (λ k a. k + a) 64 72) in
    let done = set_up_by numbers tells maps (λ k a. k + a) 64 72 16384 unset in
    (init unset ≡ returned (pos 0) done)
    × (init done ≡ returned (pos 0) done)
    × Reachable (ring_in memory done) unused
unfolding int_of
ve_dma_init-mapping_example =
    ve_dma_init-mapping numbers tells maps (λ k a. k + a) 64 72 unset memory refl refl refl
