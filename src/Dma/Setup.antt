-- ===== src/Dma/Setup.antt =====
-- What the setup and the wait of src/vedma_init.c come to.
use libsysve.Prelude.{ℕ, zero, suc, ◌<◌, ◌≡◌, refl, true, false, some, arith, Bool-cases, inl, inr}
use libsysve.Prelude.Int.{ℤ, pos, ◌==ℤ◌}
use libsysve.Dma.{
  DmaState, Mapped, Call, returned, blocked, mapped, locked, ve_dma_init, minus_eagain, is_positive,
  ve_dma_wait,
}

module _ {K : Type 0} (map_dmades : K → Mapped × K) (s : DmaState K) where
  -- The call returned 0 with the lock free, and a second one would return 0 and change nothing.
  abbrev pub Ready : Call (DmaState K) → Type 0
  Ready (returned ret t) =
      (ret ≡ pos 0) × (t.init_lock ≡ false) × (ve_dma_init map_dmades t ≡ returned (pos 0) t)
  Ready blocked = ⊥

  -- The call returned `err`, and a second one would block.
  abbrev pub Stuck : ℤ → Call (DmaState K) → Type 0
  Stuck err (returned ret t) = (ret ≡ err) × (ve_dma_init map_dmades t ≡ blocked)
  Stuck err blocked = ⊥

  -- With the lock free and a mapping that works, ve_dma_init returns 0 with the lock free again,
  -- and a second call returns 0 and leaves everything as the first did.
  pub ve_dma_init-Ready :
      s.init_lock ≡ false
      → ((map_dmades s.kernel).0.ret ==ℤ pos 0) ≡ true
      → Ready (ve_dma_init map_dmades s)
  unfolding ve_dma_init locked mapped
  ve_dma_init-Ready free works = elim (Bool-cases s.ve_dma_initialized) [
    | inl e ↦ rw (free, e) (refl, refl, refl)
    | inr e ↦ rw (free, e, works) (refl, refl, refl)
  ]

  -- A first setup, with the lock free, whose mapping fails returns its error and keeps the lock:
  -- the next call blocks.
  pub ve_dma_init-Stuck :
      s.init_lock ≡ false
      → s.ve_dma_initialized ≡ false
      → ((map_dmades s.kernel).0.ret ==ℤ pos 0) ≡ false
      → Stuck (map_dmades s.kernel).0.ret (ve_dma_init map_dmades s)
  unfolding ve_dma_init locked mapped
  ve_dma_init-Stuck free first fails = rw (free, first, fails) (refl, refl)

-- The engine's state after `n` polls.
abbrev pub polled : {D : Type 0} → (D → ℤ × D) → ℕ → D → D
polled poll zero d = d
polled poll (suc n) d = polled poll n (poll d).1

-- When a poll of the engine is not -EAGAIN for the first time, after n others that are,
-- ve_dma_wait returns that answer, in n + 1 rounds; more fuel than n is enough.
pub ve_dma_wait-first :
    {D : Type 0} (poll : D → ℤ × D) (n fuel : ℕ) (d : D)
    → ((i : ℕ) → i < n → (poll (polled poll i d)).0 ≡ minus_eagain)
    → ((poll (polled poll n d)).0 ==ℤ minus_eagain) ≡ false
    → n < fuel
    → ve_dma_wait poll fuel d ≡ some (poll (polled poll n d))
unfolding ve_dma_wait
ve_dma_wait-first poll n zero d again other lt = absurd (omega arith)
ve_dma_wait-first poll zero (suc fuel) d again other lt =
    elim (Bool-cases (is_positive (poll d).0)) [ inl e ↦ rw e refl | inr e ↦ rw (e, other) refl ]
ve_dma_wait-first poll (suc n) (suc fuel) d again other lt = rw (again 0 (omega arith)) (
    ve_dma_wait-first poll n fuel (poll d).1 (λ i less. again (suc i) (omega arith)) other
      (omega arith))
