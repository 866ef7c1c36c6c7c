-- ===== src/Memcpy/Blocks.antt =====
-- Loops of `__libsysve_vec_memcpy`: each block copied keeps what is copied so far.
use libsysve.Prelude.{
  ℕ, zero, suc, ◌+◌, ◌-◌, ◌≤◌, ◌<◌, ◌≡◌, ◌≢◌, Bool, true, false, Option, none, some, Bytes, copy,
  arith, fun_ext, Bool-cases, inl, inr, ◌⊎◌, ◌∙◌, ap,
}
use libsysve.Memcpy.{Regs, move, do_while}

-- The two ranges share no byte.
abbrev pub Disjoint : (dest src n : ℕ) → Type 0
Disjoint dest src n = (src + n ≤ dest) ⊎ (dest + n ≤ src)

clash : (b : Bool) → b ≡ true → b ≡ false → ⊥
clash b t f = cc

module _ (mem : Bytes) (dest src n : ℕ) (apart : Disjoint dest src n) where
  -- All but the last `r.n` bytes are copied.
  pub record Copied (r : Regs) : Type 0 where
    pub mem_lem : r.mem ≡ copy mem dest (λ k. mem (src + k)) (n - r.n)
    pub p_lem : r.p + r.n ≡ dest + n
    pub q_lem : r.q + r.n ≡ src + n
    pub le : r.n ≤ n

  copy-further :
      (i b : ℕ)
      → i + b ≤ n
      → let m = copy mem dest (λ k. mem (src + k)) i in
        copy m (dest + i) (λ k. m (src + i + k)) b ≡ copy mem dest (λ k. mem (src + k)) (i + b)
  copy-further i b room = fun_ext λ k. ground (arith, apart)

  pub move-Copied : (b : ℕ) (r : Regs) → b ≤ r.n → Copied r → Copied (move b r)
  unfolding move
  move-Copied b r room c = record {
    mem_lem =
        (λ i. copy (c.mem_lem i) (p_is i) (λ k. c.mem_lem i (q_is i + k)) b)
        ∙ copy-further (n - r.n) b (omega (arith, c.le))
        ∙ ap (copy mem dest (λ k. mem (src + k))) (omega (arith, c.le));
    p_lem = omega (arith, c.p_lem, room);
    q_lem = omega (arith, c.q_lem, room);
    le = omega (arith, c.le);
  }
    where
      p_is : r.p ≡ dest + (n - r.n)
      p_is = omega (arith, c.p_lem, c.le)

      q_is : r.q ≡ src + (n - r.n)
      q_is = omega (arith, c.q_lem, c.le)

  -- The loop has ended, by its test, with fewer bytes to go.
  abbrev pub Ended : (Regs → Bool) → Regs → Option Regs → Type 0
  Ended test r none = ⊥
  Ended test r (some s) = Copied s × (test s ≡ false) × (s.n < r.n)

  Ended-later :
      (test : Regs → Bool) (r s : Regs) (out : Option Regs)
      → s.n ≤ r.n
      → Ended test s out
      → Ended test r out
  Ended-later test r s none le ended = ended
  Ended-later test r s (some t) le (copied, done, fewer) = (copied, done, omega arith)

  -- A loop that goes on only when there is a block left.
  pub do_while-Ended :
      (b : ℕ) (test : Regs → Bool)
      → 0 < b
      → ((s : Regs) → test s ≡ true → b ≤ s.n)
      → (fuel : ℕ) (r : Regs) → r.n ≤ fuel
      → b ≤ r.n
      → Copied r
      → Ended test r (do_while b test fuel r)
  unfolding do_while
  do_while-Ended b test pos room zero r enough first c = absurd (omega arith)
  do_while-Ended b test pos room (suc fuel) r enough first c =
      let moved : Copied (move b r) = move-Copied b r first c in
      elim (Bool-cases (test (move b r))) [
        | inl e ↦ rw e (
            Ended-later test r (move b r) _ (unfold move in omega arith) (
              do_while-Ended b test pos room fuel (move b r) (unfold move in omega arith)
                (room (move b r) e) moved))
        | inr e ↦ rw e (moved, e, unfold move in omega arith)
      ]

  -- A loop over bytes that ends at the address `target`, or before.
  pub do_while-target :
      (test : Regs → Bool) (target : ℕ)
      → ((s : Regs) → s.p ≡ target → test s ≡ false)
      → (fuel : ℕ) (r : Regs) → r.p < target
      → target ≤ r.p + fuel
      → target ≤ r.p + r.n
      → Copied r
      → Ended test r (do_while 1 test fuel r)
  unfolding do_while
  do_while-target test target stops zero r before enough room c = absurd (omega arith)
  do_while-target test target stops (suc fuel) r before enough room c =
      let moved : Copied (move 1 r) = move-Copied 1 r (omega arith) c in
      elim (Bool-cases (test (move 1 r))) [
        | inl e ↦
            let short : (move 1 r).p ≢ target =
              λ eq. clash (test (move 1 r)) e (stops (move 1 r) eq) in
            rw e (
              Ended-later test r (move 1 r) _ (unfold move in omega arith) (
                do_while-target test target stops fuel (move 1 r)
                  (unfold move in omega (arith, short)) (unfold move in omega arith)
                  (unfold move in omega arith) moved))
        | inr e ↦ rw e (moved, e, unfold move in omega arith)
      ]
