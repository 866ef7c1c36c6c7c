-- ===== src/Memcpy/Copies.antt =====
-- The whole of `__libsysve_vec_memcpy`: it ends, and it copies.
use libsysve.Prelude.{
  ℕ, ◌+◌, ◌-◌, ◌*◌, ◌/◌, ◌%◌, ◌≤◌, ◌<◌, ◌≡◌, refl, Bool, false, not, ◌==◌, ltb, leb, Option, none,
  some, Bytes, copy, arith, fun_ext, Bool-cases, inl, inr, ◌∙◌, ap,
}
use native.Mathlib.Nat.{
  mod-eq_of_lt, mod-lt, div-mul-le_self, lt-div-mul-add, mod-add-div', mul-mod_left,
}
use libsysve.Memcpy.{
  Regs, move, do_while, ◌>>=◌, pre_bytes, post_bytes, rem_bytes, rem_words, vectors, scalar,
  by_words, four_bytes, eight_bytes, returned, vec_memcpy,
}
use libsysve.Memcpy.Blocks.{Disjoint, Copied, move-Copied, Ended, do_while-Ended, do_while-target}

-- Where the bytes up to an aligned address end.
next_multiple : (p w : ℕ) → 0 < w → (p + (w - p % w)) % w ≡ 0
next_multiple p w pos =
    let whole : p + (w - p % w) ≡ (p / w + 1) * w = grind (arith, mod-add-div' p w, mod-lt p pos) in
    ap (λ t. t % w) whole ∙ mul-mod_left (p / w + 1) w

module _ (mem : Bytes) (dest src n : ℕ) (apart : Disjoint dest src n) where
  abbrev Moved : Regs → Type 0
  Moved = Copied mem dest src n apart

  -- Nothing is left to copy.
  abbrev Finished : Option Regs → Type 0
  Finished none = ⊥
  Finished (some s) = Moved s × (s.n ≡ 0)

  -- What follows a loop.
  after_loop :
      (test : Regs → Bool) (r : Regs) (out : Option Regs) (next : Regs → Option Regs)
      → ((s : Regs) → Moved s → test s ≡ false → Finished (next s))
      → Ended mem dest src n apart test r out
      → Finished (out >>= next)
  after_loop test r none next going ended = absurd ended
  after_loop test r (some s) next going (moved, done, fewer) = going s moved done

  post_bytes-Finished : (r : Regs) → 0 < r.n → Moved r → Finished (post_bytes r)
  unfolding post_bytes
  post_bytes-Finished r some_left moved = finish (do_while 1 (λ s. ltb 0 s.n) r.n r) (
      do_while-Ended mem dest src n apart 1 (λ s. ltb 0 s.n) (omega arith)
        (λ s e. ground (arith, e)) r.n r (omega arith) some_left moved)
    where
      finish :
          (out : Option Regs) → Ended mem dest src n apart (λ s. ltb 0 s.n) r out → Finished out
      finish none ended = absurd ended
      finish (some s) (copied, done, fewer) = (copied, ground (arith, done))

  rem_bytes-Finished : (w : ℕ) (r : Regs) → r.n < w → Moved r → Finished (rem_bytes w r)
  unfolding rem_bytes
  rem_bytes-Finished w r short moved = elim (Bool-cases (r.n % w == 0)) [
    | inl e ↦ rw e (moved, ground (arith, e, mod-eq_of_lt short))
    | inr e ↦ rw e (post_bytes-Finished r (ground (arith, e, mod-eq_of_lt short)) moved)
  ]

  rem_words-Finished : (w : ℕ) (r : Regs) → 0 < w → Moved r → Finished (rem_words w r)
  unfolding rem_words
  rem_words-Finished w r pos moved = elim (Bool-cases (r.n / w == 0)) [
    | inl e ↦ rw e (
        rem_bytes-Finished w r
          (omega (
            arith,
            lt-div-mul-add {a = r.n} pos,
            ap (λ (t : ℕ). t * w) (let z : r.n / w ≡ 0 = ground (arith, e) in z),
          ))
          moved)
    | inr e ↦ rw e (
        rem_bytes-Finished w (move (r.n / w * w) r)
          (unfold move in omega (arith, lt-div-mul-add {a = r.n} pos))
          (move-Copied mem dest src n apart (r.n / w * w) r (div-mul-le_self r.n w) moved))
  ]

  vectors-Finished : (mvl w : ℕ) (r : Regs) → 0 < mvl → 0 < w → Moved r → Finished (vectors mvl w r)
  unfolding vectors
  vectors-Finished mvl w r some_mvl pos moved = elim (Bool-cases (ltb r.n (mvl * w))) [
    | inl e ↦ rw e (rem_words-Finished w r pos moved)
    | inr e ↦ rw e (
        after_loop (λ s. leb (mvl * w) s.n) r _ (rem_words w)
          (λ s copied done. rem_words-Finished w s pos copied)
          (do_while-Ended mem dest src n apart (mvl * w) (λ s. leb (mvl * w) s.n) (grind arith)
            (λ s t. ground (arith, t)) r.n r (omega arith) (ground (arith, e)) moved))
  ]

  scalar-Finished : (r : Regs) → Moved r → Finished (scalar r)
  unfolding scalar
  scalar-Finished r moved = elim (Bool-cases (r.n / 8 * 8 == 0)) [
    | inl e ↦ rw e (rem_bytes-Finished 8 r (ground (arith, e)) moved)
    | inr e ↦ rw e (
        after_loop (λ s. not (s.n / 8 * 8 == 0)) r _ (rem_bytes 8)
          (λ s copied done. rem_bytes-Finished 8 s (ground (arith, done)) copied)
          (do_while-Ended mem dest src n apart 8 (λ s. not (s.n / 8 * 8 == 0)) (omega arith)
            (λ s t. ground (arith, t)) r.n r (omega arith) (ground (arith, e)) moved))
  ]

  by_words-Finished :
      (mvl w : ℕ) (r : Regs) → 0 < mvl → 0 < w → w ≤ r.n → Moved r → Finished (by_words mvl w r)
  unfolding by_words pre_bytes
  by_words-Finished mvl w r some_mvl pos room moved = elim (Bool-cases (r.p % w == 0)) [
    | inl e ↦ rw e (vectors-Finished mvl w r some_mvl pos moved)
    | inr e ↦ rw e (
        after_loop (λ s. not (s.p % w == 0)) r _ (vectors mvl w)
          (λ s copied done. vectors-Finished mvl w s some_mvl pos copied)
          (do_while-target mem dest src n apart (λ s. not (s.p % w == 0)) (r.p + (w - r.p % w))
            (λ s at.
              let whole : s.p % w ≡ 0 = ap (λ t. t % w) at ∙ next_multiple r.p w pos in
              ground (arith, whole))
            w r (omega (arith, mod-lt r.p pos)) (omega (arith, mod-lt r.p pos))
            (omega (arith, mod-lt r.p pos)) moved))
  ]

  returned-copy :
      (out : Option Regs)
      → Finished out
      → returned dest out ≡ some (dest, copy mem dest (λ k. mem (src + k)) n)
  unfolding returned
  returned-copy none finished = absurd finished
  returned-copy (some s) (copied, done) =
      ap (λ m. some (dest, m))
        (copied.mem_lem ∙ ap (copy mem dest (λ k. mem (src + k))) (omega (arith, done)))

  four_bytes-Finished :
      (mvl : ℕ) (r : Regs) → 0 < mvl → 8 ≤ r.n → Moved r → Finished (four_bytes mvl r)
  unfolding four_bytes
  four_bytes-Finished mvl r some_mvl room moved = elim (Bool-cases (r.p % 4 == r.q % 4)) [
    | inl e ↦ rw e (by_words-Finished mvl 4 r some_mvl (omega arith) (omega arith) moved)
    | inr e ↦ rw e (scalar-Finished r moved)
  ]

  eight_bytes-Finished :
      (mvl : ℕ) (r : Regs) → 0 < mvl → 8 ≤ r.n → Moved r → Finished (eight_bytes mvl r)
  unfolding eight_bytes
  eight_bytes-Finished mvl r some_mvl room moved = elim (Bool-cases (r.p % 8 == r.q % 8)) [
    | inl e ↦ rw e (by_words-Finished mvl 8 r some_mvl (omega arith) room moved)
    | inr e ↦ rw e (four_bytes-Finished mvl r some_mvl room moved)
  ]

  -- __libsysve_vec_memcpy ends, returns the destination's address, and leaves the memory that one
  -- copy of the bytes would: the destination has the source's bytes and every other byte is kept.
  -- The two ranges share no byte, and the machine's vectors have at least one element; sizes and
  -- alignments are any.
  pub vec_memcpy-copy :
      (mvl : ℕ)
      → 0 < mvl
      → vec_memcpy mvl mem dest src n ≡ some (dest, copy mem dest (λ k. mem (src + k)) n)
  unfolding vec_memcpy
  vec_memcpy-copy mvl some_mvl = returned-copy _ (elim (Bool-cases (ltb n 40)) [
    | inl e ↦ rw e (scalar-Finished entry moved)
    | inr e ↦ rw e (eight_bytes-Finished mvl entry some_mvl (ground (arith, e)) moved)
  ])
    where
      entry : Regs
      entry = record { mem = mem; p = dest; q = src; n = n }

      moved : Moved entry
      moved = record {
        mem_lem = fun_ext λ k. ground arith;
        p_lem = refl;
        q_lem = refl;
        le = omega arith;
      }
