-- ===== src/Acc/Watch/Tidy.antt =====
-- The two slots of a transfer of src/accelerated_io.c on a watched engine: what the loops keep.
use libsysve.Prelude.{
  ℕ, suc, ◌%◌, ◌<◌, ◌≡◌, Bool, false, ltb, Option, none, some, update, arith, fun_ext,
}
use mathlib.Core.Path.{subst}
use libsysve.Acc.Vh.{accepted}
use libsysve.Acc.Watch.{
  Watched, watch, noted, over, is_some, Watching, over-Watching, noted-Watching,
}

module _ {D : Type 0} where
  -- The transfers under way are those that `p` says, by their handles in `h`, each in its slot.
  pub record Tidy (w : Watched D) (p : ℕ → Option ℕ) (h : ℕ → ℕ) : Type 0 where
    pub watching : Watching w (λ j. is_some (p j)) h
    pub placed : (j i : ℕ) → j < 2 → p j ≡ some i → i % 2 ≡ j

  -- So they are but for slot `j`, which is free.
  pub record Free (j : ℕ) (w : Watched D) (p : ℕ → Option ℕ) (h : ℕ → ℕ) : Type 0 where
    pub watching : Watching w (update (λ k. is_some (p k)) j false) h
    pub placed : (k i : ℕ) → k < 2 → p k ≡ some i → i % 2 ≡ k

-- At round `i` the slots of the rounds before it are in use.
abbrev pub Full : ℕ → (ℕ → Option ℕ) → Type 0
Full i p = (j : ℕ) → j < 2 → is_some (p j) ≡ ltb j i

pub posted-Full : (i n : ℕ) (p : ℕ → Option ℕ) → Full i p → Full (suc i) (update p (i % 2) (some n))
posted-Full i n p full j lt = ground (arith, full j lt)

module _ {D : Type 0} (w : Watched D) (p : ℕ → Option ℕ) (h : ℕ → ℕ) where
  pub Free-cleared : (j : ℕ) → Free j w p h → Tidy w (update p j none) h
  Free-cleared j f = record {
    watching = subst (λ c. Watching w c h) (fun_ext λ k. ground arith) f.watching;
    placed = λ k i lt is. f.placed k i lt (ground (arith, is));
  }

  pub Free-refused : (j : ℕ) (d : D) → Free j w p h → Free j (record w { engine = d }) p h
  Free-refused j d f = record {
    watching = record {
      held = f.watching.held;
      fresh = f.watching.fresh;
      apart = f.watching.apart;
      fine = f.watching.fine;
    };
    placed = f.placed;
  }

  pub Free-posted :
      (i hd : ℕ) (now : Bool) (d : D)
      → Free (i % 2) w p h
      → Tidy (noted w (accepted hd now, d)).1 (update p (i % 2) (some i)) (update h (i % 2) w.next)
  Free-posted i hd now d f = record {
    watching =
        subst (λ c. Watching (noted w (accepted hd now, d)).1 c (update h (i % 2) w.next))
          (fun_ext λ k. ground arith)
          (noted-Watching w (update (λ k. is_some (p k)) (i % 2) false) h (i % 2) hd now d
            (omega arith) (ground arith) f.watching);
    placed = λ k m lt is. ground (arith, f.placed k m lt, is);
  }

  pub Tidy-Free : (i : ℕ) → i < 2 → Full i p → Tidy w p h → Free (i % 2) w p h
  Tidy-Free i early full y = record {
    watching =
        subst (λ c. Watching w c h) (fun_ext λ k. ground (arith, full (i % 2) (omega arith), early))
          y.watching;
    placed = y.placed;
  }

  pub Tidy-waited :
      (i : ℕ) (d : D) → 2 < suc i → Full i p → Tidy w p h → Free (i % 2) (over (h (i % 2)) d w) p h
  Tidy-waited i d late full y = record {
    watching =
        over-Watching w (λ k. is_some (p k)) h (i % 2) d (omega arith)
          (ground (arith, full (i % 2) (omega arith), late)) y.watching;
    placed = y.placed;
  }

pub watch-Tidy : {D : Type 0} (d : D) (h : ℕ → ℕ) → Tidy (watch d) (λ _. none) h
watch-Tidy d h = record {
  watching = record {
    held = λ m. ground arith;
    fresh = λ j is. absurd (ground (arith, is));
    apart = λ a b. absurd (ground (arith, a));
    fine = ground arith;
  };
  placed = λ j i lt is. absurd (ground (arith, is));
}
