-- ===== src/Acc/Watch.antt =====
-- A DMA engine that is watched: which transfers of src/accelerated_io.c are under way, and whether a wait
-- was for one that is not.
pub mod Tidy
use libsysve.Prelude.{
  ℕ, suc, ◌<◌, ◌≡◌, ◌≢◌, Bool, true, false, not, ◌&&◌, ◌||◌, ◌==◌, if◌then◌else◌, Option, none,
  some, update, arith,
}
use libsysve.Acc.Vh.{Transfer, PostReply, accepted, refused}

pub record Watched (D : Type 0) : Type 0 where
  pub engine : D
  pub next : ℕ
  pub handle_of : ℕ → ℕ
  pub under_way : ℕ → Bool
  pub misused : Bool

abbrev pub is_some : Option ℕ → Bool
is_some none = false
is_some (some i) = true

-- Nothing is under way.
abbrev pub watch : {D : Type 0} → D → Watched D
watch d = record {
  engine = d;
  next = 0;
  handle_of = λ _. 0;
  under_way = λ _. false;
  misused = false;
}

module _ {D : Type 0} where
  -- Each transfer gets a handle that no other has had.
  abbrev pub noted : Watched D → PostReply × D → PostReply × Watched D
  noted w (refused, d) = (refused, record w { engine = d })
  noted w (accepted h now, d) = (
    accepted w.next now,
    record w {
      engine = d;
      next = suc w.next;
      handle_of = update w.handle_of w.next h;
      under_way = update w.under_way w.next true;
    },
  )

  abbrev pub watch_post :
      (D → Transfer → PostReply × D) → Watched D → Transfer → PostReply × Watched D
  watch_post post w t = noted w (post w.engine t)

  abbrev pub over : ℕ → D → Watched D → Watched D
  over n d w = record w {
    engine = d;
    under_way = update w.under_way n false;
    misused = w.misused || not (w.under_way n);
  }

  abbrev pub watch_wait : (D → ℕ → ℕ × D) → Watched D → ℕ → ℕ × Watched D
  watch_wait wait w n =
      ((wait w.engine (w.handle_of n)).0, over n (wait w.engine (w.handle_of n)).1 w)

  -- The transfers under way are those of the slots in `c`, by the handles in `h`, and no wait was for another.
  pub record Watching (w : Watched D) (c : ℕ → Bool) (h : ℕ → ℕ) : Type 0 where
    pub held : (n : ℕ) → w.under_way n ≡ ((c 0 && (h 0 == n)) || (c 1 && (h 1 == n)))
    pub fresh : (j : ℕ) → c j ≡ true → h j < w.next
    pub apart : c 0 ≡ true → c 1 ≡ true → h 0 ≢ h 1
    pub fine : w.misused ≡ false

  pub over-Watching :
      (w : Watched D) (c : ℕ → Bool) (h : ℕ → ℕ) (j : ℕ) (d : D)
      → j < 2
      → c j ≡ true
      → Watching w c h
      → Watching (over (h j) d w) (update c j false) h
  over-Watching w c h j d lt used a = record {
    held = λ n. ground (arith, a.held n, a.apart, used, lt);
    fresh = λ k is. ground (arith, a.fresh k, is);
    apart = ground (arith, a.apart, lt);
    fine = ground (arith, a.fine, a.held (h j), used, lt);
  }

  pub noted-Watching :
      (w : Watched D) (c : ℕ → Bool) (h : ℕ → ℕ) (j hd : ℕ) (now : Bool) (d : D)
      → j < 2
      → c j ≡ false
      → Watching w c h
      → Watching (noted w (accepted hd now, d)).1 (update c j true) (update h j w.next)
  noted-Watching w c h j hd now d lt unused a = record {
    held = λ n. ground (arith, a.held n, unused, lt);
    fresh = λ k is. ground (arith, a.fresh k, is);
    apart = ground (arith, a.fresh 0, a.fresh 1, unused, lt);
    fine = a.fine;
  }
