-- ===== src/Acc/Engine.antt =====
-- The DMA engine as src/accelerated_io.c meets it: the states that its calls lead to, and its faults there.
use libsysve.Prelude.{ℕ, ◌≡◌, true, leb}
use libsysve.Acc.Vh.{Transfer, PostReply, refused}

module _ {D : Type 0} (post : D → Transfer → PostReply × D) (wait : D → ℕ → ℕ × D) where
  -- The states that posts and waits lead to from `d₀`.
  pub data Seen (d₀ : D) : D → Type 0 where
    started : Seen d₀ d₀
    posted : (d : D) (t : Transfer) → Seen d₀ d → Seen d₀ (post d t).1
    waited : (d : D) (h : ℕ) → Seen d₀ d → Seen d₀ (wait d h).1

  -- In one of them the engine refuses a transfer or reports an exception.
  pub data FaultyFrom (d₀ : D) : Type 0 where
    refuses : (d : D) (t : Transfer) → Seen d₀ d → (post d t).0 ≡ refused → FaultyFrom d₀
    fails : (d : D) (h : ℕ) → Seen d₀ d → leb 1 (wait d h).0 ≡ true → FaultyFrom d₀

  -- The engine from `d₀` on, confined to these states.
  abbrev pub SeenState : D → Type 0
  SeenState d₀ = (d : D) × Seen d₀ d

  abbrev pub seen_post : (d₀ : D) → SeenState d₀ → Transfer → PostReply × SeenState d₀
  seen_post d₀ s t = ((post s.0 t).0, ((post s.0 t).1, posted s.0 t s.1))

  abbrev pub seen_wait : (d₀ : D) → SeenState d₀ → ℕ → ℕ × SeenState d₀
  seen_wait d₀ s h = ((wait s.0 h).0, ((wait s.0 h).1, waited s.0 h s.1))
