-- ===== src/Acc/Write/Source.antt =====
-- The plain write does not see how its data is kept: two ways to fill the chunks that give the same
-- bytes give the same calls.
use libsysve.Prelude.{
  ℕ, zero, suc, ◌+◌, ◌-◌, ◌*◌, ◌<◌, ◌≡◌, refl, Bool, ◌==◌, if◌then◌else◌, Bytes, arith,
}
use libsysve.Acc.Vh.{Request, paras_size}
use libsysve.Acc.Read.Types.{Job}
use libsysve.Acc.Write.Types.{WriteReply, failed, wrote, Chunk}
use libsysve.Acc.Write.Plain.{Progress, Outcome, request, sent, after, step, plain_write}

module _ {K T T' : Type 0} (write : K → Request → Bytes → WriteReply × K)
    (write_congr : (k : K) (r : Request) (f g : Bytes)
      → ((x : ℕ) → x < r.size → f x ≡ g x)
      → write k r f ≡ write k r g)
    (fill : T → ℕ → Chunk T) (fill' : T' → ℕ → Chunk T') (second_flag : ℕ) (buffer : ℕ → ℕ)
    (job : Job) (last : ℕ) (Same : ℕ → T → T' → Type 0) where
  abbrev size_at : ℕ → ℕ
  size_at i = if i == last then job.count - paras_size * i else paras_size

  -- The sources give round `i` the same bytes, and stay the same.
  abbrev pub Alike : ℕ → Type 0
  Alike i =
      (t : T) (t' : T')
      → Same i t t'
      → ((x : ℕ) → x < size_at i → (fill t (size_at i)).bytes x ≡ (fill' t' (size_at i)).bytes x)
        × Same (suc i) (fill t (size_at i)).rest (fill' t' (size_at i)).rest

  -- The same progress with the other source.
  abbrev pub resourced : T' → Progress K T → Progress K T'
  resourced t' p = record {
    kernel = p.kernel;
    source = t';
    total = p.total;
    ofs = p.ofs;
    errno = p.errno;
  }

  after-resourced :
      (i : ℕ) (rest : T) (rest' : T') (p : Progress K T) (t' : T') (out : WriteReply × K)
      (next : Progress K T → Outcome K) (next' : Progress K T' → Outcome K)
      → ((q : Progress K T) → q.source ≡ rest → next q ≡ next' (resourced rest' q))
      → after write fill second_flag buffer job last i rest p out next
        ≡ after write fill' second_flag buffer job last i rest' (resourced t' p) out next'
  after-resourced i rest rest' p t' (failed err, k) next next' same = refl
  after-resourced i rest rest' p t' (wrote n, k) next next' same =
      let go : next (sent write fill second_flag buffer job last n rest k p)
          ≡ next' (resourced rest' (sent write fill second_flag buffer job last n rest k p)) =
        same (sent write fill second_flag buffer job last n rest k p) refl in
      rw go refl

  step-resourced :
      (marked : Bool) (i : ℕ) (p : Progress K T) (t' : T')
      → ((x : ℕ)
          → x < size_at i
          → (fill p.source (size_at i)).bytes x ≡ (fill' t' (size_at i)).bytes x)
      → (next : Progress K T → Outcome K) (next' : Progress K T' → Outcome K)
      → ((q : Progress K T)
          → q.source ≡ (fill p.source (size_at i)).rest
          → next q ≡ next' (resourced (fill' t' (size_at i)).rest q))
      → step write fill second_flag buffer job last marked i p next
        ≡ step write fill' second_flag buffer job last marked i (resourced t' p) next'
  step-resourced marked i p t' bytes next next' same =
      rw
        (write_congr p.kernel (request write fill second_flag buffer job last marked i p)
          (fill p.source (size_at i)).bytes (fill' t' (size_at i)).bytes bytes)
        (after-resourced i _ _ p t'
          (write p.kernel (request write fill second_flag buffer job last marked i p)
            (fill' t' (size_at i)).bytes)
          next next' same)

  pub plain_write-resourced :
      (marked : Bool) (left i : ℕ) (p : Progress K T) (t' : T')
      → ((j : ℕ) → j < left + i → Alike j)
      → Same i p.source t'
      → plain_write write fill second_flag buffer job last marked left i p
        ≡ plain_write write fill' second_flag buffer job last marked left i (resourced t' p)
  unfolding plain_write
  plain_write-resourced marked zero i p t' alike same = refl
  plain_write-resourced marked (suc left) i p t' alike same =
      let (bytes, onward) = alike i (omega arith) p.source t' same in
      step-resourced marked i p t' bytes
        (plain_write write fill second_flag buffer job last marked left (suc i))
        (plain_write write fill' second_flag buffer job last marked left (suc i))
        (λ q at.
          plain_write-resourced marked left (suc i) q (fill' t' (size_at i)).rest
            (λ j lt. alike j (omega arith)) (rw at onward))
