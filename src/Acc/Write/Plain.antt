-- ===== src/Acc/Write/Plain.antt =====
-- The write that an application asks for, with no buffers, DMA or overlap: one call for each chunk,
-- in order, until one of them fails, takes nothing or takes less than the chunk.
use libsysve.Prelude.{ℕ, zero, suc, ◌+◌, ◌-◌, ◌*◌, ◌%◌, Bool, ◌==◌, ltb, if◌then◌else◌, Bytes}
use libsysve.Prelude.Int.{pos, minus_one}
use libsysve.Acc.Vh.{Request, buff_nparas, paras_size, mark_second}
use libsysve.Acc.Read.Types.{Job, Result}
use libsysve.Acc.Write.Types.{WriteReply, failed, wrote, Chunk}

-- What has been written so far, and the data to go.
pub record Progress (K T : Type 0) : Type 0 where
  pub kernel : K
  pub source : T
  pub total : ℕ
  pub ofs : ℕ
  pub errno : ℕ

-- The result names no data: the kernel has it.
abbrev pub Outcome : Type 0 → Type 0
Outcome K = Result K (Unit {0})

module _ {K T : Type 0} (write : K → Request → Bytes → WriteReply × K) (fill : T → ℕ → Chunk T)
    (second_flag : ℕ) (buffer : ℕ → ℕ) (job : Job) (last : ℕ) where
  abbrev pub chunk_size : ℕ → ℕ
  chunk_size i = if i == last then job.count - paras_size * i else paras_size

  -- `marked` says whether the VH buffers' addresses carry the flag of a second call.
  abbrev pub request : Bool → ℕ → Progress K T → Request
  request marked i p = record {
    number = job.number;
    fd = job.fd;
    buf = (if marked then mark_second second_flag buffer else buffer) (i % buff_nparas);
    size = chunk_size i;
    ofs = p.ofs;
  }

  abbrev pub ended : Progress K T → Outcome K
  ended p = record { ret = pos p.total; errno = p.errno; sink = tt; kernel = p.kernel }

  -- A first call that fails fails the write; a later one ends it, with `errno` cleared.
  abbrev pub refused : ℕ → ℕ → K → Progress K T → Outcome K
  refused i err k p = record {
    ret = if i == 0 then minus_one else pos p.total;
    errno = if i == 0 then err else 0;
    sink = tt;
    kernel = k;
  }

  abbrev pub sent : ℕ → T → K → Progress K T → Progress K T
  sent n rest k p = record {
    kernel = k;
    source = rest;
    total = p.total + n;
    ofs = p.ofs + n;
    errno = p.errno;
  }

  abbrev pub after : ℕ → T → Progress K T → WriteReply × K → (Progress K T → Outcome K) → Outcome K
  after i rest p (failed err, k) next = refused i err k p
  after i rest p (wrote n, k) next =
      if n == 0
      then ended (record p { kernel = k })
      else (if ltb n (chunk_size i) then ended (sent n rest k p) else next (sent n rest k p))

  abbrev pub step : Bool → ℕ → Progress K T → (Progress K T → Outcome K) → Outcome K
  step marked i p =
      let chunk = fill p.source (chunk_size i) in
      after i chunk.rest p (write p.kernel (request marked i p) chunk.bytes)

  unfoldable pub plain_write : Bool → (left i : ℕ) → Progress K T → Outcome K
  plain_write marked zero i p = ended p
  plain_write marked (suc left) i p = step marked i p (plain_write marked left (suc i))
